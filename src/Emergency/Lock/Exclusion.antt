-- ===== src/Emergency/Lock/Exclusion.antt =====
-- At most one process holds the lock of the ledger, unless a lock file is removed too late or is held for too long.
use agent_context_broker.Prelude.{
  ℕ, Bool, true, ◌<◌, ◌≡◌, ◌≢◌, sym, ap, ◌∙◌, subst, ◌==◌, Option, none, some, arith, Bool-cases,
  inl, inr, ◌⊎◌,
}
use agent_context_broker.Emergency.Lock.{
  Place, waiting, seen, judged, removing, holding, gone, State, move, acquired, moved, unlinked,
  Step, mark, aged, IsAbandoned, acquire, grow_old, look, judge, wait, unchanged, changed, remove,
  release, crash, initial, IsCheck, IsRemoval, IsPrompt, ReachesPrompt, prompt_initial, prompt_step,
  prompt_reclaim,
}

move_cases :
    (p q : ℕ) (x : Place) (places : ℕ → Place)
    → ((q ≡ p) × (move p x places q ≡ x)) ⊎ ((q ≢ p) × (move p x places q ≡ places q))
move_cases p q x places = elim (Bool-cases (q == p)) [
  | inl here ↦ inl (ground arith, rw here)
  | inr other ↦ inr (ground arith, rw other)
]

-- The number of a lock file that a place names.
abbrev names : Place → Option ℕ
names waiting = none
names (seen n) = some n
names (judged n) = some n
names (removing n) = some n
names (holding n) = some n
names (gone n) = none

abbrev suspects : Place → Option ℕ
suspects (judged n) = some n
suspects (removing n) = some n
suspects _ = none

pub record IsExclusive (s : State) : Type 0 where
  pub held : (p n : ℕ) → s.places p ≡ holding n → s.file ≡ some n
  pub single : (p q n : ℕ) → s.places p ≡ holding n → s.places q ≡ holding n → p ≡ q
  pub known : (p n : ℕ) → names (s.places p) ≡ some n → n < s.next
  pub known_file : (n : ℕ) → s.file ≡ some n → n < s.next
  pub abandoned : (p q n : ℕ) → suspects (s.places p) ≡ some n → s.places q ≢ holding n
  pub past : (n : ℕ) → s.old n ≡ true → n < s.next
  pub expired : (q n : ℕ) → s.old n ≡ true → s.places q ≢ holding n

initial-IsExclusive : IsExclusive initial
initial-IsExclusive = record {
  held = λ p n e. cc;
  single = λ p q n e f. cc;
  known = λ p n e. cc;
  known_file = λ n e. cc;
  abandoned = λ p q n e f. cc;
  past = λ n e. cc;
  expired = λ q n e f. cc;
}

held_before :
    (p q n : ℕ) (x : Place) (places : ℕ → Place)
    → ((m : ℕ) → x ≢ holding m)
    → move p x places q ≡ holding n
    → (q ≢ p) × (places q ≡ holding n)
held_before p q n x places free e = elim (move_cases p q x places) [
  | inl (here, same) ↦ elim (free n (sym same ∙ e)) [ ]
  | inr (other, same) ↦ (other, sym same ∙ e)
]

-- A process goes to a place in which it does not hold the lock, and the file stays.
moved-IsExclusive :
    (s : State) (p : ℕ) (x : Place)
    → IsExclusive s
    → ((n : ℕ) → x ≢ holding n)
    → ((n : ℕ) → names x ≡ some n → n < s.next)
    → ((q n : ℕ) → suspects x ≡ some n → s.places q ≢ holding n)
    → IsExclusive (moved p x s)
moved-IsExclusive s p x k free known abandoned = record {
  held = λ q n e. k.held q n (held_before p q n x s.places free e).1;
  single = λ q r n e f.
      k.single q r n (held_before p q n x s.places free e).1
        (held_before p r n x s.places free f).1;
  known = λ q n e. elim (move_cases p q x s.places) [
    | inl (here, same) ↦ known n (ap names (sym same) ∙ e)
    | inr (other, same) ↦ k.known q n (ap names (sym same) ∙ e)
  ];
  known_file = k.known_file;
  abandoned = λ q r n e f.
      let before = (held_before p r n x s.places free f).1 in
      elim (move_cases p q x s.places) [
        | inl (here, same) ↦ abandoned r n (ap suspects (sym same) ∙ e) before
        | inr (other, same) ↦ k.abandoned q r n (ap suspects (sym same) ∙ e) before
      ];
  past = k.past;
  expired = λ q n e f. k.expired q n e (held_before p q n x s.places free f).1;
}

-- The file goes, and no other process holds the lock.
unlinked-IsExclusive :
    (s : State) (p : ℕ)
    → IsExclusive s
    → ((q n : ℕ) → q ≢ p → s.places q ≢ holding n)
    → IsExclusive (unlinked p s)
unlinked-IsExclusive s p k alone =
    let m = moved-IsExclusive s p waiting k (λ n e. ground arith) (λ n e. cc) (λ q n e f. cc) in
    record {
      held = λ q n e.
          let (other, before) = held_before p q n waiting s.places (λ j f. ground arith) e in
          elim (alone q n other before) [ ];
      single = m.single;
      known = m.known;
      known_file = λ n e. cc;
      abandoned = m.abandoned;
      past = m.past;
      expired = m.expired;
    }

holding_same : (m n : ℕ) → holding m ≡ holding n → m ≡ n
holding_same m n e = ground arith

suspects-names : (x : Place) (n : ℕ) → suspects x ≡ some n → names x ≡ some n
suspects-names (judged m) n e = e
suspects-names (removing m) n e = e
suspects-names waiting n e = cc
suspects-names (seen m) n e = cc
suspects-names (holding m) n e = cc
suspects-names (gone m) n e = cc

module _ (s : State) (p : ℕ) (k : IsExclusive s) (absent : s.file ≡ none) where
  -- Where there is no file nobody holds the lock, so after `openSync` the one process does.
  only_new : (q n : ℕ) → (acquired p s).places q ≡ holding n → (q ≡ p) × (s.next ≡ n)
  only_new q n e = elim (move_cases p q (holding s.next) s.places) [
    | inl (here, same) ↦ (here, holding_same s.next n (sym same ∙ e))
    | inr (other, same) ↦
        let file : s.file ≡ some n = k.held q n (sym same ∙ e) in
        let impossible : none ≡ some n = sym absent ∙ file in cc
  ]

  older : (q n : ℕ) → suspects ((acquired p s).places q) ≡ some n → n < s.next
  older q n e = elim (move_cases p q (holding s.next) s.places) [
    | inl (here, same) ↦ let impossible : none ≡ some n = ap suspects (sym same) ∙ e in cc
    | inr (other, same) ↦ k.known q n (suspects-names (s.places q) n (ap suspects (sym same) ∙ e))
  ]

  acquired-IsExclusive : IsExclusive (acquired p s)
  acquired-IsExclusive = record {
    held = λ q n e. ap some (only_new q n e).1;
    single = λ q r n e f. (only_new q n e).0 ∙ sym (only_new r n f).0;
    known = λ q n e. elim (move_cases p q (holding s.next) s.places) [
      | inl (here, same) ↦
          let newest : some s.next ≡ some n = ap names (sym same) ∙ e in ground arith
      | inr (other, same) ↦
          let before : n < s.next = k.known q n (ap names (sym same) ∙ e) in omega (arith, before)
    ];
    known_file = λ n e. ground arith;
    abandoned = λ q r n e f.
        let new : s.next ≡ n = (only_new r n f).1 in
        let old : n < s.next = older q n e in omega (arith, new, old);
    past = λ n e. let before : n < s.next = k.past n e in omega (arith, before);
    expired = λ q n e f.
        let new : s.next ≡ n = (only_new q n f).1 in
        let old : n < s.next = k.past n e in omega (arith, new, old);
  }

-- Nobody else holds the lock where a process is about to release it, or to remove a file in time.
alone_holding :
    (s : State) (p n : ℕ)
    → IsExclusive s
    → s.places p ≡ holding n
    → (q m : ℕ) → q ≢ p
    → s.places q ≢ holding m
alone_holding s p n k e q m other f =
    let same : some m ≡ some n = sym (k.held q m f) ∙ k.held p n e in
    let equal : m ≡ n = ground arith in
    other (k.single q p n (subst (λ j. s.places q ≡ holding j) equal f) e)

alone_removing :
    (s : State) (p n : ℕ)
    → IsExclusive s
    → s.places p ≡ removing n
    → s.file ≡ some n
    → (q m : ℕ) → q ≢ p
    → s.places q ≢ holding m
alone_removing s p n k e timely q m other f =
    let same : some m ≡ some n = sym (k.held q m f) ∙ timely in
    let equal : m ≡ n = ground arith in
    k.abandoned p q n (ap suspects e) (subst (λ j. s.places q ≡ holding j) equal f)

-- A lock that is judged abandoned: nobody holds that of the file that was seen, since it is the one that
-- was judged, or is not there any more.
judged_free :
    (s : State) (n m : ℕ)
    → IsExclusive s
    → s.file ≡ some m
    → IsAbandoned s m
    → (q : ℕ) → s.places q ≢ holding n
judged_free s n m k file gone_ q e =
    let there : some m ≡ some n = sym file ∙ k.held q n e in
    let same : n ≡ m = ground arith in
    let held : s.places q ≡ holding m = subst (λ j. s.places q ≡ holding j) same e in
    elim gone_ [ inl old ↦ k.expired q m old held | inr free ↦ free q held ]

mark_cases : (n m : ℕ) (old : ℕ → Bool) → mark n old m ≡ true → (m ≡ n) ⊎ (old m ≡ true)
mark_cases n m old e = elim (Bool-cases (m == n)) [
  | inl here ↦ inl (ground arith)
  | inr other ↦ inr (rw other at e)
]

aged-IsExclusive :
    (s : State) (n : ℕ)
    → IsExclusive s
    → n < s.next
    → ((q : ℕ) → s.places q ≢ holding n)
    → IsExclusive (aged n s)
aged-IsExclusive s n k known free = record {
  held = k.held;
  single = k.single;
  known = k.known;
  known_file = k.known_file;
  abandoned = k.abandoned;
  past = λ m e. elim (mark_cases n m s.old e) [
    | inl same ↦ subst (λ j. j < s.next) (sym same) known
    | inr before ↦ k.past m before
  ];
  expired = λ q m e f. elim (mark_cases n m s.old e) [
    | inl same ↦ free q (subst (λ j. s.places q ≡ holding j) same f)
    | inr before ↦ k.expired q m before f
  ];
}

Step-IsExclusive : (s t : State) (x : Step s t) → IsPrompt x → IsExclusive s → IsExclusive t
Step-IsExclusive _ _ (acquire s p e absent) prompt k = acquired-IsExclusive s p k absent
Step-IsExclusive _ _ (grow_old s n file) free k = aged-IsExclusive s n k (k.known_file n file) free
Step-IsExclusive _ _ (look s p n e file) prompt k =
    moved-IsExclusive s p (seen n) k (λ m f. ground arith)
      (λ m f. let same : n ≡ m = ground arith in subst (λ j. j < s.next) same (k.known_file n file))
      (λ q m f. cc)
Step-IsExclusive _ _ (judge s p n m e file gone_) prompt k =
    moved-IsExclusive s p (judged n) k (λ j f. ground arith) (λ j f. k.known p j (ap names e ∙ f))
      (λ q j f.
        let same : n ≡ j = ground arith in
        subst (λ i. s.places q ≢ holding i) same (judged_free s n m k file gone_ q))
Step-IsExclusive _ _ (wait s p n e) prompt k =
    moved-IsExclusive s p waiting k (λ m f. ground arith) (λ m f. cc) (λ q m f. cc)
Step-IsExclusive _ _ (unchanged s p n e file) prompt k = elim prompt [ ]
Step-IsExclusive _ _ (changed s p n e file) prompt k =
    moved-IsExclusive s p waiting k (λ m f. ground arith) (λ m f. cc) (λ q m f. cc)
Step-IsExclusive _ _ (remove s p n e) prompt k = elim prompt [ ]
Step-IsExclusive _ _ (release s p n e) prompt k =
    unlinked-IsExclusive s p k (alone_holding s p n k e)
Step-IsExclusive _ _ (crash s p n e) prompt k =
    moved-IsExclusive s p (gone n) k (λ m f. ground arith) (λ m f. cc) (λ q m f. cc)

-- What a check leaves: the file is still the one that was judged.
pub record IsChecked (p : ℕ) (s : State) : Type 0 where
  pub exclusive : IsExclusive s
  pub number : ℕ
  pub about : s.places p ≡ removing number
  pub there : s.file ≡ some number

check-IsChecked : (s t : State) (p : ℕ) (x : Step s t) → IsCheck p x → IsExclusive s → IsChecked p t
check-IsChecked _ _ p (unchanged s q n e file) same k = record {
  exclusive =
      moved-IsExclusive s q (removing n) k (λ m f. ground arith)
        (λ m f. k.known q m (ap names e ∙ f)) (λ r m f. k.abandoned q r m (ap suspects e ∙ f));
  number = n;
  about = ground arith;
  there = file;
}
check-IsChecked _ _ p (acquire s q e absent) c k = elim c [ ]
check-IsChecked _ _ p (grow_old s n file) c k = elim c [ ]
check-IsChecked _ _ p (look s q n e file) c k = elim c [ ]
check-IsChecked _ _ p (judge s q n m e file gone_) c k = elim c [ ]
check-IsChecked _ _ p (wait s q n e) c k = elim c [ ]
check-IsChecked _ _ p (changed s q n e file) c k = elim c [ ]
check-IsChecked _ _ p (remove s q n e) c k = elim c [ ]
check-IsChecked _ _ p (release s q n e) c k = elim c [ ]
check-IsChecked _ _ p (crash s q n e) c k = elim c [ ]

removal-IsExclusive :
    (s t : State) (p : ℕ) (x : Step s t) → IsRemoval p x → IsChecked p s → IsExclusive t
removal-IsExclusive _ _ p (remove s q n e) same c =
    let about : s.places q ≡ removing c.number =
      subst (λ j. s.places j ≡ removing c.number) (sym same) c.about in
    unlinked-IsExclusive s q c.exclusive (alone_removing s q c.number c.exclusive about c.there)
removal-IsExclusive _ _ p (acquire s q e absent) r c = elim r [ ]
removal-IsExclusive _ _ p (grow_old s n file) r c = elim r [ ]
removal-IsExclusive _ _ p (look s q n e file) r c = elim r [ ]
removal-IsExclusive _ _ p (judge s q n m e file gone_) r c = elim r [ ]
removal-IsExclusive _ _ p (wait s q n e) r c = elim r [ ]
removal-IsExclusive _ _ p (unchanged s q n e file) r c = elim r [ ]
removal-IsExclusive _ _ p (changed s q n e file) r c = elim r [ ]
removal-IsExclusive _ _ p (release s q n e) r c = elim r [ ]
removal-IsExclusive _ _ p (crash s q n e) r c = elim r [ ]

ReachesPrompt-IsExclusive : (s : State) → ReachesPrompt s → IsExclusive s
ReachesPrompt-IsExclusive _ prompt_initial = initial-IsExclusive
ReachesPrompt-IsExclusive _ (prompt_step s t r x prompt) =
    Step-IsExclusive s t x prompt (ReachesPrompt-IsExclusive s r)
ReachesPrompt-IsExclusive _ (prompt_reclaim s t u p r x y check removal) =
    removal-IsExclusive t u p y removal
      (check-IsChecked s t p x check (ReachesPrompt-IsExclusive s r))

-- If no process that lives holds the lock until its file is old, and a process that removes a lock file
-- does so directly after it has found it unchanged, then at most one process holds the lock, crashes and
-- reclaimed locks included, and the file that is there is its own.
pub ReachesPrompt-single_holder :
    (s : State) (p q m n : ℕ)
    → ReachesPrompt s
    → s.places p ≡ holding m
    → s.places q ≡ holding n
    → (p ≡ q) × (m ≡ n) × (s.file ≡ some m)
ReachesPrompt-single_holder s p q m n r e f =
    let k = ReachesPrompt-IsExclusive s r in
    let same : some m ≡ some n = sym (k.held p m e) ∙ k.held q n f in
    let equal : m ≡ n = ground arith in
    (k.single p q n (subst (λ j. s.places p ≡ holding j) equal e) f, equal, k.held p m e)
