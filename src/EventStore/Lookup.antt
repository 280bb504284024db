-- ===== src/EventStore/Lookup.antt =====
-- What the index of src/event-store.mjs answers, when it is rebuilt and when it is trusted.
use agent_context_broker.Prelude.{
  ℕ, suc, ◌+◌, ◌≤◌, ◌==◌, ◌≡◌, ◌≢◌, refl, ap, subst, ◌∙◌, String, true, false, ◌&&◌, ◌||◌, Option,
  none, some, List, [], ◌∷◌, ◌++◌, map, arith, eq_iff, Bool-cases, Option-cases, inl, inr, ◌⊎◌,
  contains, find, length, leb, str_eq, if◌then◌else◌,
}
use agent_context_broker.Prelude.Text.{is_hash}
use agent_context_broker.Platform.{Platform}
use agent_context_broker.EventStore.Event.{Event}
use agent_context_broker.EventStore.Files.{
  ok, record_file, record_files, read_record, Head, Row, Binding, missing, no_json, binding, Store,
  expected_head, last,
}
use agent_context_broker.EventStore.Index.{
  Entry, set_entry, get_entry, read_records, index_row, index_events, tip_id, indexed,
  rebuild_idempotency_index, binding_matches, Scan, no_rows, see_row, scan_rows, is_safe, describes,
  trusted_index, trusted_scan, index_or_rebuild, found_event, read_idempotency_index,
  read_event_by_sequence,
}
use agent_context_broker.EventStore.Chain.{Chain, Unrepeated, same_option_iff}

last-some {ℓ} : {A : Type ℓ} (x : A) (xs : List A) → last (x ∷ xs) ≢ none
last-some x [] h = cc
last-some x (y ∷ xs) h = last-some y xs h

-- The event with a key.
abbrev pub find_key : String → List Event → Option Event
find_key k es = find (λ e. str_eq e.input.idempotency_key k) es

abbrev pub sequence_or : Option ℕ → Option Event → Option ℕ
sequence_or other none = other
sequence_or other (some e) = some e.sequence

get_entry-set_entry :
    (k j : String) (n : ℕ) (ix : List Entry)
    → get_entry k (set_entry j n ix) ≡ (if str_eq j k then some n else get_entry k ix)
get_entry-set_entry k j n [] = refl
get_entry-set_entry k j n (e ∷ ix) =
    ground (arith, get_entry-set_entry k j n ix, eq_iff e.key j, eq_iff e.key k, eq_iff j k)

pub contains-snoc :
    (k a : String) (keys : List String)
    → contains k (keys ++ a ∷ []) ≡ (contains k keys || str_eq a k)
contains-snoc k a [] = ground arith
contains-snoc k a (b ∷ keys) = ground (arith, contains-snoc k a keys)

pub find_key_fresh :
    (k : String) (keys : List String) (es : List Event)
    → Unrepeated keys es
    → contains k keys ≡ true
    → find_key k es ≡ none
find_key_fresh k keys [] u c = refl
find_key_fresh k keys (e ∷ es) u c =
    let rest =
      find_key_fresh k (keys ++ e.input.idempotency_key ∷ []) es u.1
        (contains-snoc k e.input.idempotency_key keys ∙ ground arith) in
    ground (arith, rest, u.0, eq_iff e.input.idempotency_key k)

-- The index answers with the sequence of the event that has the key.
pub get_entry-index_events :
    (k : String) (keys : List String) (es : List Event) (ix : List Entry)
    → Unrepeated keys es
    → get_entry k (index_events ix es) ≡ sequence_or (get_entry k ix) (find_key k es)
get_entry-index_events k keys [] ix u = refl
get_entry-index_events k keys (e ∷ es) ix u =
    let here = e.input.idempotency_key in
    let rest = get_entry-index_events k (keys ++ here ∷ []) es (set_entry here e.sequence ix) u.1 in
    rest ∙ (elim (Bool-cases (str_eq here k)) [
      | inl same ↦
          let seen : contains k (keys ++ here ∷ []) ≡ true =
            contains-snoc k here keys ∙ ground (arith, same) in
          rw
            (
              find_key_fresh k (keys ++ here ∷ []) es u.1 seen,
              get_entry-set_entry k here e.sequence ix,
              same,
            )
            refl
      | inr other ↦ rw (get_entry-set_entry k here e.sequence ix, other) refl
    ])

read_records_of_files : (es : List Event) → read_records (map record_file es) ≡ ok es
unfolding read_records read_record
read_records_of_files [] = refl
read_records_of_files (e ∷ es) = rw (read_records_of_files es) refl

pub rebuild_lem :
    (es : List Event) (st : Store)
    → record_files st.records ≡ ok (map record_file es)
    → rebuild_idempotency_index st ≡ (ok (index_events [] es), indexed es st)
unfolding rebuild_idempotency_index
rebuild_lem es st h = rw h (rw (read_records_of_files es) refl)

scan_rows-index :
    (es : List Event) (s : Scan)
    → (scan_rows s (map index_row es) ≡ none)
      ⊎ ((t : Scan) × (scan_rows s (map index_row es) ≡ some t)
          × (t.index ≡ index_events s.index es))
unfolding scan_rows
scan_rows-index [] s = inr (s, refl, refl)
scan_rows-index (e ∷ es) s =
    let here = e.input.idempotency_key in
    elim (Bool-cases (is_hash here && is_safe e.sequence && leb 1 e.sequence)) [
      | inr bad ↦ inl (rw bad refl)
      | inl good ↦ elim (scan_rows-index es (see_row here e.sequence s)) [
        | inl stop ↦ inl (rw good stop)
        | inr (t, run, same) ↦ inr (t, rw good run, same)
      ]
    ]

module _ (p : Platform) where
  -- The index file holds the rows of the records, or its binding does not name their tip.
  abbrev pub Fits : List Event → Store → Type 0
  Fits es st =
      (st.index ≡ some (map index_row es))
      ⊎ (binding_matches (expected_head p es) st.index_binding ≡ false)

  pub expected_head-event_id : (es : List Event) → (expected_head p es).event_id ≡ tip_id (last es)
  unfolding expected_head
  expected_head-event_id es = elim (Option-cases (last es)) [
    | inl e ↦ rw e refl
    | inr (d, e) ↦ rw e refl
  ]

  last-sequence :
      (n : ℕ) (previous : Option String) (es : List Event) (e : Event)
      → Chain p n previous es
      → last es ≡ some e
      → suc e.sequence ≡ n + length es
  last-sequence n previous [] e c h = cc
  last-sequence n previous (d ∷ []) e c h =
      let placed = c.0.placed in
      let same : d ≡ e = ground arith in
      let there : suc d.sequence ≡ n + 1 = omega (arith, placed) in rw same at there
  last-sequence n previous (d ∷ f ∷ es) e c h =
      omega (arith, last-sequence (suc n) (some d.event_id) (f ∷ es) e c.1 h)

  pub expected_head-sequence :
      (es : List Event) → Chain p 1 none es → (expected_head p es).sequence ≡ length es
  unfolding expected_head
  expected_head-sequence [] c = refl
  expected_head-sequence (e ∷ es) c = elim (Option-cases (last (e ∷ es))) [
    | inl h ↦ absurd (last-some e es h)
    | inr (d, h) ↦ rw h (omega (arith, last-sequence 1 none (e ∷ es) d c h))
  ]

  binding_matches-binding :
      (h : Head) (b : Binding) → binding_matches h b ≡ true → b ≡ binding h.event_id h.sequence
  binding_matches-binding h missing e = cc
  binding_matches-binding h no_json e = cc
  binding_matches-binding h (binding id n) e =
      let same_id = same_option_iff id h.event_id (ground arith) in
      let same_count : n ≡ h.sequence = ground arith in cc

  trusted_index-foreign :
      (h : Head) (rows : Option (List Row)) (b : Binding)
      → binding_matches h b ≡ false
      → trusted_index h rows b ≡ none
  unfolding trusted_index
  trusted_index-foreign h none b e = refl
  trusted_index-foreign h (some rows) b e = rw e refl

  trusted_index-own :
      (h : Head) (rows : List Row) (b : Binding)
      → binding_matches h b ≡ true
      → trusted_index h (some rows) b ≡ trusted_scan h.sequence (scan_rows no_rows rows)
  unfolding trusted_index
  trusted_index-own h rows b e = rw e refl

  trusted_scan-cases :
      (n : ℕ) (es : List Event)
      → (trusted_scan n (scan_rows no_rows (map index_row es)) ≡ none)
        ⊎ (trusted_scan n (scan_rows no_rows (map index_row es)) ≡ some (index_events [] es))
  trusted_scan-cases n es = elim (scan_rows-index es no_rows) [
    | inl stop ↦ inl (rw stop refl)
    | inr (t, run, same) ↦ elim (Bool-cases (describes n t)) [
      | inl fits ↦ inr (rw run (rw fits (ap some same)))
      | inr short ↦ inl (rw run (rw short refl))
    ]
  ]

  own_index :
      (es : List Event) (st : Store)
      → Chain p 1 none es
      → st.index ≡ some (map index_row es)
      → binding_matches (expected_head p es) st.index_binding ≡ true
      → st ≡ indexed es st
  own_index es st c rows own =
      let bound = binding_matches-binding (expected_head p es) st.index_binding own in
      let id = expected_head-event_id es in let count = expected_head-sequence es c in cc

  trusted_index-cases :
      (es : List Event) (st : Store)
      → Chain p 1 none es
      → Fits es st
      → (trusted_index (expected_head p es) st.index st.index_binding ≡ none)
        ⊎ ((trusted_index (expected_head p es) st.index st.index_binding
              ≡ some (index_events [] es))
            × (st ≡ indexed es st))
  trusted_index-cases es st c (inr foreign) =
      inl (trusted_index-foreign (expected_head p es) st.index st.index_binding foreign)
  trusted_index-cases es st c (inl rows) =
      elim (Bool-cases (binding_matches (expected_head p es) st.index_binding)) [
        | inr foreign ↦
            inl (trusted_index-foreign (expected_head p es) st.index st.index_binding foreign)
        | inl own ↦
            let opened =
              ap (λ i. trusted_index (expected_head p es) i st.index_binding) rows
              ∙ trusted_index-own (expected_head p es) (map index_row es) st.index_binding own in
            elim (trusted_scan-cases (expected_head p es).sequence es) [
              | inl stop ↦ inl (opened ∙ stop)
              | inr found ↦ inr (opened ∙ found, own_index es st c rows own)
            ]
      ]

  -- Whatever the files of the index hold, the call that reads them gives the index of the records,
  -- and leaves it in the files.
  pub read_idempotency_index_lem :
      (es : List Event) (st : Store)
      → Chain p 1 none es
      → record_files st.records ≡ ok (map record_file es)
      → Fits es st
      → read_idempotency_index st (expected_head p es) ≡ (ok (index_events [] es), indexed es st)
  unfolding read_idempotency_index
  read_idempotency_index_lem es st c files f = elim (trusted_index-cases es st c f) [
    | inl none_there ↦ ap (index_or_rebuild st) none_there ∙ rebuild_lem es st files
    | inr (found, same) ↦
        ap (index_or_rebuild st) found ∙ ap (λ t. (ok (index_events [] es), t)) same
  ]

  find_key-sequence :
      (k : String) (n : ℕ) (previous : Option String) (es : List Event) (e : Event)
      → Chain p n previous es
      → find_key k es ≡ some e
      → (n ≤ e.sequence) × (e.input.idempotency_key ≡ k)
  find_key-sequence k n previous [] e c h = cc
  find_key-sequence k n previous (d ∷ es) e c h =
      elim (Bool-cases (str_eq d.input.idempotency_key k)) [
        | inl here ↦
            let same : d ≡ e = ground (arith, here) in
            let placed = c.0.placed in
            let key : d.input.idempotency_key ≡ k =
              ground (arith, here, eq_iff d.input.idempotency_key k) in
            subst (λ e. (n ≤ e.sequence) × (e.input.idempotency_key ≡ k)) same
              (omega (arith, placed), key)
        | inr other ↦
            let there : find_key k es ≡ some e = ground (arith, other) in
            let (later, key) = find_key-sequence k (suc n) (some d.event_id) es e c.1 there in
            (omega (arith, later), key)
      ]

  find-file :
      (k : String) (n : ℕ) (previous : Option String) (es ds : List Event) (e : Event)
      → Chain p n previous es
      → find_key k es ≡ some e
      → find (λ f. f.sequence == e.sequence) (map record_file (es ++ ds)) ≡ some (record_file e)
  find-file k n previous [] ds e c h = cc
  find-file k n previous (d ∷ es) ds e c h = elim (Bool-cases (str_eq d.input.idempotency_key k)) [
    | inl here ↦
        let same : d ≡ e = ground (arith, here) in
        subst
          (λ e.
            find (λ f. f.sequence == e.sequence) (map record_file (d ∷ es ++ ds))
            ≡ some (record_file e))
          same (ground arith)
    | inr other ↦
        let there : find_key k es ≡ some e = ground (arith, other) in
        let later = (find_key-sequence k (suc n) (some d.event_id) es e c.1 there).0 in
        let placed = c.0.placed in
        let apart : (d.sequence == e.sequence) ≡ false = ground arith in
        rw apart (find-file k (suc n) (some d.event_id) es ds e c.1 there)
  ]

  -- The record that the index names is found, also while a batch is written.
  pub read_event_by_sequence_lem :
      (k : String) (es ds : List Event) (e : Event) (st : Store)
      → Chain p 1 none es
      → record_files st.records ≡ ok (map record_file (es ++ ds))
      → find_key k es ≡ some e
      → (read_event_by_sequence st e.sequence ≡ ok (some e)) × (e.input.idempotency_key ≡ k)
  unfolding read_event_by_sequence read_record
  read_event_by_sequence_lem k es ds e st c files h = (
    rw files (ap found_event (find-file k 1 none es ds e c h)),
    (find_key-sequence k 1 none es e c h).1,
  )
