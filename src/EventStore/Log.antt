-- ===== src/EventStore/Log.antt =====
-- The contract of `appendBrokerEvents` of src/event-store.mjs: a list of events that grows at its end,
-- where an input whose key is there already gives the event that is there.
use mathlib.Core.List.{append_assoc, append-nil}
use agent_context_broker.Prelude.{
  suc, ◌+◌, ◌≤◌, ◌≡◌, refl, sym, ap, subst, ◌∙◌, String, true, false, Option, none, some, List, [],
  ◌∷◌, ◌++◌, map, arith, eq_iff, Option-cases, inl, inr, contains, length, str_eq, length-append,
}
use agent_context_broker.Platform.{Platform}
use agent_context_broker.EventStore.Event.{Event, EventInput, build_event}
use agent_context_broker.EventStore.Validate.{validate_event_input}
use agent_context_broker.EventStore.Files.{
  ok, record_file, record_files, Store, with_records, put_file, write_event_record, max_sequence,
}
use agent_context_broker.EventStore.Index.{get_entry, index_events}
use agent_context_broker.EventStore.Append.{
  Appended, replayed, added, Progress, done, push_replay, push_event, append_input, take_input,
  take_inputs, place_input, repeats,
}
use agent_context_broker.EventStore.Build.{IsLink, build_event-IsLink, build_event_key}
use agent_context_broker.EventStore.Chain.{Chain, Unrepeated}
use agent_context_broker.EventStore.Listing.{
  tip, tip-append, Chain-append, record_files_of_Chain, put_file-snoc,
}
use agent_context_broker.EventStore.Lookup.{
  find_key, sequence_or, get_entry-index_events, contains-snoc, read_event_by_sequence_lem,
}

abbrev pub AllValid : List EventInput → Type 0
AllValid [] = Unit
AllValid (i ∷ is) = (validate_event_input i ≡ none) × AllValid is

module _ (p : Platform) where
  -- One input, as a function of the events and not of files.
  abbrev pub log_found : String → EventInput → List Event → Option Event → Appended × List Event
  log_found at i es (some e) = (replayed e, es)
  log_found at i es none =
      let e = build_event p i (suc (length es)) (tip none es) at in (added e, es ++ e ∷ [])

  unfoldable pub log_one : String → EventInput → List Event → Appended × List Event
  log_one at i es = log_found at i es (find_key i.idempotency_key es)

  abbrev pub log_all : String → List EventInput → List Event → List Appended × List Event
  log_all at [] es = ([], es)
  log_all at (i ∷ is) es =
      let (r, ds) = log_one at i es in let (rs, fs) = log_all at is ds in (r ∷ rs, fs)

  -- The loop over the inputs of a batch: `old` was there before, `base` are the files behind the
  -- reading of the index.
  pub record IsGoing (old : List Event) (base : Store) (s : Progress) : Type 0 where
    pub files : s.store ≡ with_records (map record_file (old ++ s.appended)) base
    pub chain : Chain p 1 none (old ++ s.appended)
    pub counted : s.sequence ≡ length (old ++ s.appended)
    pub linked : s.previous ≡ tip none (old ++ s.appended)

  -- A key that `k` is not is in `es` only if it is in `ds`.
  abbrev Adds : String → List Event → List Event → Type 0
  Adds k ds es = (j : String) → str_eq k j ≡ false → find_key j ds ≡ none → find_key j es ≡ none

  -- None of the inputs has a key of an event that the batch has added.
  abbrev pub Apart : List EventInput → List Event → Type 0
  Apart [] ds = Unit
  Apart (i ∷ is) ds = (find_key i.idempotency_key ds ≡ none) × Apart is ds

  find_key-append :
      (k : String) (es ds : List Event)
      → find_key k ds ≡ none
      → find_key k (es ++ ds) ≡ find_key k es
  find_key-append k [] ds h = h
  find_key-append k (e ∷ es) ds h = ground (arith, find_key-append k es ds h)

  find_key-snoc :
      (k : String) (e : Event) (ds : List Event)
      → find_key k ds ≡ none
      → str_eq e.input.idempotency_key k ≡ false
      → find_key k (ds ++ e ∷ []) ≡ none
  find_key-snoc k e [] h other = rw other refl
  find_key-snoc k e (d ∷ ds) h other = ground (arith, find_key-snoc k e ds)

  push_event-IsGoing :
      (old : List Event) (base : Store) (s : Progress) (e : Event)
      → IsGoing old base s
      → IsLink p (suc (length (old ++ s.appended))) (tip none (old ++ s.appended)) e
      → IsGoing old base (push_event e s)
  unfolding write_event_record
  push_event-IsGoing old base s e g l =
      let all : (old ++ s.appended) ++ e ∷ [] ≡ old ++ (s.appended ++ e ∷ []) =
        append_assoc old s.appended (e ∷ []) in
      let size = length-append (old ++ s.appended) (e ∷ []) in
      let counted = g.counted in
      let placed = l.placed in
      let more : suc s.sequence ≡ length ((old ++ s.appended) ++ e ∷ []) =
        omega (arith, size, counted) in
      let room : 1 + length (old ++ s.appended) ≤ e.sequence = omega (arith, placed) in
      let put = put_file-snoc p 1 none (old ++ s.appended) e g.chain room in
      let written : put_file (record_file e) s.store.records
          ≡ map record_file (old ++ (s.appended ++ e ∷ [])) =
        rw g.files (put ∙ ap (map record_file) all) in
      let link : Chain p (1 + length (old ++ s.appended)) (tip none (old ++ s.appended)) (e ∷ []) =
        (subst (λ n. IsLink p n (tip none (old ++ s.appended)) e) (omega arith) l, tt) in
      record {
        files = rw g.files (rw (put ∙ ap (map record_file) all) refl);
        chain =
            subst (Chain p 1 none) all
              (Chain-append p 1 none (old ++ s.appended) (e ∷ []) g.chain link);
        counted = more ∙ ap length all;
        linked = sym (ap (tip none) (sym all) ∙ tip-append none (old ++ s.appended) (e ∷ []));
      }

  append_input_lem :
      (old : List Event) (base : Store) (s : Progress) (at : String) (i : EventInput)
      → IsGoing old base s
      → append_input p at i s
        ≡ push_event
            (build_event p i (suc (length (old ++ s.appended))) (tip none (old ++ s.appended)) at)
            s
  unfolding append_input
  append_input_lem old base s at i g = rw (g.counted, g.linked) refl

  -- One round of the loop does what the list does.
  take_input_lem :
      (old : List Event) (base : Store) (s : Progress) (at : String) (i : EventInput)
      → Chain p 1 none old
      → Unrepeated [] old
      → length (old ++ s.appended) ≤ max_sequence
      → validate_event_input i ≡ none
      → find_key i.idempotency_key s.appended ≡ none
      → IsGoing old base s
      → (t : Progress) × (take_input p at (index_events [] old) i s ≡ done t)
        × (t.results ≡ s.results ++ (log_one at i (old ++ s.appended)).0 ∷ [])
        × (old ++ t.appended ≡ (log_one at i (old ++ s.appended)).1)
        × IsGoing old base t
        × Adds i.idempotency_key s.appended t.appended
  unfolding take_input log_one
  take_input_lem old base s at i c u bound v apart g =
      let key = i.idempotency_key in
      let asked = get_entry-index_events key [] old [] u in
      let whole = find_key-append key old s.appended apart in
      elim (Option-cases (find_key key old)) [
        | inl new ↦
            let fresh : get_entry key (index_events [] old) ≡ none =
              asked ∙ ap (sequence_or none) new in
            let e =
              build_event p i (suc (length (old ++ s.appended))) (tip none (old ++ s.appended))
                at in
            (
              push_event e s,
              ap (place_input p at i s) fresh ∙ ap done (append_input_lem old base s at i g),
              ap (λ o. s.results ++ (log_found at i (old ++ s.appended) o).0 ∷ [])
                  (sym (whole ∙ new)),
              sym (append_assoc old s.appended (e ∷ []))
                  ∙ ap (λ o. (log_found at i (old ++ s.appended) o).1) (sym (whole ∙ new)),
              push_event-IsGoing old base s e g (
                  build_event-IsLink p i (suc (length (old ++ s.appended)))
                    (tip none (old ++ s.appended)) at v),
              λ j other absent. find_key-snoc j e s.appended absent (
                  rw
                    (build_event_key p i (suc (length (old ++ s.appended)))
                      (tip none (old ++ s.appended)) at)
                    other),
            )
        | inr (e, there) ↦
            let named : get_entry key (index_events [] old) ≡ some e.sequence =
              asked ∙ ap (sequence_or none) there in
            let files : record_files s.store.records ≡ ok (map record_file (old ++ s.appended)) =
              rw g.files (record_files_of_Chain p (old ++ s.appended) g.chain bound) in
            let (read, carried) =
              read_event_by_sequence_lem p key old s.appended e s.store c files there in
            let same : str_eq e.input.idempotency_key key ≡ true =
              ground (arith, eq_iff e.input.idempotency_key key, carried) in
            (
              push_replay e s,
              ap (place_input p at i s) named ∙ rw read (rw same refl),
              ap (λ o. s.results ++ (log_found at i (old ++ s.appended) o).0 ∷ [])
                  (sym (whole ∙ there)),
              ap (λ o. (log_found at i (old ++ s.appended) o).1) (sym (whole ∙ there)),
              record { files = g.files; chain = g.chain; counted = g.counted; linked = g.linked },
              λ j other absent. absent,
            )
      ]

  -- An input that a batch has taken leaves the others apart from what it has added.
  Apart-Adds :
      (k : String) (seen : List String) (is : List EventInput) (ds es : List Event)
      → contains k seen ≡ true
      → repeats seen is ≡ false
      → Adds k ds es
      → Apart is ds
      → Apart is es
  Apart-Adds k seen [] ds es c r add a = tt
  Apart-Adds k seen (i ∷ is) ds es c r add a =
      let unseen : contains i.idempotency_key seen ≡ false = ground arith in
      let rest : repeats (i.idempotency_key ∷ seen) is ≡ false = ground arith in
      let other : str_eq k i.idempotency_key ≡ false =
        ground (arith, eq_iff k i.idempotency_key, c, unseen) in
      (
        add i.idempotency_key other a.0,
        Apart-Adds k (i.idempotency_key ∷ seen) is ds es (ground (arith, c)) rest add a.1,
      )

  log_found-length :
      (at : String) (i : EventInput) (es : List Event) (o : Option Event)
      → length (log_found at i es o).1 ≤ suc (length es)
  log_found-length at i es (some e) = omega arith
  log_found-length at i es none =
      let e = build_event p i (suc (length es)) (tip none es) at in
      omega (arith, length-append es (e ∷ []))

  pub log_all-length :
      (at : String) (is : List EventInput) (es : List Event)
      → length (log_all at is es).1 ≤ length es + length is
  unfolding log_one
  log_all-length at [] es = omega arith
  log_all-length at (i ∷ is) es =
      let one = log_found-length at i es (find_key i.idempotency_key es) in
      let rest = log_all-length at is (log_found at i es (find_key i.idempotency_key es)).1 in
      omega (arith, one, rest)

  Unrepeated-snoc :
      (keys : List String) (es : List Event) (e : Event)
      → Unrepeated keys es
      → contains e.input.idempotency_key keys ≡ false
      → find_key e.input.idempotency_key es ≡ none
      → Unrepeated keys (es ++ e ∷ [])
  Unrepeated-snoc keys [] e u fresh absent = (fresh, tt)
  Unrepeated-snoc keys (d ∷ es) e u fresh absent =
      let other : str_eq d.input.idempotency_key e.input.idempotency_key ≡ false = ground arith in
      (
        u.0,
        Unrepeated-snoc (keys ++ d.input.idempotency_key ∷ []) es e u.1
            (contains-snoc e.input.idempotency_key d.input.idempotency_key keys
              ∙ ground (arith, fresh, other))
            (ground (arith, other)),
      )

  pub log_one-Unrepeated :
      (at : String) (i : EventInput) (es : List Event)
      → Unrepeated [] es
      → Unrepeated [] (log_one at i es).1
  unfolding log_one
  log_one-Unrepeated at i es u = elim (Option-cases (find_key i.idempotency_key es)) [
    | inl new ↦
        let e = build_event p i (suc (length es)) (tip none es) at in
        let key = build_event_key p i (suc (length es)) (tip none es) at in
        subst (λ o. Unrepeated [] (log_found at i es o).1) (sym new)
          (Unrepeated-snoc [] es e u refl (ap (λ k. find_key k es) key ∙ new))
    | inr (e, there) ↦ subst (λ o. Unrepeated [] (log_found at i es o).1) (sym there) u
  ]

  pub log_all-Unrepeated :
      (at : String) (is : List EventInput) (es : List Event)
      → Unrepeated [] es
      → Unrepeated [] (log_all at is es).1
  log_all-Unrepeated at [] es u = u
  log_all-Unrepeated at (i ∷ is) es u =
      log_all-Unrepeated at is (log_one at i es).1 (log_one-Unrepeated at i es u)

  -- The loop does what the list does.
  pub take_inputs_lem :
      (old : List Event) (base : Store) (at : String) (seen : List String) (is : List EventInput)
      (s : Progress)
      → Chain p 1 none old
      → Unrepeated [] old
      → length (old ++ s.appended) + length is ≤ max_sequence
      → AllValid is
      → repeats seen is ≡ false
      → Apart is s.appended
      → IsGoing old base s
      → (t : Progress) × (take_inputs p at (index_events [] old) is s ≡ done t)
        × (t.results ≡ s.results ++ (log_all at is (old ++ s.appended)).0)
        × (old ++ t.appended ≡ (log_all at is (old ++ s.appended)).1)
        × IsGoing old base t
  unfolding take_inputs
  take_inputs_lem old base at seen [] s c u bound v r a g =
      (s, refl, sym (append-nil s.results), refl, g)
  take_inputs_lem old base at seen (i ∷ is) s c u bound v r a g =
      let (t, run, results, all, going, adds) =
        take_input_lem old base s at i c u (omega (arith, bound)) v.0 a.0 g in
      let apart =
        Apart-Adds i.idempotency_key (i.idempotency_key ∷ seen) is s.appended t.appended
          (ground (arith, eq_iff i.idempotency_key i.idempotency_key)) (ground arith) adds a.1 in
      let size : length (old ++ t.appended) ≤ suc (length (old ++ s.appended)) = rw all (
        unfold log_one in
        log_found-length at i (old ++ s.appended)
          (find_key i.idempotency_key (old ++ s.appended))) in
      let (t2, run2, results2, all2, going2) =
        take_inputs_lem old base at (i.idempotency_key ∷ seen) is t c u (omega (arith, size, bound))
          v.1 (ground arith) apart going in
      (
        t2,
        rw run run2,
        rw all at (rw results at results2) ∙ append_assoc s.results _ _,
        rw all at all2,
        going2,
      )
