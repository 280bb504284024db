-- ===== src/EventStore/HeadRepair.antt =====
-- `repairEventHead` of src/event-store.mjs: the records up to the first that repeats a key stay, and the
-- rest goes to the quarantine.
use agent_context_broker.Prelude.{
  ℕ, suc, String, Bool, true, false, not, Option, none, some, List, [], ◌∷◌, ◌++◌, if◌then◌else◌,
  length, drop, any, keep, contains,
}
use agent_context_broker.Platform.{Platform}
use agent_context_broker.EventStore.Event.{Event}
use agent_context_broker.EventStore.Validate.{duplicate_key, busy, not_executing}
use agent_context_broker.EventStore.Files.{
  Result, ok, err, ◌>>=◌, ◌>>◌, RecordFile, Head, HeadFile, missing, head, Store, record_files,
  same_name, expected_head, with_records, with_head, with_quarantine,
}
use agent_context_broker.EventStore.Verify.{require, read_link}
use agent_context_broker.EventStore.Index.{Entry, rebuild_idempotency_index}

-- `renameSync` of each into the quarantine.
abbrev pub move_out : List RecordFile → Store → Store
move_out files st =
    with_quarantine (st.quarantine ++ files)
      (with_records (keep (λ f. not (any (same_name f) files)) st.records) st)

pub record Repaired : Type 0 where
  pub tip : Head
  pub event_count : ℕ
  pub quarantined : List RecordFile

module _ (p : Platform) where
  abbrev extend_chain : Event → Bool → Result (List Event × Bool) → Result (List Event × Bool)
  extend_chain e true rest = ok ([], true)
  extend_chain e false rest = rest >>= λ r. ok (e ∷ r.0, r.1)

  -- The loop of `repairEventHead`: the events in front of the first that repeats a key, and whether
  -- there is such a one.
  unfoldable pub read_chain :
      List RecordFile → ℕ → Option String → List String → Result (List Event × Bool)
  read_chain [] expected previous keys = ok ([], false)
  read_chain (f ∷ fs) expected previous keys = do
    e ← read_link p f expected previous
    extend_chain e (contains e.input.idempotency_key keys)
        (read_chain fs (suc expected) (some e.event_id) (keys ++ e.input.idempotency_key ∷ []))

  -- `if (existing !== null) atomicWrite(headPath, existing)`
  abbrev restored : HeadFile → Store → Store
  restored missing st = st
  restored h st = with_head h st

  abbrev pub head_for : List Event → HeadFile
  head_for [] = missing
  head_for (e ∷ es) = head (expected_head p (e ∷ es))

  abbrev pub finished :
      HeadFile
      → List Event
      → List RecordFile
      → Result (List Entry) × Store
      → Result Repaired × Store
  finished existing es moved (err e, t) = (err e, restored existing t)
  finished existing es moved (ok _, t) =
      (ok (record { tip = expected_head p es; event_count = length es; quarantined = moved }), t)

  abbrev pub finish_repair :
      HeadFile → List Event → List RecordFile → Store → Result Repaired × Store
  finish_repair existing es moved st =
      finished existing es moved (rebuild_idempotency_index (with_head (head_for es) st))

  abbrev pub repair_found :
      Bool → List RecordFile → Store → Result (List Event × Bool) → Result Repaired × Store
  repair_found truncate paths st (err e) = (err e, st)
  repair_found truncate paths st (ok (es, false)) = finish_repair st.head_file es [] st
  repair_found truncate paths st (ok (es, true)) =
      let moved = drop (length es) paths in
      if truncate
      then finish_repair st.head_file es moved (move_out moved st)
      else (err duplicate_key, st)

  abbrev pub repair_files : Bool → Store → Result (List RecordFile) → Result Repaired × Store
  repair_files truncate st (err e) = (err e, st)
  repair_files truncate st (ok paths) = repair_found truncate paths st (read_chain paths 1 none [])

  abbrev pub repair_allowed : Bool → Store → Result (Unit {0}) → Result Repaired × Store
  repair_allowed truncate st (err e) = (err e, st)
  repair_allowed truncate st (ok _) = repair_files truncate st (record_files st.records)

  unfoldable pub repair_event_head :
      (execute locked truncate : Bool) → Store → Result Repaired × Store
  repair_event_head execute locked truncate st =
      repair_allowed truncate st (require execute not_executing >> require locked busy)
