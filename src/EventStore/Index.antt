-- ===== src/EventStore/Index.antt =====
-- The index of idempotency keys of src/event-store.mjs: a cache that is rebuilt from the records.
use agent_context_broker.Prelude.{
  ℕ, ◌+◌, String, Bool, false, ◌&&◌, Option, none, some, List, [], ◌∷◌, ◌++◌, map, ltb, leb, ◌==◌,
  if◌then◌else◌, length, any, find, str_eq,
}
use agent_context_broker.Prelude.Text.{is_hash}
use agent_context_broker.EventStore.Event.{Event}
use agent_context_broker.EventStore.Files.{
  Result, ok, err, ◌>>=◌, RecordFile, Head, Row, row, Binding, binding, Store, record_files,
  read_record, last, same_option, with_index,
}

-- A map from keys to sequences; no key stands in it twice.
pub record Entry : Type 0 where
  pub key : String
  pub sequence : ℕ

-- `index.set(key, sequence)`
abbrev pub set_entry : String → ℕ → List Entry → List Entry
set_entry k n [] = record { key = k; sequence = n } ∷ []
set_entry k n (e ∷ es) =
    let rest = set_entry k n es in
    if str_eq e.key k then record { key = k; sequence = n } ∷ es else e ∷ rest

-- `index.get(key)`
abbrev pub get_entry : String → List Entry → Option ℕ
get_entry k [] = none
get_entry k (e ∷ es) = if str_eq e.key k then some e.sequence else get_entry k es

unfoldable pub read_records : List RecordFile → Result (List Event)
read_records [] = ok []
read_records (f ∷ fs) = do e ← read_record f.content; es ← read_records fs; ok (e ∷ es)

abbrev pub index_row : Event → Row
index_row e = row e.input.idempotency_key e.sequence

abbrev pub index_events : List Entry → List Event → List Entry
index_events index [] = index
index_events index (e ∷ es) = index_events (set_entry e.input.idempotency_key e.sequence index) es

abbrev pub tip_id : Option Event → Option String
tip_id none = none
tip_id (some e) = some e.event_id

-- `writeIndexBinding` behind the index file of `rebuildIdempotencyIndex`.
abbrev pub indexed : List Event → Store → Store
indexed es st = with_index (some (map index_row es)) (binding (tip_id (last es)) (length es)) st

abbrev pub rebuilt : Store → Result (List Event) → Result (List Entry) × Store
rebuilt st (err e) = (err e, st)
rebuilt st (ok es) = (ok (index_events [] es), indexed es st)

unfoldable pub rebuild_idempotency_index : Store → Result (List Entry) × Store
rebuild_idempotency_index st = rebuilt st (record_files st.records >>= read_records)

-- The binding names the tip of the chain and its length.
abbrev pub binding_matches : Head → Binding → Bool
binding_matches h (binding id count) = same_option id h.event_id && count == h.sequence
binding_matches h _ = false

-- The variables of the loop over the lines of the index.
pub record Scan : Type 0 where
  pub index : List Entry
  pub sequences : List ℕ
  pub highest : ℕ
  pub entries : ℕ

abbrev pub no_rows : Scan
no_rows = record { index = []; sequences = []; highest = 0; entries = 0 }

-- `sequences.add(sequence)`
abbrev add_sequence : ℕ → List ℕ → List ℕ
add_sequence n ns = if any (λ m. m == n) ns then ns else n ∷ ns

abbrev pub see_row : String → ℕ → Scan → Scan
see_row k n s = record {
  index = set_entry k n s.index;
  sequences = add_sequence n s.sequences;
  highest = if ltb s.highest n then n else s.highest;
  entries = s.entries + 1;
}

-- `Number.isSafeInteger`
abbrev pub is_safe : ℕ → Bool
is_safe n = leb n 9007199254740991

-- The loop; `none` where it rebuilds the index.
unfoldable pub scan_rows : Scan → List Row → Option Scan
scan_rows s [] = some s
scan_rows s (Row.garbled ∷ rows) = none
scan_rows s (row k n ∷ rows) =
    let rest = scan_rows (see_row k n s) rows in
    if is_hash k && is_safe n && leb 1 n then rest else none

-- Exactly the sequences up to the tip, and as many keys.
abbrev pub describes : ℕ → Scan → Bool
describes n s = s.highest == n && s.entries == n && length s.index == n && length s.sequences == n

abbrev pub trusted_scan : ℕ → Option Scan → Option (List Entry)
trusted_scan n none = none
trusted_scan n (some s) = if describes n s then some s.index else none

-- The index that the files hold, if they hold one that is to be trusted.
unfoldable pub trusted_index : Head → Option (List Row) → Binding → Option (List Entry)
trusted_index h none b = none
trusted_index h (some rows) b =
    if binding_matches h b then trusted_scan h.sequence (scan_rows no_rows rows) else none

abbrev pub index_or_rebuild : Store → Option (List Entry) → Result (List Entry) × Store
index_or_rebuild st none = rebuild_idempotency_index st
index_or_rebuild st (some index) = (ok index, st)

unfoldable pub read_idempotency_index : Store → Head → Result (List Entry) × Store
read_idempotency_index st h = index_or_rebuild st (trusted_index h st.index st.index_binding)

abbrev pub lines_of : Option (List Row) → List Row
lines_of none = []
lines_of (some rows) = rows

unfoldable pub append_idempotency_entries : List Event → Option String → ℕ → Store → Store
append_idempotency_entries [] id total st = st
append_idempotency_entries (e ∷ es) id total st =
    with_index (some (lines_of st.index ++ map index_row (e ∷ es))) (binding id total) st

abbrev pub found_event : Option RecordFile → Result (Option Event)
found_event none = ok none
found_event (some f) = read_record f.content >>= λ e. ok (some e)

unfoldable pub read_event_by_sequence : Store → ℕ → Result (Option Event)
read_event_by_sequence st n = do
  paths ← record_files st.records
  found_event (find (λ f. f.sequence == n) paths)
