-- ===== src/EventStore/Files.antt =====
-- The files of the event store of src/event-store.mjs, and `recordFiles`.
use agent_context_broker.Prelude.{
  ℕ, String, Bool, true, false, ◌&&◌, ◌||◌, Option, none, some, List, [], ◌∷◌, ltb, leb, ◌==◌,
  if◌then◌else◌, keep, str_eq,
}
use agent_context_broker.Prelude.Text.{units}
use agent_context_broker.Platform.{Platform}
use agent_context_broker.Json.{num, obj, end, entry, text_lt, stable_json}
use agent_context_broker.EventStore.Event.{Event, text_or_null}
use agent_context_broker.EventStore.Validate.{EventError, duplicate_sequence, unreadable}

pub data Result {ℓ} (A : Type ℓ) : Type ℓ where
  ok : A → Result A
  err : EventError → Result A

infixl 5 ◌>>=◌
abbrev pub ◌>>=◌ {ℓ κ} : {A : Type ℓ} {B : Type κ} → Result A → (A → Result B) → Result B
ok a >>= f = f a
err e >>= f = err e

infixl 5 ◌>>◌
abbrev pub ◌>>◌ {ℓ} : {B : Type ℓ} → Result (Unit {0}) → Result B → Result B
ok _ >> next = next
err e >> next = err e

-- What a record file holds; garbled if it is no JSON or not of the shape of an event.
pub data Content : Type 0 where
  garbled : Content
  stored : Event → Content

-- A file of `events/records` whose name is a number of at least twelve digits, a dash, a digest and
-- `.json`. Other names are skipped by `recordFiles`.
pub record RecordFile : Type 0 where
  pub sequence : ℕ
  pub event_id : String
  pub content : Content

-- `head.json`
pub record Head : Type 0 where
  pub sequence : ℕ
  pub event_id : Option String
  pub previous_event_hash : Option String
  pub recorded_at : Option String
  pub head_hash : String

pub data HeadFile : Type 0 where
  missing : HeadFile
  no_json : HeadFile
  no_head : HeadFile
  head : Head → HeadFile

-- A line of `idempotency.jsonl`; garbled if it is no JSON, or its fields are no text and number.
pub data Row : Type 0 where
  garbled : Row
  row : (key : String) → (sequence : ℕ) → Row

-- `idempotency.head.json`
pub data Binding : Type 0 where
  missing : Binding
  no_json : Binding
  binding : (head_event_id : Option String) → (count : ℕ) → Binding

-- The directory `events` of a runtime home, each directory in the order of its names.
pub record Store : Type 0 where
  pub records : List RecordFile
  pub head_file : HeadFile
  pub index : Option (List Row)
  pub index_binding : Binding
  pub quarantine : List RecordFile

-- `/^\d{12}-[a-f0-9]{64}\.json$/u`: a sequence that needs more than twelve digits is not read.
abbrev pub max_sequence : ℕ
max_sequence = 999999999999

abbrev pub is_listed : RecordFile → Bool
is_listed f = leb f.sequence max_sequence

-- Two files in a row with one sequence; the files are in the order of their sequences.
abbrev pub has_duplicates : List RecordFile → Bool
has_duplicates [] = false
has_duplicates (f ∷ []) = false
has_duplicates (f ∷ g ∷ fs) = f.sequence == g.sequence || has_duplicates (g ∷ fs)

unfoldable pub record_files : List RecordFile → Result (List RecordFile)
record_files fs =
    let paths = keep is_listed fs in
    if has_duplicates paths then err duplicate_sequence else ok paths

unfoldable pub read_record : Content → Result Event
read_record Content.garbled = err unreadable
read_record (stored e) = ok e

abbrev pub same_name : RecordFile → RecordFile → Bool
same_name f g = f.sequence == g.sequence && str_eq f.event_id g.event_id

abbrev precedes : RecordFile → RecordFile → Bool
precedes f g =
    ltb f.sequence g.sequence
    || f.sequence == g.sequence && text_lt (units f.event_id) (units g.event_id)

-- A file that is renamed into the directory replaces one of its name.
unfoldable pub put_file : RecordFile → List RecordFile → List RecordFile
put_file f [] = f ∷ []
put_file f (g ∷ gs) =
    let rest = put_file f gs in
    if same_name f g then f ∷ gs else if precedes g f then g ∷ rest else f ∷ g ∷ gs

abbrev pub record_file : Event → RecordFile
record_file e = record { sequence = e.sequence; event_id = e.event_id; content = stored e }

abbrev pub last {ℓ} : {A : Type ℓ} → List A → Option A
last [] = none
last (x ∷ []) = some x
last (x ∷ y ∷ xs) = last (y ∷ xs)

module _ (p : Platform) where
  -- `sha256(stableJson(headCore(events)))`
  unfoldable pub head_digest : ℕ → Option String → Option String → Option String → String
  head_digest sequence id previous at = p.sha256 (
      stable_json (
        obj (
          entry "schemaVersion" (num 1) (
            entry "sequence" (num sequence) (
              entry "eventId" (text_or_null id) (
                entry "previousEventHash" (text_or_null previous)
                  (entry "recordedAt" (text_or_null at) end)))))))

  abbrev head_with : ℕ → Option String → Option String → Option String → Head
  head_with sequence id previous at = record {
    sequence = sequence;
    event_id = id;
    previous_event_hash = previous;
    recorded_at = at;
    head_hash = head_digest sequence id previous at;
  }

  abbrev head_after : Option Event → Head
  head_after none = head_with 0 none none none
  head_after (some e) =
      head_with e.sequence (some e.event_id) e.previous_event_hash (some e.recorded_at)

  unfoldable pub expected_head : List Event → Head
  expected_head es = head_after (last es)

abbrev pub same_option : Option String → Option String → Bool
same_option none none = true
same_option (some a) (some b) = str_eq a b
same_option _ _ = false

-- `stableJson(actual) === stableJson(head)`: both have the fields of a head.
unfoldable pub same_head : Head → Head → Bool
same_head h k =
    h.sequence == k.sequence
    && same_option h.event_id k.event_id
    && same_option h.previous_event_hash k.previous_event_hash
    && same_option h.recorded_at k.recorded_at
    && str_eq h.head_hash k.head_hash

abbrev pub with_records : List RecordFile → Store → Store
with_records fs st = record {
  records = fs;
  head_file = st.head_file;
  index = st.index;
  index_binding = st.index_binding;
  quarantine = st.quarantine;
}

abbrev pub with_head : HeadFile → Store → Store
with_head h st = record {
  records = st.records;
  head_file = h;
  index = st.index;
  index_binding = st.index_binding;
  quarantine = st.quarantine;
}

abbrev pub with_index : Option (List Row) → Binding → Store → Store
with_index rows b st = record {
  records = st.records;
  head_file = st.head_file;
  index = rows;
  index_binding = b;
  quarantine = st.quarantine;
}

abbrev pub with_quarantine : List RecordFile → Store → Store
with_quarantine fs st = record {
  records = st.records;
  head_file = st.head_file;
  index = st.index;
  index_binding = st.index_binding;
  quarantine = fs;
}

-- `writeEventRecord`
unfoldable pub write_event_record : Event → Store → Store
write_event_record e st = with_records (put_file (record_file e) st.records) st
