-- ===== src/EventStore/Verify.antt =====
-- `validateStoredEvent`, `verifyEventRecords`, `verifyEventStore`, `verifyEventTail` and
-- `verifyEventTip` of src/event-store.mjs.
use agent_context_broker.Prelude.{
  ℕ, zero, suc, ◌-◌, String, Bool, true, false, not, ◌&&◌, Option, none, some, List, [], ◌∷◌, ◌++◌,
  ltb, leb, ◌==◌, if◌then◌else◌, length, take, drop, contains, str_eq,
}
use agent_context_broker.Platform.{Platform}
use agent_context_broker.EventStore.Event.{Event, payload_digest, event_digest}
use agent_context_broker.EventStore.Validate.{
  EventError, validate_event_input, chain_failed, duplicate_key, head_missing, head_failed,
  store_changed, unreadable,
}
use agent_context_broker.EventStore.Files.{
  Result, ok, err, ◌>>=◌, ◌>>◌, RecordFile, Head, HeadFile, missing, no_json, no_head, head, Store,
  record_files, read_record, last, expected_head, same_option, same_head,
}

pub record Verified : Type 0 where
  pub events : List Event
  pub tip : Head

pub record Tail : Type 0 where
  pub events : List Event
  pub tip : Head
  pub truncated : Bool

abbrev pub require : Bool → EventError → Result (Unit {0})
require true e = ok tt
require false e = err e

abbrev pub check_input : Option EventError → Result (Unit {0})
check_input none = ok tt
check_input (some e) = err e

-- The files that a reader sees: the head before and after it reads the records, and whether the
-- lock file is there.
pub record Reading : Type 0 where
  pub before : HeadFile
  pub records : List RecordFile
  pub later : HeadFile
  pub locked : Bool

-- `before !== after`, on the text of the file.
abbrev pub same_file : HeadFile → HeadFile → Bool
same_file missing missing = true
same_file no_json no_json = true
same_file no_head no_head = true
same_file (head h) (head k) = same_head h k
same_file _ _ = false

-- `JSON.parse(after)`
abbrev pub parse_head : HeadFile → Result HeadFile
parse_head no_json = err unreadable
parse_head h = ok h

abbrev pub head_error : HeadFile → EventError
head_error missing = head_missing
head_error _ = head_failed

abbrev pub agrees : HeadFile → Head → Bool
agrees (head h) k = same_head h k
agrees _ k = false

-- `count`, with what it is without a good option.
unfoldable pub tail_count : Option ℕ → ℕ
tail_count none = 512
tail_count (some n) = if leb 1 n && leb n 9007199254740991 then n else 512

-- What the files say when nobody writes.
abbrev pub still : Store → Bool → Reading
still st locked = record {
  before = st.head_file;
  records = st.records;
  later = st.head_file;
  locked = locked;
}

-- `if (before !== after) continue`, and the head behind it.
abbrev pub settle {ℓ} : {A : Type ℓ} → Reading → (HeadFile → Result (Option A)) → Result (Option A)
settle r next = if same_file r.before r.later then parse_head r.later >>= next else ok none

-- `return` of a round, or `continue`.
abbrev pub settled {ℓ} : {A : Type ℓ} → Option A → Result A → Result A
settled none rest = rest
settled (some a) rest = ok a

module _ (p : Platform) where
  -- The tests behind the call of `validateEventInput`, on one file.
  unfoldable pub links : Event → RecordFile → ℕ → Option String → Bool
  links e f expected previous =
      e.schema_version == 1
      && e.sequence == expected
      && f.sequence == expected
      && str_eq f.event_id e.event_id
      && same_option e.previous_event_hash previous
      && str_eq e.payload_hash (payload_digest p e.input.payload)
      && str_eq e.event_id (event_digest p e)

  unfoldable pub validate_stored_event : Event → RecordFile → ℕ → Option String → Result (Unit {0})
  validate_stored_event e f expected previous = do
    check_input (validate_event_input e.input)
    require (links e f expected previous) chain_failed

  -- `JSON.parse` of the file and `validateStoredEvent`.
  unfoldable pub read_link : RecordFile → ℕ → Option String → Result Event
  read_link f expected previous = do
    e ← read_record f.content
    validate_stored_event e f expected previous
    ok e

  -- The loop of `verifyEventRecords`.
  unfoldable pub verify_records :
      List RecordFile → ℕ → Option String → List String → Result (List Event)
  verify_records [] expected previous keys = ok []
  verify_records (f ∷ fs) expected previous keys = do
    e ← read_link f expected previous
    require (not (contains e.input.idempotency_key keys)) duplicate_key
    es ← verify_records fs (suc expected) (some e.event_id) (keys ++ e.input.idempotency_key ∷ [])
    ok (e ∷ es)

  unfoldable pub verify_event_records : List RecordFile → Result Verified
  verify_event_records fs = do
    paths ← record_files fs
    es ← verify_records paths 1 none []
    ok (record { events = es; tip = expected_head p es })

  -- One round of `verifyEventStore`; `none` to go on with the next.
  abbrev pub agrees_or_new : HeadFile → Verified → Bool
  agrees_or_new missing v = length v.events == 0
  agrees_or_new h v = agrees h v.tip

  abbrev pub judge_store : HeadFile → Bool → Verified → Result (Option Verified)
  judge_store h locked v =
      if agrees_or_new h v then ok (some v) else if locked then ok none else err (head_error h)

  unfoldable pub attempt_store : Reading → Result (Option Verified)
  attempt_store r = do v ← verify_event_records r.records; settle r (λ h. judge_store h r.locked v)

  unfoldable pub verify_event_store : ℕ → (ℕ → Reading) → Result Verified
  verify_event_store zero readings = err store_changed
  verify_event_store (suc n) readings = do
    found ← attempt_store (readings n)
    settled found (verify_event_store n readings)

  -- `verifyEventStore` while nobody writes: three attempts on the same files.
  unfoldable pub verify_store : Store → Result Verified
  verify_store st = verify_event_store 3 (λ _. still st false)

  -- The loop of `verifyEventTail`.
  unfoldable pub verify_links : List RecordFile → ℕ → Option String → Result (List Event)
  verify_links [] expected previous = ok []
  verify_links (f ∷ fs) expected previous = do
    e ← read_link f expected previous
    es ← verify_links fs (suc expected) (some e.event_id)
    ok (e ∷ es)

  -- The id of the record in front of the tail.
  abbrev pub id_of : Option RecordFile → Result (Option String)
  id_of none = ok none
  id_of (some f) = read_record f.content >>= λ e. ok (some e.event_id)

  unfoldable pub anchor : List RecordFile → Result (Option String)
  anchor fs = id_of (last fs)

  abbrev pub judge_tail : HeadFile → Bool → Bool → List Event → Result (Option Tail)
  judge_tail (head h) locked truncated es =
      if same_head h (expected_head p es)
      then ok (some (record { events = es; tip = h; truncated = truncated }))
      else if locked
      then ok none
      else err head_failed
  judge_tail h locked truncated es = if locked then ok none else err (head_error h)

  -- An empty store; the head is not parsed.
  abbrev pub judge_empty : HeadFile → Result (Option Tail)
  judge_empty missing =
      ok (some (record { events = []; tip = expected_head p []; truncated = false }))
  judge_empty _ = err head_failed

  -- The records from `start` on.
  unfoldable pub read_from : ℕ → Reading → List RecordFile → Result (Option Tail)
  read_from start r fs = do
    before ← anchor (take start fs)
    es ← verify_links (drop start fs) (suc start) before
    settle r (λ h. judge_tail h r.locked (ltb 0 start) es)

  abbrev pub read_tail : ℕ → Reading → List RecordFile → Result (Option Tail)
  read_tail count r [] = if same_file r.before r.later then judge_empty r.later else ok none
  read_tail count r (f ∷ fs) = read_from (length (f ∷ fs) - count) r (f ∷ fs)

  unfoldable pub attempt_tail : ℕ → Reading → Result (Option Tail)
  attempt_tail count r = do paths ← record_files r.records; read_tail count r paths

  -- Three attempts, for as many of the newest records as are wanted.
  unfoldable pub verify_event_tail : ℕ → ℕ → (ℕ → Reading) → Result Tail
  verify_event_tail count zero readings = err store_changed
  verify_event_tail count (suc n) readings = do
    found ← attempt_tail count (readings n)
    settled found (verify_event_tail count n readings)

  -- `verifyEventTip`, under the lock: the head of the newest record. The lock file is there.
  unfoldable pub verify_event_tip : Store → Result Head
  verify_event_tip st = do t ← verify_event_tail 1 3 (λ _. still st true); ok t.tip
