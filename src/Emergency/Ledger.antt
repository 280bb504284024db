-- ===== src/Emergency/Ledger.antt =====
-- The ledger on disk: `verifyEmergency` and `appendUnlocked` of src/emergency.mts. A file is the
-- list of its lines as `JSON.parse` reads them; empty lines are skipped by the source.
pub mod Append
pub mod Scan
use agent_context_broker.Prelude.{
  ℕ, zero, suc, ◌+◌, ◌-◌, String, Bool, true, false, not, ◌&&◌, ◌||◌, Option, none, some, List, [],
  ◌∷◌, ◌++◌, ◌==◌, if◌then◌else◌, length, contains, str_eq,
}
use agent_context_broker.Platform.{Platform}
use agent_context_broker.Json.{Json, obj, Fields, end, text, entry, stable_json}
use agent_context_broker.Emergency.Record.{
  Opened, RecordData, opened, closed, used, grant_id, record_schema, record_fields,
}
use agent_context_broker.Emergency.Open.{opened_valid}

pub record LedgerRecord : Type 0 where
  pub content : RecordData
  pub prev_hash : String
  pub hash : String

-- A line that is no JSON, or that is no object of the record's shape, is garbled.
pub data Line : Type 0 where
  garbled : Line
  line : LedgerRecord → Line

-- `grants.jsonl`; `partial` if the text is not empty and does not end with a line feed.
pub record LedgerFile : Type 0 where
  pub lines : List Line
  pub partial : Bool

-- `head.json`
pub data HeadFile : Type 0 where
  missing : HeadFile
  unreadable : HeadFile
  head : (hash : String) → (records : ℕ) → HeadFile

-- The directory `emergency` of a runtime home.
pub record Store : Type 0 where
  pub ledger : Option LedgerFile
  pub head_file : HeadFile

pub data Warning : Type 0 where
  head_behind ledger_invalid append_failed : Warning

pub record Verified : Type 0 where
  pub valid : Bool
  pub records : List LedgerRecord
  pub warnings : List Warning

abbrev pub zero_hash : String
zero_hash = "0000000000000000000000000000000000000000000000000000000000000000"

abbrev pub invalid : Verified
invalid = record { valid = false; records = []; warnings = ledger_invalid ∷ [] }

abbrev pub accepted : List LedgerRecord → List Warning → Verified
accepted rs ws = record { valid = true; records = rs; warnings = ws }

module _ (p : Platform) where
  -- `digest(stableJson(core))`
  unfoldable pub core_hash : RecordData → String → String
  core_hash d previous =
      p.sha256 (stable_json (obj (record_fields d (entry "prevHash" (text previous) end))))

-- The variables of the loop over the lines. Of the map `grants` only the keys are read.
pub record Seen : Type 0 where
  pub previous : String
  pub grants : List String
  pub records : List LedgerRecord

abbrev pub start : Seen
start = record { previous = zero_hash; grants = []; records = [] }

abbrev pub known_or_absent : List String → Option String → Bool
known_or_absent grants none = true
known_or_absent grants (some id) = contains id grants

-- The checks on the kind of a record; false where the loop throws.
unfoldable pub admits : List String → RecordData → Bool
admits grants (opened r) =
    opened_valid r && not (contains r.grant_id grants) && known_or_absent grants r.supersedes
admits grants (closed r) = contains r.grant_id grants
admits grants (used r) = contains r.grant_id grants

abbrev pub add_grant : List String → RecordData → List String
add_grant grants (opened r) = grants ++ r.grant_id ∷ []
add_grant grants _ = grants

abbrev pub see : Seen → LedgerRecord → Seen
see s r = record {
  previous = r.hash;
  grants = add_grant s.grants r.content;
  records = s.records ++ r ∷ [];
}

-- `records[behind - 1].hash` with `behind = records.length - 1`.
abbrev pub hash_before_last : List LedgerRecord → Option String
hash_before_last [] = none
hash_before_last (r ∷ []) = none
hash_before_last (r ∷ s ∷ []) = some r.hash
hash_before_last (r ∷ s ∷ t ∷ rs) = hash_before_last (s ∷ t ∷ rs)

abbrev head_is : HeadFile → String → ℕ → Bool
head_is (head h n) hash records = str_eq h hash && n == records
head_is _ hash records = false

-- A head that is exactly one record behind: none for one record, else the record before the last.
abbrev head_lags : HeadFile → List LedgerRecord → Bool
head_lags missing (r ∷ []) = true
head_lags (head h n) rs = elim (hash_before_last rs) [
  | none ↦ false
  | some hash ↦ str_eq h hash && suc n == length rs
]
head_lags _ _ = false

-- What `verifyEmergency` makes of the head, once the records are read.
unfoldable pub check_head : HeadFile → String → List LedgerRecord → Verified
check_head unreadable previous rs = invalid
check_head h previous rs =
    if head_is h previous (length rs)
    then accepted rs []
    else if head_lags h rs
    then accepted rs (head_behind ∷ [])
    else invalid

abbrev pub finish : HeadFile → Option Seen → Verified
finish h none = invalid
finish h (some s) = check_head h s.previous s.records

module _ (p : Platform) where
  -- One round of the loop.
  unfoldable pub scan_line : Seen → Line → Option Seen
  scan_line s garbled = none
  scan_line s (line r) =
      if record_schema r.content
        && str_eq r.prev_hash s.previous
        && str_eq r.hash (core_hash p r.content r.prev_hash)
        && admits s.grants r.content
      then some (see s r)
      else none

  unfoldable pub scan : Seen → List Line → Option Seen
  scan s [] = some s
  scan s (l ∷ ls) = elim (scan_line s l) [ none ↦ none | some s' ↦ scan s' ls ]

  unfoldable pub verify_file : LedgerFile → HeadFile → Verified
  verify_file file h = if file.partial then invalid else finish h (scan start file.lines)

  unfoldable pub verify_files : Option LedgerFile → HeadFile → Verified
  unfolding verify_file
  verify_files none missing = accepted [] []
  verify_files none h = invalid
  verify_files (some file) h = verify_file file h

  -- `verifyEmergency` for a home that is not null.
  unfoldable pub verify_store : Store → Verified
  unfolding verify_files
  verify_store st = verify_files st.ledger st.head_file

  -- `verifyEmergency`
  unfoldable pub verify_emergency : Option Store → Verified
  verify_emergency none = accepted [] []
  verify_emergency (some st) = verify_store st

-- The hash of the newest record, `ledger.records.at(-1)?.hash ?? zero`.
abbrev pub last_hash : List LedgerRecord → String
last_hash [] = zero_hash
last_hash (r ∷ []) = r.hash
last_hash (r ∷ s ∷ rs) = last_hash (s ∷ rs)

abbrev pub lines_of : Option LedgerFile → List Line
lines_of none = []
lines_of (some file) = file.lines

-- The store once a line is in the file, and once the head is renamed into place.
abbrev pub written : Store → LedgerRecord → Store
written st r = record {
  ledger = some (record { lines = lines_of st.ledger ++ line r ∷ []; partial = false });
  head_file = st.head_file;
}

abbrev pub published : Store → LedgerRecord → ℕ → Store
published st r n = record { ledger = (written st r).ledger; head_file = head r.hash n }

-- How a command fails.
pub data Failure : Type 0 where
  bad_record invalid_ledger invalid_grant not_extended invalid_close inactive_grant busy : Failure

pub data Result (A : Type 0) : Type 0 where
  ok : A → Result A
  err : Failure → Result A

module _ (p : Platform) where
  abbrev pub entry_for : List LedgerRecord → RecordData → LedgerRecord
  entry_for rs d = record {
    content = d;
    prev_hash = last_hash rs;
    hash = core_hash p d (last_hash rs);
  }

  -- `appendUnlocked`: what it returns, and the store that it leaves.
  unfoldable pub append_unlocked : RecordData → Store → Result LedgerRecord × Store
  append_unlocked d st =
      if not (record_schema d)
      then (err bad_record, st)
      else let ledger = verify_store p st in
        if not ledger.valid
        then (err invalid_ledger, st)
        else let r = entry_for ledger.records d in
          (ok r, published st r (length ledger.records + 1))
