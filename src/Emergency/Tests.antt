-- ===== src/Emergency/Tests.antt =====
-- The theorems of the modules above at concrete stores.
use agent_context_broker.Prelude.{◌≡◌, refl, true, false, none, some, [], ◌∷◌, ◌⊎◌, ◌↔◌, ◌<◌, any}
use agent_context_broker.Prelude.Text.{is_space}
use agent_context_broker.Platform.Sample.{sample_platform}
use agent_context_broker.Emergency.Record.{
  Opened, codex, host, five_hour, primary_rate_limit, RecordData, opened, used, query,
  record_schema, is_identifier, reason_matches, is_control, CloseReason,
}
use agent_context_broker.Emergency.Open.{
  OpenInput, given, absent, validate_open, opened_valid, reason_valid, until_valid,
}
use agent_context_broker.Emergency.Ledger.{
  Store, missing, append_unlocked, verify_store, entry_for, accepted, invalid, LedgerRecord, admits,
  written, head_behind, ok, err, bad_record, inactive_grant,
}
use agent_context_broker.Emergency.Ledger.Append.{
  append_unlocked-verify, written-verify, entry_for-Accepts, IsSynced, append_unlocked-IsSynced,
}
use agent_context_broker.Emergency.Grants.{
  open_grants, open_from, set_grant, provider_grant, active_grant,
}
use agent_context_broker.Emergency.Grants.Track.{open_grants_iff, IsOpen}
use agent_context_broker.Emergency.Commands.{
  EvaluateOptions, evaluate_store, OpenOptions, open_emergency, build_open, build_from, opening,
  CloseOptions, close_emergency, no_grant, appended,
}
use agent_context_broker.Emergency.Evaluate.{
  evaluate_store-Evaluates, Evaluates, evaluate_store-grant,
}
use agent_context_broker.Emergency.Lifecycle.{open_emergency-Opens, Opens, open_emergency-reused}
use agent_context_broker.Emergency.Closing.{close_emergency-closes, Closes}
use agent_context_broker.Emergency.Use.{Metadata, use_record, is_active, emergency_use}
use agent_context_broker.Emergency.Using.{emergency_use-records, Records}

abbrev fresh : Store
fresh = record { ledger = none; head_file = missing }

abbrev pub grant : Opened
grant = record {
  grant_id = "g1";
  provider = codex;
  trigger = primary_rate_limit;
  reason = "limit";
  window = some five_hour;
  opened_at = record { text = "t0"; instant = 1000 };
  expires_at = record { text = "t1"; instant = 5000 };
  opened_by = host;
  supersedes = none;
}

abbrev first : LedgerRecord
first = entry_for sample_platform [] (opened grant)

abbrev pub one_grant : Store
one_grant = (append_unlocked sample_platform (opened grant) fresh).1

fresh_accepted : verify_store sample_platform fresh ≡ accepted [] []
unfolding verify_store
fresh_accepted = refl

grant_shaped : record_schema (opened grant) ≡ true
unfolding record_schema is_identifier reason_matches is_control
grant_shaped = refl

grant_admitted : admits [] (opened grant) ≡ true
unfolding admits opened_valid validate_open reason_valid until_valid is_space is_control
grant_admitted = refl

one_grant_accepted : verify_store sample_platform one_grant ≡ accepted (first ∷ []) []
one_grant_accepted =
    (append_unlocked-verify sample_platform (opened grant) fresh [] [] fresh_accepted grant_shaped
      grant_admitted).1

one_grant_open : open_grants (first ∷ []) ≡ grant ∷ []
unfolding open_grants open_from set_grant
one_grant_open = refl

-- The use of the grant for a query with no claims.
abbrev metadata : Metadata
metadata = record {
  candidates = [];
  peers = [];
  trace_scopes = [];
  claim_ids = none;
  claim_keys = none;
  peer_progress_ids = none;
  notices = [];
  scopes = none;
  profile = none;
  route_reason = none;
  bytes = none;
  context = "";
  published_claim_keys = none;
  writes = none;
}

abbrev use_data : RecordData
use_data = used (use_record sample_platform 2000 grant query metadata)

use_shaped : record_schema use_data ≡ true
unfolding record_schema is_identifier use_record
use_shaped = refl

use_admitted : admits ("g1" ∷ []) use_data ≡ true
unfolding admits use_record
use_admitted = refl

append_unlocked-verify_example :
    ((append_unlocked sample_platform use_data one_grant).0
      ≡ ok (entry_for sample_platform (first ∷ []) use_data))
    × (verify_store sample_platform (append_unlocked sample_platform use_data one_grant).1
        ≡ accepted (first ∷ entry_for sample_platform (first ∷ []) use_data ∷ []) [])
append_unlocked-verify_example =
    append_unlocked-verify sample_platform use_data one_grant (first ∷ []) [] one_grant_accepted
      use_shaped use_admitted

emergency_use-records_example :
    ((any (is_active 2000 "g1") (open_grants (first ∷ [])) ≡ false)
      × (emergency_use sample_platform 2000 true (some grant) query metadata one_grant
          ≡ (err inactive_grant, one_grant)))
    ⊎ ((any (is_active 2000 "g1") (open_grants (first ∷ [])) ≡ true)
        × (record_schema use_data ≡ false)
        × (emergency_use sample_platform 2000 true (some grant) query metadata one_grant
            ≡ (err bad_record, one_grant)))
    ⊎ ((any (is_active 2000 "g1") (open_grants (first ∷ [])) ≡ true)
        × (record_schema use_data ≡ true)
        × Records sample_platform 2000 grant query metadata
            (first ∷ [])
            []
            one_grant
            one_grant_accepted)
emergency_use-records_example =
    emergency_use-records sample_platform 2000 grant query metadata (first ∷ []) [] one_grant
      one_grant_accepted

-- After the grant has expired.
abbrev evaluate_options : EvaluateOptions
evaluate_options = record { provider = codex; now = 6000; execute = true; lockable = true }

evaluate_store-Evaluates_example : Evaluates sample_platform evaluate_options (first ∷ []) one_grant
evaluate_store-Evaluates_example =
    evaluate_store-Evaluates sample_platform evaluate_options (first ∷ []) [] one_grant
      one_grant_accepted

abbrev pub early_options : EvaluateOptions
early_options = record { provider = codex; now = 2000; execute = true; lockable = true }

first_found : active_grant codex 2000 (grant ∷ []) ≡ some grant
unfolding active_grant
first_found = refl

pub early_grant : (evaluate_store sample_platform early_options one_grant).0.grant ≡ some grant
early_grant =
    rw
      (evaluate_store-Evaluates sample_platform early_options (first ∷ []) [] one_grant
        one_grant_accepted).grant_is
      (rw one_grant_open first_found)

evaluate_store-grant_example :
    IsOpen codex grant (verify_store sample_platform one_grant).records
    × (2000 < 5000)
    × ((verify_store sample_platform one_grant).valid ≡ true)
evaluate_store-grant_example =
    evaluate_store-grant sample_platform early_options one_grant grant early_grant

open_grants_iff_example :
    (provider_grant codex (open_grants (first ∷ [])) ≡ some grant) ↔ IsOpen codex grant (first ∷ [])
open_grants_iff_example = open_grants_iff codex grant (first ∷ [])

one_grant-IsSynced : IsSynced sample_platform (first ∷ []) one_grant
one_grant-IsSynced =
    append_unlocked-IsSynced sample_platform (opened grant) fresh [] [] fresh_accepted grant_shaped
      grant_admitted

abbrev second : LedgerRecord
second = entry_for sample_platform (first ∷ []) use_data

abbrev third : LedgerRecord
third = entry_for sample_platform (first ∷ second ∷ []) use_data

-- Two writers in a row stop before they rename the checkpoint.
written-verify_example :
    (verify_store sample_platform (written one_grant second)
      ≡ accepted (first ∷ second ∷ []) (head_behind ∷ []))
    × (verify_store sample_platform (written (written one_grant second) third) ≡ invalid)
written-verify_example =
    written-verify sample_platform (first ∷ []) second third one_grant
      (entry_for-Accepts sample_platform (first ∷ []) use_data use_shaped use_admitted)
      (entry_for-Accepts sample_platform (first ∷ second ∷ []) use_data use_shaped use_admitted)
      one_grant-IsSynced

abbrev open_input : OpenInput
open_input = record {
  provider = given codex;
  reason = given "longer";
  until = given (record { text = "t2"; instant = 9000 });
  trigger = absent;
  window = absent;
}

-- A longer grant in the place of the first, with an id of its own.
abbrev open_options : OpenOptions
open_options = record {
  input = open_input;
  grant_id = none;
  fresh_id = "g2";
  opened_by = none;
  now = 2000;
  execute = true;
  lockable = true;
}

-- The same with the id of the first.
abbrev reusing_options : OpenOptions
reusing_options = record open_options { grant_id = some "g1" }

open_input_valid : validate_open open_input 2000 ≡ true
unfolding validate_open reason_valid until_valid is_space is_control
open_input_valid = refl

abbrev longer : OpenOptions → Opened
longer o =
    opening sample_platform o codex "longer" (record { text = "t2"; instant = 9000 }) (some grant)

longer_built :
    build_open sample_platform open_options (accepted (first ∷ []) []) ≡ ok (longer open_options)
unfolding build_open build_from active_grant open_grants open_from set_grant
longer_built = refl

reusing_built :
    build_open sample_platform reusing_options (accepted (first ∷ []) [])
    ≡ ok (longer reusing_options)
unfolding build_open build_from active_grant open_grants open_from set_grant
reusing_built = refl

g2_shaped : is_identifier "g2" ≡ true
unfolding is_identifier
g2_shaped = refl

g1_shaped : is_identifier "g1" ≡ true
unfolding is_identifier
g1_shaped = refl

open_emergency-Opens_example :
    Opens sample_platform open_options (first ∷ []) [] one_grant (longer open_options)
open_emergency-Opens_example =
    open_emergency-Opens sample_platform open_options (first ∷ []) [] one_grant
      (longer open_options) one_grant_accepted open_input_valid g2_shaped refl longer_built refl
      refl

open_emergency-reused_example :
    ((r : LedgerRecord) × ((open_emergency sample_platform reusing_options one_grant).0
        ≡ ok (appended r))
      × (r.content ≡ opened (longer reusing_options)))
    × (verify_store sample_platform (open_emergency sample_platform reusing_options one_grant).1
        ≡ invalid)
open_emergency-reused_example =
    open_emergency-reused sample_platform reusing_options (first ∷ []) [] one_grant
      (longer reusing_options) one_grant_accepted open_input_valid g1_shaped refl reusing_built refl
      refl

abbrev close_options : CloseOptions
close_options = record {
  provider = given codex;
  reason = absent;
  now = 3000;
  execute = true;
  lockable = true;
}

close_emergency-closes_example :
    ((provider_grant codex (open_grants (first ∷ [])) ≡ none)
      × (close_emergency sample_platform close_options one_grant ≡ (ok no_grant, one_grant)))
    ⊎ ((g : Opened) × (provider_grant codex (open_grants (first ∷ [])) ≡ some g)
        × Closes sample_platform close_options codex CloseReason.manual (first ∷ []) one_grant g)
close_emergency-closes_example =
    close_emergency-closes sample_platform close_options codex CloseReason.manual (first ∷ []) []
      one_grant one_grant_accepted refl refl refl refl
