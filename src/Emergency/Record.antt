-- ===== src/Emergency/Record.antt =====
-- The records of the ledger and `recordSchema`. What the schema says of a field's kind is the type
-- of the field here: a line that does not have this shape is `garbled` in `Emergency.Ledger`.
use agent_context_broker.Prelude.{
  ℕ, String, Bool, true, false, not, ◌&&◌, ◌||◌, Option, none, some, List, [], ◌∷◌, ltb, leb, ◌==◌,
  if◌then◌else◌, length, all,
}
use agent_context_broker.Prelude.Text.{units, is_hash, is_lower, is_lower_hex}
use agent_context_broker.Platform.{Stamp}
use agent_context_broker.Json.{
  Json, null, num, arr, obj, Items, nil, cons, Fields, end, text, texts, entry,
}

pub data Provider : Type 0 where
  codex claude_code : Provider

pub data Trigger : Type 0 where
  primary_rate_limit manual : Trigger

pub data Window : Type 0 where
  five_hour seven_day other : Window

pub data Opener : Type 0 where
  host cli : Opener

pub data CloseReason : Type 0 where
  expired primary_restored manual : CloseReason

pub data Command : Type 0 where
  query publish progress refresh : Command

pub record Scope : Type 0 where
  pub relation_key : String
  pub kind : String

pub record Counts : Type 0 where
  pub claims : ℕ
  pub peer_progress : ℕ
  pub team_notices : ℕ
  pub bytes : ℕ

pub record Write : Type 0 where
  pub claim_id : String
  pub claim_key : String
  pub scope_key : String
  pub review_id : Option String

-- `schemaVersion` is 1 and `mode` is `full` in every record.
pub record Opened : Type 0 where
  pub grant_id : String
  pub provider : Provider
  pub trigger : Trigger
  pub reason : String
  pub window : Option Window
  pub opened_at : Stamp
  pub expires_at : Stamp
  pub opened_by : Opener
  pub supersedes : Option String

pub record Closed : Type 0 where
  pub grant_id : String
  pub closed_at : Stamp
  pub reason : CloseReason

pub record Used : Type 0 where
  pub grant_id : String
  pub at : Stamp
  pub command : Command
  pub scopes : List Scope
  pub profile : Option String
  pub route_reason : String
  pub claim_ids : List String
  pub claim_keys : List String
  pub peer_progress_ids : List String
  pub team_notice_ids : List String
  pub counts : Counts
  pub published_claim_keys : Option (List String)
  pub writes : Option (List Write)

pub data RecordData : Type 0 where
  opened : Opened → RecordData
  closed : Closed → RecordData
  used : Used → RecordData

abbrev pub grant_id : RecordData → String
grant_id (opened r) = r.grant_id
grant_id (closed r) = r.grant_id
grant_id (used r) = r.grant_id

-- `z.string().min(1).max(200)`
unfoldable pub is_identifier : String → Bool
is_identifier s = let n = length (units s) in leb 1 n && leb n 200

abbrev pub optional {ℓ} : {A : Type ℓ} → (A → Bool) → Option A → Bool
optional p none = true
optional p (some a) = p a

-- `/[\x00-\x1f\x7f\u2028\u2029]/u`
unfoldable pub is_control : ℕ → Bool
is_control c = ltb c 32 || c == 0x7f || c == 0x2028 || c == 0x2029

unfoldable pub reason_matches : String → Bool
reason_matches s =
    let n = length (units s) in leb 1 n && leb n 500 && all (λ c. not (is_control c)) (units s)

-- `/^[a-z-]+:[a-f0-9]{64}$/u`, from left to right: a key of one or more letters and dashes, a
-- colon, 64 hexadecimal digits.
relation_key_from : Bool → List ℕ → Bool
relation_key_from nonempty [] = false
relation_key_from nonempty (c ∷ cs) =
    let rest = relation_key_from true cs in
    if c == b':'
    then nonempty && length cs == 64 && all is_lower_hex cs
    else (is_lower c || c == b'-') && rest

is_relation_key : String → Bool
unfolding relation_key_from
is_relation_key s = relation_key_from false (units s)

unfoldable pub scope_matches : Scope → Bool
unfolding is_relation_key is_identifier
scope_matches s = is_relation_key s.relation_key && is_identifier s.kind

unfoldable pub write_matches : Write → Bool
unfolding is_identifier
write_matches w = is_hash w.claim_id && optional is_identifier w.review_id

-- `recordSchema.parse`
unfoldable pub record_schema : RecordData → Bool
record_schema (opened r) =
    is_identifier r.grant_id && reason_matches r.reason && optional is_identifier r.supersedes
record_schema (closed r) = is_identifier r.grant_id
record_schema (used r) =
    is_identifier r.grant_id
    && all scope_matches r.scopes
    && all is_hash r.claim_ids
    && all is_hash r.peer_progress_ids
    && all is_identifier r.team_notice_ids
    && optional (all write_matches) r.writes

abbrev provider_text : Provider → String
provider_text codex = "codex"
provider_text claude_code = "claude-code"

abbrev trigger_text : Trigger → String
trigger_text primary_rate_limit = "primary-rate-limit"
trigger_text Trigger.manual = "manual"

abbrev window_json : Option Window → Json
window_json none = null
window_json (some five_hour) = text "five_hour"
window_json (some seven_day) = text "seven_day"
window_json (some other) = text "other"

abbrev opener_text : Opener → String
opener_text host = "host"
opener_text cli = "cli"

abbrev close_reason_text : CloseReason → String
close_reason_text expired = "expired"
close_reason_text primary_restored = "primary-restored"
close_reason_text CloseReason.manual = "manual"

abbrev pub command_text : Command → String
command_text query = "query"
command_text publish = "publish"
command_text progress = "progress"
command_text refresh = "refresh"

abbrev optional_text : String → Option String → Fields → Fields
optional_text k none fs = fs
optional_text k (some s) fs = entry k (text s) fs

abbrev text_or_null : Option String → Json
text_or_null none = null
text_or_null (some s) = text s

scope_items : List Scope → Items
scope_items [] = nil
scope_items (s ∷ ss) =
    cons (obj (entry "relationKey" (text s.relation_key) (entry "kind" (text s.kind) end)))
      (scope_items ss)

write_items : List Write → Items
write_items [] = nil
write_items (w ∷ ws) =
    cons
      (obj (
        entry "claimId" (text w.claim_id) (
          entry "claimKey" (text w.claim_key)
            (entry "scopeKey" (text w.scope_key) (optional_text "reviewId" w.review_id end)))))
      (write_items ws)

counts_json : Counts → Json
counts_json c = obj (
    entry "claims" (num c.claims) (
      entry "peerProgress" (num c.peer_progress)
        (entry "teamNotices" (num c.team_notices) (entry "bytes" (num c.bytes) end))))

optional_items : {A : Type 0} → String → (A → Items) → Option A → Fields → Fields
optional_items k f none fs = fs
optional_items k f (some a) fs = entry k (arr (f a)) fs

-- The fields of a record as they are hashed, in front of `rest`.
pub record_fields : RecordData → Fields → Fields
unfolding scope_items write_items counts_json optional_items
record_fields (opened r) rest = entry "grantId" (text r.grant_id) (
    entry "type" (text "opened") (
      entry "schemaVersion" (num 1) (
        entry "provider" (text (provider_text r.provider)) (
          entry "mode" (text "full") (
            entry "trigger" (text (trigger_text r.trigger)) (
              entry "reason" (text r.reason) (
                entry "window" (window_json r.window) (
                  entry "openedAt" (text r.opened_at.text) (
                    entry "expiresAt" (text r.expires_at.text) (
                      entry "openedBy" (text (opener_text r.opened_by))
                        (optional_text "supersedes" r.supersedes rest)))))))))))
record_fields (closed r) rest = entry "grantId" (text r.grant_id) (
    entry "type" (text "closed") (
      entry "closedAt" (text r.closed_at.text)
        (entry "reason" (text (close_reason_text r.reason)) rest)))
record_fields (used r) rest = entry "grantId" (text r.grant_id) (
    entry "type" (text "used") (
      entry "at" (text r.at.text) (
        entry "command" (text (command_text r.command)) (
          entry "scopes" (arr (scope_items r.scopes)) (
            entry "profile" (text_or_null r.profile) (
              entry "routeReason" (text r.route_reason) (
                entry "claimIds" (arr (texts r.claim_ids)) (
                  entry "claimKeys" (arr (texts r.claim_keys)) (
                    entry "peerProgressIds" (arr (texts r.peer_progress_ids)) (
                      entry "teamNoticeIds" (arr (texts r.team_notice_ids)) (
                        entry "counts" (counts_json r.counts) (
                          optional_items "publishedClaimKeys" texts r.published_claim_keys
                            (optional_items "writes" write_items r.writes rest)))))))))))))
