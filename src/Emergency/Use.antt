-- ===== src/Emergency/Use.antt =====
-- `emergencyUse` of src/emergency.mts: the record of one use of a grant.
use Prim.Native.Char.{code}
use Prim.Native.String.{len}
use agent_context_broker.Prelude.{
  ℕ, String, Bool, true, false, not, ◌&&◌, Option, none, some, List, [], ◌∷◌, map, ◌==◌, str_eq,
  if◌then◌else◌, length, any, keep,
}
use agent_context_broker.Platform.{Platform, stamp}
use agent_context_broker.Emergency.Record.{Command, Scope, Write, Opened, Used, used, command_text}
use agent_context_broker.Emergency.Ledger.{
  Store, verify_store, inactive_grant, invalid_ledger, Result, ok, err, append_unlocked,
}
use agent_context_broker.Emergency.Grants.{open_grants, is_expired}
use agent_context_broker.Emergency.Commands.{◌▸◌, with_lock, or_default}

-- A row of `trace.candidates`; an empty id or key counts as none.
pub record Candidate : Type 0 where
  pub included : Bool
  pub claim_id : Option String
  pub claim_key : Option String

pub record PeerRow : Type 0 where
  pub included : Bool
  pub progress_id : String

pub record Notice : Type 0 where
  pub has_text : Bool
  pub record_id : String

-- The argument `metadata`; the parts of a missing trace are empty lists.
pub record Metadata : Type 0 where
  pub candidates : List Candidate
  pub peers : List PeerRow
  pub trace_scopes : List String
  pub claim_ids : Option (List String)
  pub claim_keys : Option (List String)
  pub peer_progress_ids : Option (List String)
  pub notices : List Notice
  pub scopes : Option (List Scope)
  pub profile : Option String
  pub route_reason : Option String
  pub bytes : Option ℕ
  pub context : String
  pub published_claim_keys : Option (List String)
  pub writes : Option (List Write)

-- `relationKey.split(':')[0]`
before_colon : String → String
before_colon String.[] = String.[]
before_colon (String.◌∷◌ c s) =
    let rest = before_colon s in if code c == b':' then String.[] else String.◌∷◌ c rest

trace_scope : String → Scope
unfolding before_colon
trace_scope key = record { relation_key = key; kind = before_colon key }

abbrev pub present : List (Option String) → List String
present [] = []
present (none ∷ os) = present os
present (some s ∷ os) = s ∷ present os

is_claim : Candidate → Bool
is_claim c = c.included && elim c.claim_id [ none ↦ false | some _ ↦ true ]

pub claims : Metadata → List Candidate
unfolding is_claim
claims m = keep is_claim m.candidates

pub used_claim_ids : Metadata → List String
unfolding claims
used_claim_ids m = or_default (present (map (λ (c : Candidate). c.claim_id) (claims m))) m.claim_ids

pub used_peer_ids : Metadata → List String
used_peer_ids m =
    or_default (map (λ (r : PeerRow). r.progress_id) (keep (λ (r : PeerRow). r.included) m.peers))
      m.peer_progress_ids

pub used_notice_ids : Metadata → List String
used_notice_ids m = map (λ (n : Notice). n.record_id) (keep (λ (n : Notice). n.has_text) m.notices)

-- `g.grantId === grant.grantId && Date.parse(g.expiresAt) > +now`
abbrev pub is_active : ℕ → String → Opened → Bool
is_active now id g = str_eq g.grant_id id && not (is_expired now g)

module _ (p : Platform) where
  -- The record that `emergencyUse` appends.
  unfoldable pub use_record : ℕ → Opened → Command → Metadata → Used
  unfolding claims trace_scope used_claim_ids used_peer_ids used_notice_ids
  use_record now g command m = record {
    grant_id = g.grant_id;
    at = stamp p now;
    command = command;
    scopes = or_default (map trace_scope m.trace_scopes) m.scopes;
    profile = m.profile;
    route_reason = or_default (command_text command) m.route_reason;
    claim_ids = used_claim_ids m;
    claim_keys =
        or_default (present (map (λ (c : Candidate). c.claim_key) (claims m))) m.claim_keys;
    peer_progress_ids = used_peer_ids m;
    team_notice_ids = used_notice_ids m;
    counts = record {
      claims = length (used_claim_ids m);
      peer_progress = length (used_peer_ids m);
      team_notices = length (used_notice_ids m);
      bytes = or_default (len m.context) m.bytes;
    };
    published_claim_keys = m.published_claim_keys;
    writes = m.writes;
  }

  -- What `emergencyUse` does under the lock.
  unfoldable pub use_locked : ℕ → Opened → Command → Metadata → Store → Result (Unit {0}) × Store
  use_locked now g command m st =
      let v = verify_store p st in
      if not v.valid
      then (err invalid_ledger, st)
      else if any (is_active now g.grant_id) (open_grants v.records)
      then (append_unlocked p (used (use_record now g command m)) st ▸ λ _ st1. (ok tt, st1))
      else (err inactive_grant, st)

  -- `emergencyUse`: without a grant there is nothing to record.
  unfoldable pub emergency_use :
      ℕ → Bool → Option Opened → Command → Metadata → Store → Result (Unit {0}) × Store
  emergency_use now lockable none command m st = (ok tt, st)
  emergency_use now lockable (some g) command m st =
      with_lock lockable (use_locked now g command m) st
