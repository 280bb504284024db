-- ===== src/Emergency/Grants.antt =====
-- `openGrants` of src/emergency.mts: the grants that are open after the records of the ledger. The
-- map from providers to grants is a list in the order of insertion, as `[...open.values()]` reads it.
pub mod Track
use agent_context_broker.Prelude.{
  ℕ, ◌≡◌, String, Bool, true, false, not, Option, none, some, List, [], ◌∷◌, leb, str_eq, find,
  keep, if◌then◌else◌,
}
use agent_context_broker.Emergency.Record.{
  Provider, codex, claude_code, Opened, RecordData, opened, closed, used,
}
use agent_context_broker.Emergency.Ledger.{LedgerRecord}

abbrev pub same_provider : Provider → Provider → Bool
same_provider codex codex = true
same_provider claude_code claude_code = true
same_provider _ _ = false

-- `open.set(record.provider, record)`
unfoldable pub set_grant : Opened → List Opened → List Opened
set_grant g [] = g ∷ []
set_grant g (h ∷ hs) = if same_provider h.provider g.provider then g ∷ hs else h ∷ set_grant g hs

-- The loop of a `closed` record: every provider whose grant has the id goes.
unfoldable pub drop_grant : String → List Opened → List Opened
drop_grant id gs = keep (λ g. not (str_eq g.grant_id id)) gs

abbrev pub note_record : List Opened → RecordData → List Opened
note_record gs (opened g) = set_grant g gs
note_record gs (closed c) = drop_grant c.grant_id gs
note_record gs (used u) = gs

unfoldable pub open_from : List Opened → List LedgerRecord → List Opened
unfolding set_grant drop_grant
open_from gs [] = gs
open_from gs (r ∷ rs) = open_from (note_record gs r.content) rs

unfoldable pub open_grants : List LedgerRecord → List Opened
unfolding open_from
open_grants rs = open_from [] rs

-- `Date.parse(g.expiresAt) <= +now`
abbrev pub is_expired : ℕ → Opened → Bool
is_expired now g = leb g.expires_at.instant now

-- `find(g => g.provider === provider && Date.parse(g.expiresAt) > +now)`
unfoldable pub active_grant : Provider → ℕ → List Opened → Option Opened
active_grant provider now gs =
    find (λ g. if same_provider g.provider provider then not (is_expired now g) else false) gs

-- `find(g => g.provider === provider)`
unfoldable pub provider_grant : Provider → List Opened → Option Opened
provider_grant provider gs = find (λ g. same_provider g.provider provider) gs
