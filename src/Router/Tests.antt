-- ===== src/Router/Tests.antt =====
-- A document of three profiles, and one in which an id is an array.
use agent_context_broker.Prelude.{
  ℕ, ◌≡◌, refl, String, Bool, true, false, ◌&&◌, none, some, List, [], ◌∷◌, ◌⊎◌,
}
use agent_context_broker.Router.{
  Profiles, load_context_profiles, read_profiles, own_kinds, put, put_all, select, profile,
  find_owner, Route, RouteInput, route_context_profile, task_kind,
}
use agent_context_broker.Router.Validate.{
  ProfileId, text_id, array_id, RawItem, object, Profile, ok, validate_profile, read_profile,
}
use agent_context_broker.Router.Owners.{load_context_profiles-find_owner}
use agent_context_broker.Router.Isolation.{IsSafe, selects_strict, route_context_profile-isolates}

abbrev raw : ProfileId → String → Bool → ℕ → RawItem
raw id kind cross limit = object (record {
  unknown_field = false;
  id = some id;
  description = some "profile";
  task_kinds = some (some kind ∷ []);
  keywords = some [];
  claim_types = some [];
  cross_provider = some cross;
  max_snapshots = some limit;
  max_claims = some limit;
  max_value_bytes = some limit;
  max_context_bytes = some 256;
})

abbrev read : ProfileId → String → Bool → ℕ → Profile
read id kind cross limit = record {
  id = id;
  description = "profile";
  task_kinds = kind ∷ [];
  keywords = [];
  claim_types = [];
  cross_provider = cross;
  max_snapshots = limit;
  max_claims = limit;
  max_value_bytes = limit;
  max_context_bytes = 256;
}

abbrev strict : ProfileId
strict = text_id "strict-isolation"

abbrev custom : ProfileId
custom = text_id "custom-project"

abbrev items : List RawItem
items = raw strict "isolated" false 0 ∷ raw custom "code" true 9 ∷ []

abbrev table : Profiles
table =
    ("strict-isolation", read strict "isolated" false 0)
    ∷ ("custom-project", read custom "code" true 9)
    ∷ []

table_loaded : load_context_profiles (some items) ≡ ok table
unfolding load_context_profiles read_profiles validate_profile read_profile own_kinds put put_all
table_loaded = refl

code_selected : select "custom-project" table ≡ profile (read custom "code" true 9)
unfolding select
code_selected = refl

load_context_profiles-find_owner_example :
    find_owner "code" table ≡ some (read custom "code" true 9)
load_context_profiles-find_owner_example =
    load_context_profiles-find_owner items table "code" "custom-project" (read custom "code" true 9)
      table_loaded code_selected refl

abbrev code_input : RouteInput
code_input = record {
  strict_isolation = false;
  profile_id = none;
  normalized_kind = "code";
  project_scope = false;
}

abbrev code_route : Route
code_route = record {
  should_query = true;
  selected = profile (read custom "code" true 9);
  reason = task_kind;
}

code_routed : route_context_profile code_input table ≡ ok code_route
unfolding route_context_profile find_owner
code_routed = refl

route_context_profile-isolates_example :
    ((code_input.strict_isolation ≡ true)
      × (code_route.should_query ≡ false)
      × (p : Profile) × (code_route.selected ≡ profile p)
      × IsSafe "strict-isolation" p)
    ⊎ ((code_input.strict_isolation ≡ false)
        × ((code_route.should_query && selects_strict code_route.selected) ≡ false))
route_context_profile-isolates_example =
    route_context_profile-isolates items table code_input code_route table_loaded code_routed

-- A profile whose id is the array of one text takes the place of the profile of that id.
abbrev overriding : List RawItem
overriding =
    raw strict "isolated" false 0
    ∷ raw custom "code" true 9
    ∷ raw (array_id "strict-isolation") "any" true 9
    ∷ []

abbrev overridden : Profiles
overridden =
    ("strict-isolation", read (array_id "strict-isolation") "any" true 9)
    ∷ ("custom-project", read custom "code" true 9)
    ∷ []

overriding_loaded : load_context_profiles (some overriding) ≡ ok overridden
unfolding load_context_profiles read_profiles validate_profile read_profile own_kinds put put_all
overriding_loaded = refl
