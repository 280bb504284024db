-- ===== src/EventStore/Build.antt =====
-- What `buildEvent` of src/event-store.mjs makes of a valid input is a valid link of the chain.
use agent_context_broker.Prelude.{
  ℕ, ◌+◌, ◌≡◌, refl, ap, sym, ◌∙◌, String, Bool, ◌&&◌, ◌||◌, Option, none, List, [], ◌∷◌, arith,
  eq_iff, Option-cases, inl, inr, all, contains, str_eq,
}
use agent_context_broker.Platform.{Platform}
use agent_context_broker.Json.{
  Json, null, bool, num, decimal, str, arr, obj, Fields, end, field, stable_value, stable_fields,
  insert_field, stable_json, stringify,
}
use agent_context_broker.Json.Stable.{stable_fields_again}
use agent_context_broker.EventStore.Event.{
  Time, Event, EventInput, iso_time, insert_text, sort_texts, stored_input, payload_digest,
  event_core, event_digest, build_event,
}
use agent_context_broker.EventStore.Validate.{
  distinct, is_reference, valid_reference_list, valid_date, field_count, safe_key, safe_value,
  safe_fields, valid_payload, validate_event_input, valid_identity, valid_references, valid_policy,
}

contains-insert_text :
    (a s : String) (ts : List String)
    → contains a (insert_text s ts) ≡ (str_eq s a || contains a ts)
contains-insert_text a s [] = refl
contains-insert_text a s (t ∷ ts) = ground (arith, contains-insert_text a s ts)

distinct-insert_text :
    (s : String) (ts : List String) → distinct (insert_text s ts) ≡ distinct (s ∷ ts)
unfolding distinct
distinct-insert_text s [] = refl
distinct-insert_text s (t ∷ ts) =
    ground (arith, distinct-insert_text s ts, contains-insert_text t s ts, eq_iff s t, eq_iff t s)

contains-sort_texts : (a : String) (ts : List String) → contains a (sort_texts ts) ≡ contains a ts
unfolding sort_texts
contains-sort_texts a [] = refl
contains-sort_texts a (t ∷ ts) =
    contains-insert_text a t (sort_texts ts) ∙ rw (contains-sort_texts a ts)

distinct-sort_texts : (ts : List String) → distinct (sort_texts ts) ≡ distinct ts
unfolding sort_texts distinct
distinct-sort_texts [] = refl
distinct-sort_texts (t ∷ ts) =
    distinct-insert_text t (sort_texts ts) ∙ rw (contains-sort_texts t ts, distinct-sort_texts ts)

all-insert_text :
    (p : String → Bool) (s : String) (ts : List String)
    → all p (insert_text s ts) ≡ (p s && all p ts)
all-insert_text p s [] = refl
all-insert_text p s (t ∷ ts) = ground (arith, all-insert_text p s ts)

all-sort_texts : (p : String → Bool) (ts : List String) → all p (sort_texts ts) ≡ all p ts
unfolding sort_texts
all-sort_texts p [] = refl
all-sort_texts p (t ∷ ts) = all-insert_text p t (sort_texts ts) ∙ rw (all-sort_texts p ts)

pub valid_reference_list-sort_texts :
    (ts : List String) → valid_reference_list (sort_texts ts) ≡ valid_reference_list ts
unfolding valid_reference_list
valid_reference_list-sort_texts ts = rw (distinct-sort_texts ts, all-sort_texts is_reference ts)

field_count-insert_field :
    (k : List ℕ) (v : Json) (fs : Fields) → field_count (insert_field k v fs) ≡ 1 + field_count fs
unfolding insert_field
field_count-insert_field k v end = refl
field_count-insert_field k v (field j w fs) = ground (arith, field_count-insert_field k v fs)

field_count-stable_fields : (fs : Fields) → field_count (stable_fields fs) ≡ field_count fs
unfolding stable_fields
field_count-stable_fields end = refl
field_count-stable_fields (field k v fs) =
    field_count-insert_field k (stable_value v) (stable_fields fs)
    ∙ ap (λ n. 1 + n) (field_count-stable_fields fs)

safe_fields-insert_field :
    (k : List ℕ) (v : Json) (fs : Fields)
    → safe_fields (insert_field k v fs) ≡ (safe_key k && safe_value v && safe_fields fs)
unfolding insert_field safe_fields
safe_fields-insert_field k v end = refl
safe_fields-insert_field k v (field j w fs) = ground (arith, safe_fields-insert_field k v fs)

safe_value-stable_value : (v : Json) → safe_value (stable_value v) ≡ safe_value v
unfolding stable_value safe_value
safe_value-stable_value (arr xs) = refl
safe_value-stable_value (obj fs) = refl
safe_value-stable_value null = refl
safe_value-stable_value (bool b) = refl
safe_value-stable_value (num n) = refl
safe_value-stable_value (decimal t) = refl
safe_value-stable_value (str t) = refl

safe_fields-stable_fields : (fs : Fields) → safe_fields (stable_fields fs) ≡ safe_fields fs
unfolding stable_fields safe_fields
safe_fields-stable_fields end = refl
safe_fields-stable_fields (field k v fs) =
    safe_fields-insert_field k (stable_value v) (stable_fields fs)
    ∙ rw (safe_value-stable_value v, safe_fields-stable_fields fs)

valid_payload-stable_fields : (fs : Fields) → valid_payload (stable_fields fs) ≡ valid_payload fs
unfolding valid_payload
valid_payload-stable_fields fs = rw (field_count-stable_fields fs, safe_fields-stable_fields fs)

module _ (p : Platform) where
  pub valid_date-iso_time : (t : Time) → valid_date (iso_time p t) ≡ valid_date t
  unfolding valid_date
  valid_date-iso_time t = elim (Option-cases t.instant) [
    | inl e ↦ rw e refl
    | inr (n, e) ↦ rw e refl
  ]

  -- What is stored is as valid as what was given.
  pub validate-stored_input :
      (i : EventInput) → validate_event_input (stored_input p i) ≡ validate_event_input i
  unfolding validate_event_input stored_input valid_identity valid_references valid_policy
  validate-stored_input i =
      rw
        (
          valid_date-iso_time i.occurred_at,
          valid_reference_list-sort_texts i.source_refs,
          valid_reference_list-sort_texts i.evidence_refs,
          valid_payload-stable_fields i.payload,
        )
        refl

  -- The digest of a payload does not depend on the order of its fields.
  payload_digest-stable_fields :
      (fs : Fields) → payload_digest p (stable_fields fs) ≡ payload_digest p fs
  unfolding payload_digest stable_json stable_value
  payload_digest-stable_fields fs =
      ap (λ gs. p.sha256 (stringify (obj gs))) (stable_fields_again fs)

  -- An event that `validateStoredEvent` accepts at a place of the chain.
  pub record IsLink (n : ℕ) (previous : Option String) (e : Event) : Type 0 where
    pub valid : validate_event_input e.input ≡ none
    pub version : e.schema_version ≡ 1
    pub placed : e.sequence ≡ n
    pub linked : e.previous_event_hash ≡ previous
    pub payload_hashed : e.payload_hash ≡ payload_digest p e.input.payload
    pub hashed : e.event_id ≡ event_digest p e

  pub build_event-IsLink :
      (i : EventInput) (n : ℕ) (previous : Option String) (at : String)
      → validate_event_input i ≡ none
      → IsLink n previous (build_event p i n previous at)
  unfolding build_event
  build_event-IsLink i n previous at v = record {
    valid = validate-stored_input i ∙ v;
    version = refl;
    placed = refl;
    linked = refl;
    payload_hashed = unfold stored_input in sym (payload_digest-stable_fields i.payload);
    hashed = unfold event_digest event_core in refl;
  }

  pub build_event_key :
      (i : EventInput) (n : ℕ) (previous : Option String) (at : String)
      → (build_event p i n previous at).input.idempotency_key ≡ i.idempotency_key
  unfolding build_event stored_input
  build_event_key i n previous at = refl
