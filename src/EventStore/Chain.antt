-- ===== src/EventStore/Chain.antt =====
-- The chains that the loops of src/event-store.mjs accept.
use agent_context_broker.Prelude.{
  ℕ, suc, ◌≡◌, refl, ap, subst, String, Bool, true, false, not, Option, none, some, List, [], ◌∷◌,
  ◌++◌, map, arith, eq_iff, contains,
}
use agent_context_broker.Platform.{Platform}
use agent_context_broker.EventStore.Event.{Event, payload_digest, event_digest}
use agent_context_broker.EventStore.Validate.{
  EventError, validate_event_input, chain_failed, duplicate_key,
}
use agent_context_broker.EventStore.Files.{
  Result, ok, err, ◌>>=◌, ◌>>◌, Content, garbled, stored, RecordFile, record_file, read_record,
  same_option,
}
use agent_context_broker.EventStore.Build.{IsLink}
use agent_context_broker.EventStore.Verify.{
  require, check_input, links, validate_stored_event, read_link, verify_records, verify_links,
}

pub bind-ok {ℓ κ} :
    {A : Type ℓ} {B : Type κ} (m : Result A) (f : A → Result B) (b : B)
    → m >>= f ≡ ok b
    → (a : A) × (m ≡ ok a) × (f a ≡ ok b)
bind-ok (ok a) f b e = (a, refl, e)
bind-ok (err x) f b e = cc

pub require-ok {ℓ} :
    {B : Type ℓ} (test : Bool) (e : EventError) (k : Result B) (b : B)
    → require test e >> k ≡ ok b
    → (test ≡ true) × (k ≡ ok b)
require-ok true e k b same = (refl, same)
require-ok false e k b same = cc

checks-ok {ℓ} :
    {B : Type ℓ} (o : Option EventError) (test : Bool) (e : EventError) (k : Result B) (b : B)
    → (check_input o >> require test e) >> k ≡ ok b
    → (o ≡ none) × (test ≡ true) × (k ≡ ok b)
checks-ok none true e k b same = (refl, refl, same)
checks-ok none false e k b same = cc
checks-ok (some x) test e k b same = cc

pub same_option_iff : (a b : Option String) → same_option a b ≡ true → a ≡ b
same_option_iff none none e = refl
same_option_iff (some a) (some b) e = ap some (ground (arith, eq_iff a b))
same_option_iff none (some b) e = cc
same_option_iff (some a) none e = cc

pub same_option_refl : (a : Option String) → same_option a a ≡ true
same_option_refl none = refl
same_option_refl (some a) = ground (arith, eq_iff a a)

-- No event has a key of `keys` or of one in front of it.
abbrev pub Unrepeated : List String → List Event → Type 0
Unrepeated keys [] = Unit
Unrepeated keys (e ∷ es) =
    (contains e.input.idempotency_key keys ≡ false)
    × Unrepeated (keys ++ e.input.idempotency_key ∷ []) es

module _ (p : Platform) where
  -- Links that follow one another, from a place and what stands in front of it.
  abbrev pub Chain : ℕ → Option String → List Event → Type 0
  Chain n previous [] = Unit
  Chain n previous (e ∷ es) = IsLink p n previous e × Chain (suc n) (some e.event_id) es

  links_of_IsLink :
      (n : ℕ) (previous : Option String) (e : Event)
      → IsLink p n previous e
      → links p e (record_file e) n previous ≡ true
  unfolding links
  links_of_IsLink n previous e l =
      rw (l.linked, l.version, l.placed)
        (ground (
          arith,
          same_option_refl previous,
          eq_iff e.event_id e.event_id,
          l.payload_hashed,
          l.hashed,
          eq_iff e.payload_hash (payload_digest p e.input.payload),
          eq_iff e.event_id (event_digest p e),
        ))

  -- The file of a link is read as that link.
  pub read_link_of_IsLink :
      (n : ℕ) (previous : Option String) (e : Event)
      → IsLink p n previous e
      → read_link p (record_file e) n previous ≡ ok e
  unfolding read_link validate_stored_event read_record
  read_link_of_IsLink n previous e l = rw (l.valid, links_of_IsLink n previous e l) refl

  links-file :
      (f : RecordFile) (n : ℕ) (previous : Option String) (e : Event)
      → f.content ≡ stored e
      → links p e f n previous ≡ true
      → f ≡ record_file e
  unfolding links
  links-file f n previous e c h =
      let same_number : f.sequence ≡ e.sequence = ground arith in
      let same_id : f.event_id ≡ e.event_id = ground (arith, eq_iff f.event_id e.event_id) in cc

  links-IsLink :
      (f : RecordFile) (n : ℕ) (previous : Option String) (e : Event)
      → validate_event_input e.input ≡ none
      → links p e f n previous ≡ true
      → IsLink p n previous e
  unfolding links
  links-IsLink f n previous e v h = record {
    valid = v;
    version = ground arith;
    placed = ground arith;
    linked = same_option_iff e.previous_event_hash previous (ground arith);
    payload_hashed = ground (arith, eq_iff e.payload_hash (payload_digest p e.input.payload));
    hashed = ground (arith, eq_iff e.event_id (event_digest p e));
  }

  read_record-ok : (c : Content) (e : Event) → read_record c ≡ ok e → c ≡ stored e
  unfolding read_record
  read_record-ok garbled e h = cc
  read_record-ok (stored d) e h = ground arith

  -- A file that is read as a link is the file of that link.
  pub read_link-ok :
      (f : RecordFile) (n : ℕ) (previous : Option String) (e : Event)
      → read_link p f n previous ≡ ok e
      → (f ≡ record_file e) × IsLink p n previous e
  unfolding read_link validate_stored_event
  read_link-ok f n previous e h =
      let (d, read, h1) = bind-ok (read_record f.content) _ e h in
      let (valid, linked, h2) =
        checks-ok (validate_event_input d.input) (links p d f n previous) chain_failed (ok d) e
          h1 in
      let same : d ≡ e = ground arith in
      let content = read_record-ok f.content d read in
      subst (λ d. (f ≡ record_file d) × IsLink p n previous d) same
        (links-file f n previous d content linked, links-IsLink f n previous d valid linked)

  pub verify_records_of_Chain :
      (es : List Event) (n : ℕ) (previous : Option String) (keys : List String)
      → Chain n previous es
      → Unrepeated keys es
      → verify_records p (map record_file es) n previous keys ≡ ok es
  unfolding verify_records
  verify_records_of_Chain [] n previous keys c u = refl
  verify_records_of_Chain (e ∷ es) n previous keys c u =
      rw (read_link_of_IsLink n previous e c.0, u.0)
        (rw
          (verify_records_of_Chain es (suc n) (some e.event_id)
            (keys ++ e.input.idempotency_key ∷ []) c.1 u.1)
          refl)

  pub verify_links_of_Chain :
      (es : List Event) (n : ℕ) (previous : Option String)
      → Chain n previous es
      → verify_links p (map record_file es) n previous ≡ ok es
  unfolding verify_links
  verify_links_of_Chain [] n previous c = refl
  verify_links_of_Chain (e ∷ es) n previous c =
      rw (read_link_of_IsLink n previous e c.0)
        (rw (verify_links_of_Chain es (suc n) (some e.event_id) c.1) refl)

  pub verify_records-Chain :
      (fs : List RecordFile) (n : ℕ) (previous : Option String) (keys : List String)
      (es : List Event)
      → verify_records p fs n previous keys ≡ ok es
      → (fs ≡ map record_file es) × Chain n previous es × Unrepeated keys es
  unfolding verify_records
  verify_records-Chain [] n previous keys [] h = (refl, tt, tt)
  verify_records-Chain [] n previous keys (e ∷ es) h = cc
  verify_records-Chain (f ∷ fs) n previous keys es h =
      let (e, read, h1) = bind-ok (read_link p f n previous) _ es h in
      let (fresh, h2) =
        require-ok (not (contains e.input.idempotency_key keys)) duplicate_key _ es h1 in
      let (ds, rest, h3) =
        bind-ok
          (verify_records p fs (suc n) (some e.event_id) (keys ++ e.input.idempotency_key ∷ [])) _
          es h2 in
      let (file, link) = read_link-ok f n previous e read in
      let (files, chain, unrepeated) =
        verify_records-Chain fs (suc n) (some e.event_id) (keys ++ e.input.idempotency_key ∷ []) ds
          rest in
      let all : e ∷ ds ≡ es = ground arith in
      subst (λ es. (f ∷ fs ≡ map record_file es) × Chain n previous es × Unrepeated keys es) all
        (cc, (link, chain), (ground arith, unrepeated))
