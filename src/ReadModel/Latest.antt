-- ===== src/ReadModel/Latest.antt =====
-- The node of a subject in the graph of src/read-model.mts is that of the last event about it.
use agent_context_broker.Prelude.{
  ◌≡◌, refl, ap, subst, ◌∙◌, String, Bool, true, false, Option, none, some, List, [], ◌∷◌, ◌++◌,
  arith, eq_iff, Bool-cases, Option-cases, inl, inr, find, str_eq, if◌then◌else◌,
}
use agent_context_broker.Platform.{Platform}
use agent_context_broker.EventStore.Event.{Event}
use agent_context_broker.ReadModel.Graph.{
  Node, Graph, has_node, set_node, insert_by, sort_by, node_for, reference_node, refer, refer_all,
  replaced, project_event, project_events, projection,
}
use agent_context_broker.ReadModel.Closed.{Unique, has_node-sort_by, project_events-IsClosed}

abbrev pub find_node : String → List Node → Option Node
find_node id ns = find (λ n. str_eq n.id id) ns

abbrev or_else {ℓ} : {A : Type ℓ} → Option A → Option A → Option A
or_else none o = o
or_else (some a) o = some a

or_else-none {ℓ} : {A : Type ℓ} (a b : Option A) → or_else a b ≡ none → a ≡ none
or_else-none none b h = refl
or_else-none (some x) b h = cc

-- The last event about a subject.
abbrev pub latest : String → List Event → Option Event
latest s [] = none
latest s (e ∷ es) = or_else (latest s es) (if str_eq e.input.subject_ref s then some e else none)

find_node-set_node :
    (id : String) (n : Node) (ns : List Node)
    → find_node id (set_node n ns) ≡ (if str_eq n.id id then some n else find_node id ns)
find_node-set_node id n [] = refl
find_node-set_node id n (m ∷ ms) =
    ground (arith, find_node-set_node id n ms, eq_iff m.id n.id, eq_iff m.id id, eq_iff n.id id)

find_node-append :
    (id : String) (ns ms : List Node) (x : Node)
    → find_node id ns ≡ some x
    → find_node id (ns ++ ms) ≡ some x
find_node-append id [] ms x h = cc
find_node-append id (n ∷ ns) ms x h = ground (arith, find_node-append id ns ms x)

find_node-has_node :
    (id : String) (ns : List Node) → has_node id ns ≡ false → find_node id ns ≡ none
find_node-has_node id [] h = refl
find_node-has_node id (n ∷ ns) h = ground (arith, find_node-has_node id ns)

find_node-insert_by :
    (below : String → String → Bool) (id : String) (n : Node) (ns : List Node)
    → has_node n.id ns ≡ false
    → find_node id (insert_by below (λ n. n.id) n ns)
      ≡ (if str_eq n.id id then some n else find_node id ns)
find_node-insert_by below id n [] h = refl
find_node-insert_by below id n (m ∷ ms) h =
    ground
      (arith, find_node-insert_by below id n ms, eq_iff m.id n.id, eq_iff m.id id, eq_iff n.id id)

find_node-sort_by :
    (below : String → String → Bool) (id : String) (ns : List Node)
    → Unique ns
    → find_node id (sort_by below (λ n. n.id) ns) ≡ find_node id ns
unfolding sort_by
find_node-sort_by below id [] u = refl
find_node-sort_by below id (n ∷ ns) u =
    find_node-insert_by below id n (sort_by below (λ n. n.id) ns)
      (has_node-sort_by below n.id ns ∙ u.0)
    ∙ rw (find_node-sort_by below id ns u.1) refl

module _ (p : Platform) (below : String → String → Bool) where
  refer-find_node :
      (kind : String) (e : Event) (r id : String) (g : Graph) (x : Node)
      → find_node id g.nodes ≡ some x
      → find_node id (refer p below kind e r g).nodes ≡ some x
  refer-find_node kind e r id g x h = elim (Bool-cases (has_node r g.nodes)) [
    | inl there ↦ rw there h
    | inr new ↦ rw new (find_node-append id g.nodes (reference_node p below r e ∷ []) x h)
  ]

  refer_all-find_node :
      (kind : String) (e : Event) (rs : List String) (id : String) (g : Graph) (x : Node)
      → find_node id g.nodes ≡ some x
      → find_node id (refer_all p below kind e rs g).nodes ≡ some x
  refer_all-find_node kind e [] id g x h = h
  refer_all-find_node kind e (r ∷ rs) id g x h =
      refer_all-find_node kind e rs id (refer p below kind e r g) x
        (refer-find_node kind e r id g x h)

  -- References never change a node that is there.
  project_event-find_node :
      (e : Event) (id : String) (g : Graph) (x : Node)
      → find_node id (set_node (node_for p below e.input.subject_ref e) g.nodes) ≡ some x
      → find_node id (project_event p below e g).nodes ≡ some x
  unfolding project_event
  project_event-find_node e id g x h =
      refer_all-find_node "replaces" e (replaced p below e.input.replaces_ref) id _ x (
        refer_all-find_node "evidenced-by" e e.input.evidence_refs id _ x
          (refer_all-find_node "sourced-from" e e.input.source_refs id _ x h))

  node_for-id : (s : String) (e : Event) → (node_for p below s e).id ≡ s
  unfolding node_for
  node_for-id s e = refl

  project_event-own :
      (e : Event) (s : String) (g : Graph)
      → str_eq e.input.subject_ref s ≡ true
      → find_node s (project_event p below e g).nodes ≡ some (node_for p below s e)
  project_event-own e s g h =
      let same : e.input.subject_ref ≡ s = ground (arith, eq_iff e.input.subject_ref s, h) in
      let n = node_for p below e.input.subject_ref e in
      let named : str_eq n.id s ≡ true = rw (node_for-id e.input.subject_ref e) h in
      project_event-find_node e s g (node_for p below s e)
        (find_node-set_node s n g.nodes ∙ rw named (ap (λ r. some (node_for p below r e)) same))

  project_event-other :
      (e : Event) (s : String) (g : Graph) (x : Node)
      → str_eq e.input.subject_ref s ≡ false
      → find_node s g.nodes ≡ some x
      → find_node s (project_event p below e g).nodes ≡ some x
  project_event-other e s g x h there =
      let n = node_for p below e.input.subject_ref e in
      let other : str_eq n.id s ≡ false = rw (node_for-id e.input.subject_ref e) h in
      project_event-find_node e s g x (find_node-set_node s n g.nodes ∙ rw other there)

  project_events-kept :
      (es : List Event) (s : String) (g : Graph) (x : Node)
      → latest s es ≡ none
      → find_node s g.nodes ≡ some x
      → find_node s (project_events p below es g).nodes ≡ some x
  project_events-kept [] s g x h there = there
  project_events-kept (e ∷ es) s g x h there =
      let rest : latest s es ≡ none = or_else-none _ _ h in
      let other : str_eq e.input.subject_ref s ≡ false = ground (arith, rest) in
      project_events-kept es s (project_event p below e g) x rest
        (project_event-other e s g x other there)

  project_events-latest :
      (es : List Event) (s : String) (g : Graph) (e : Event)
      → latest s es ≡ some e
      → find_node s (project_events p below es g).nodes ≡ some (node_for p below s e)
  project_events-latest [] s g e h = cc
  project_events-latest (d ∷ es) s g e h = elim (Option-cases (latest s es)) [
    | inr (f, later) ↦
        let same : latest s es ≡ some e = later ∙ (rw later at h) in
        project_events-latest es s (project_event p below d g) e same
    | inl none_later ↦ elim (Bool-cases (str_eq d.input.subject_ref s)) [
      | inl mine ↦
          let same : d ≡ e = ground (arith, none_later, mine) in
          project_events-kept es s (project_event p below d g) (node_for p below s e) none_later (
            subst (λ e. find_node s (project_event p below d g).nodes ≡ some (node_for p below s e))
              same (project_event-own d s g mine))
      | inr other ↦ absurd (ground (arith, none_later, other))
    ]
  ]

-- If `e` is the last of the events about a subject, then the node of the projection with the subject's
-- id is the one of `e`: its status, its sequence and its id, whatever refers to the subject.
pub projection-latest :
    (p : Platform) (below : String → String → Bool) (es : List Event) (s : String) (e : Event)
    → latest s es ≡ some e
    → find_node s (projection p below es).nodes ≡ some (node_for p below s e)
unfolding projection
projection-latest p below es s e h =
    let start : Graph = record { nodes = []; edges = [] } in
    let c = project_events-IsClosed p below es start (record { unique = tt; ends = tt }) in
    find_node-sort_by below s (project_events p below es start).nodes c.unique
    ∙ project_events-latest p below es s start e h
