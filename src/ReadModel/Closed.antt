-- ===== src/ReadModel/Closed.antt =====
-- The graph of src/read-model.mts has both ends of each edge, and one node for each id.
use agent_context_broker.Prelude.{
  ◌≡◌, refl, sym, ap, ◌∙◌, String, Bool, true, false, ◌||◌, List, [], ◌∷◌, ◌++◌, arith, eq_iff,
  Bool-cases, inl, inr, All, All-append, str_eq,
}
use agent_context_broker.Platform.{Platform}
use agent_context_broker.EventStore.Event.{Event}
use agent_context_broker.ReadModel.Graph.{
  Node, Edge, Graph, has_node, set_node, insert_by, sort_by, node_for, reference_node, edge, refer,
  refer_all, replaced, project_event, project_events, projection,
}

has_node-set_node :
    (id : String) (n : Node) (ns : List Node)
    → has_node id (set_node n ns) ≡ (has_node id ns || str_eq n.id id)
has_node-set_node id n [] = ground arith
has_node-set_node id n (m ∷ ms) =
    ground (arith, has_node-set_node id n ms, eq_iff m.id n.id, eq_iff m.id id, eq_iff n.id id)

has_node-append :
    (id : String) (ns ms : List Node) → has_node id (ns ++ ms) ≡ (has_node id ns || has_node id ms)
has_node-append id [] ms = refl
has_node-append id (n ∷ ns) ms = ground (arith, has_node-append id ns ms)

-- No id stands at two nodes.
abbrev pub Unique : List Node → Type 0
Unique [] = Unit
Unique (n ∷ ns) = (has_node n.id ns ≡ false) × Unique ns

Unique-set_node : (n : Node) (ns : List Node) → Unique ns → Unique (set_node n ns)
Unique-set_node n [] u = (refl, tt)
Unique-set_node n (m ∷ ms) u = elim (Bool-cases (str_eq m.id n.id)) [
  | inl same ↦
      let id : m.id ≡ n.id = ground (arith, eq_iff m.id n.id, same) in
      rw same (ap (λ i. has_node i ms) (sym id) ∙ u.0, u.1)
  | inr other ↦
      let apart : str_eq n.id m.id ≡ false =
        ground (arith, eq_iff n.id m.id, eq_iff m.id n.id, other) in
      rw other (has_node-set_node m.id n ms ∙ ground (arith, apart, u.0), Unique-set_node n ms u.1)
]

Unique-snoc :
    (ns : List Node) (n : Node) → Unique ns → has_node n.id ns ≡ false → Unique (ns ++ n ∷ [])
Unique-snoc [] n u h = (refl, tt)
Unique-snoc (m ∷ ms) n u h =
    let apart : str_eq n.id m.id ≡ false = ground (arith, eq_iff n.id m.id, eq_iff m.id n.id, h) in
    (
      has_node-append m.id ms (n ∷ []) ∙ ground (arith, apart, u.0),
      Unique-snoc ms n u.1 (ground (arith, h)),
    )

has_node-insert_by :
    (below : String → String → Bool) (id : String) (n : Node) (ns : List Node)
    → has_node id (insert_by below (λ n. n.id) n ns) ≡ (str_eq n.id id || has_node id ns)
has_node-insert_by below id n [] = refl
has_node-insert_by below id n (m ∷ ms) = ground (arith, has_node-insert_by below id n ms)

Unique-insert_by :
    (below : String → String → Bool) (n : Node) (ns : List Node)
    → Unique ns
    → has_node n.id ns ≡ false
    → Unique (insert_by below (λ n. n.id) n ns)
Unique-insert_by below n [] u h = (refl, tt)
Unique-insert_by below n (m ∷ ms) u h =
    let apart : str_eq n.id m.id ≡ false = ground (arith, eq_iff n.id m.id, eq_iff m.id n.id, h) in
    elim (Bool-cases (below m.id n.id)) [
      | inl later ↦ rw later (
        has_node-insert_by below m.id n ms ∙ ground (arith, apart, u.0),
        Unique-insert_by below n ms u.1 (ground (arith, h)),
      )
      | inr here ↦ rw here (h, u)
    ]

pub has_node-sort_by :
    (below : String → String → Bool) (id : String) (ns : List Node)
    → has_node id (sort_by below (λ n. n.id) ns) ≡ has_node id ns
unfolding sort_by
has_node-sort_by below id [] = refl
has_node-sort_by below id (n ∷ ns) =
    has_node-insert_by below id n (sort_by below (λ n. n.id) ns)
    ∙ rw (has_node-sort_by below id ns) refl

Unique-sort_by :
    (below : String → String → Bool) (ns : List Node)
    → Unique ns
    → Unique (sort_by below (λ n. n.id) ns)
unfolding sort_by
Unique-sort_by below [] u = tt
Unique-sort_by below (n ∷ ns) u =
    Unique-insert_by below n (sort_by below (λ n. n.id) ns) (Unique-sort_by below ns u.1)
      (has_node-sort_by below n.id ns ∙ u.0)

-- Both ends of an edge are nodes.
abbrev pub Ends : List Node → Edge → Type 0
Ends ns e = (has_node e.source ns ≡ true) × (has_node e.target ns ≡ true)

All-insert_by :
    (below : String → String → Bool) (P : Edge → Type 0) (e : Edge) (es : List Edge)
    → P e
    → All P es
    → All P (insert_by below (λ e. e.id) e es)
All-insert_by below P e [] h hs = (h, tt)
All-insert_by below P e (d ∷ ds) h hs = elim (Bool-cases (below d.id e.id)) [
  | inl later ↦ rw later (hs.0, All-insert_by below P e ds h hs.1)
  | inr here ↦ rw here (h, hs)
]

All-sort_by :
    (below : String → String → Bool) (P : Edge → Type 0) (es : List Edge)
    → All P es
    → All P (sort_by below (λ e. e.id) es)
unfolding sort_by
All-sort_by below P [] hs = tt
All-sort_by below P (e ∷ es) hs =
    All-insert_by below P e (sort_by below (λ e. e.id) es) hs.0 (All-sort_by below P es hs.1)

All-Ends :
    (ns ms : List Node) (es : List Edge)
    → ((id : String) → has_node id ns ≡ true → has_node id ms ≡ true)
    → All (Ends ns) es
    → All (Ends ms) es
All-Ends ns ms [] more h = tt
All-Ends ns ms (e ∷ es) more h =
    ((more e.source h.0.0, more e.target h.0.1), All-Ends ns ms es more h.1)

module _ (p : Platform) (below : String → String → Bool) where
  pub record IsClosed (g : Graph) : Type 0 where
    pub unique : Unique g.nodes
    pub ends : All (Ends g.nodes) g.edges

  refer-nodes :
      (kind : String) (e : Event) (r id : String) (g : Graph)
      → has_node id g.nodes ≡ true
      → has_node id (refer p below kind e r g).nodes ≡ true
  refer-nodes kind e r id g h = elim (Bool-cases (has_node r g.nodes)) [
    | inl there ↦ rw there h
    | inr new ↦ rw new (has_node-append id g.nodes (reference_node p below r e ∷ []) ∙ rw h refl)
  ]

  refer-target :
      (kind : String) (e : Event) (r : String) (g : Graph)
      → has_node r (refer p below kind e r g).nodes ≡ true
  unfolding reference_node
  refer-target kind e r g = elim (Bool-cases (has_node r g.nodes)) [
    | inl there ↦ rw there there
    | inr new ↦
        let mine : str_eq r r ≡ true = ground (arith, eq_iff r r) in
        rw new (has_node-append r g.nodes (reference_node p below r e ∷ []) ∙ rw (new, mine) refl)
  ]

  refer-unique :
      (kind : String) (e : Event) (r : String) (g : Graph)
      → Unique g.nodes
      → Unique (refer p below kind e r g).nodes
  unfolding reference_node
  refer-unique kind e r g u = elim (Bool-cases (has_node r g.nodes)) [
    | inl there ↦ rw there u
    | inr new ↦ rw new (Unique-snoc g.nodes (reference_node p below r e) u new)
  ]

  refer-IsClosed :
      (kind : String) (e : Event) (r : String) (g : Graph)
      → IsClosed g
      → has_node e.input.subject_ref g.nodes ≡ true
      → IsClosed (refer p below kind e r g)
  unfolding edge
  refer-IsClosed kind e r g c h =
      let grown = (refer p below kind e r g).nodes in
      record {
        unique = refer-unique kind e r g c.unique;
        ends =
            All-append (Ends grown) g.edges (edge p below e.input.subject_ref r kind e ∷ [])
              (All-Ends g.nodes grown g.edges (λ id. refer-nodes kind e r id g) c.ends)
              ((refer-nodes kind e r e.input.subject_ref g h, refer-target kind e r g), tt);
      }

  refer_all-IsClosed :
      (kind : String) (e : Event) (rs : List String) (g : Graph)
      → IsClosed g
      → has_node e.input.subject_ref g.nodes ≡ true
      → IsClosed (refer_all p below kind e rs g)
        × (has_node e.input.subject_ref (refer_all p below kind e rs g).nodes ≡ true)
  refer_all-IsClosed kind e [] g c h = (c, h)
  refer_all-IsClosed kind e (r ∷ rs) g c h =
      refer_all-IsClosed kind e rs (refer p below kind e r g) (refer-IsClosed kind e r g c h)
        (refer-nodes kind e r e.input.subject_ref g h)

  noted-IsClosed :
      (e : Event) (g : Graph)
      → IsClosed g
      → IsClosed (record {
        nodes = set_node (node_for p below e.input.subject_ref e) g.nodes;
        edges = g.edges;
      })
        × (has_node e.input.subject_ref (set_node (node_for p below e.input.subject_ref e) g.nodes)
            ≡ true)
  unfolding node_for
  noted-IsClosed e g c =
      let n = node_for p below e.input.subject_ref e in
      let mine : str_eq e.input.subject_ref e.input.subject_ref ≡ true =
        ground (arith, eq_iff e.input.subject_ref e.input.subject_ref) in
      (
        record {
          unique = Unique-set_node n g.nodes c.unique;
          ends =
              All-Ends g.nodes (set_node n g.nodes) g.edges
                (λ id h. has_node-set_node id n g.nodes ∙ rw h refl) c.ends;
        },
        has_node-set_node e.input.subject_ref n g.nodes ∙ ground (arith, mine),
      )

  project_event-IsClosed :
      (e : Event) (g : Graph) → IsClosed g → IsClosed (project_event p below e g)
  unfolding project_event
  project_event-IsClosed e g c =
      let (noted, h) = noted-IsClosed e g c in
      let (sourced, h1) = refer_all-IsClosed "sourced-from" e e.input.source_refs _ noted h in
      let (evidenced, h2) =
        refer_all-IsClosed "evidenced-by" e e.input.evidence_refs _ sourced h1 in
      (refer_all-IsClosed "replaces" e (replaced p below e.input.replaces_ref) _ evidenced h2).0

  pub project_events-IsClosed :
      (es : List Event) (g : Graph) → IsClosed g → IsClosed (project_events p below es g)
  project_events-IsClosed [] g c = c
  project_events-IsClosed (e ∷ es) g c =
      project_events-IsClosed es (project_event p below e g) (project_event-IsClosed e g c)

-- Whatever the events and the order of texts are, no two nodes of the projection have one id, and both
-- ends of each of its edges are nodes.
pub projection-IsClosed :
    (p : Platform) (below : String → String → Bool) (es : List Event)
    → Unique (projection p below es).nodes
      × All (Ends (projection p below es).nodes) (projection p below es).edges
unfolding projection
projection-IsClosed p below es =
    let start : Graph = record { nodes = []; edges = [] } in
    let g = project_events p below es start in
    let c = project_events-IsClosed p below es start (record { unique = tt; ends = tt }) in
    let sorted = sort_by below (λ n. n.id) g.nodes in
    (
      Unique-sort_by below g.nodes c.unique,
      All-sort_by below (Ends sorted) g.edges
          (All-Ends g.nodes sorted g.edges (λ id h. has_node-sort_by below id g.nodes ∙ h) c.ends),
    )
