-- ===== src/Scheduling/Placement.antt =====
-- pkg/scheduling/horizontal.go: where the scheduler places a task.
use mathlib.Core.Option.{some-injective}
use blipblop.Base.{
  ℕ, suc, ◌≡◌, ◌↔◌, ◌<◌, true, some, List, [], ◌∷◌, arith, list_eq, nat_eq, Bool-cases, inl, inr,
  ◌⊎◌, Any, length, get_elem?, get_elem?-lt, zero,
}
use blipblop.Errs.{ok, err, no_matching_node}
use blipblop.Labels.{matches, new_composite_selector_from_map}
use blipblop.Api.{Node, Task}
use blipblop.Scheduling.{filter_by_node_selector, has_matching_nodes, schedule}

-- The node has the labels that the task selects.
abbrev pub IsFit : Task → Node → Type 0
IsFit t node =
    matches (new_composite_selector_from_map t.config.node_selector) node.meta.labels ≡ true

has_matching_nodes_iff :
    (t : Task) (nodes : List Node)
    → (has_matching_nodes t.config.node_selector nodes ≡ true) ↔ Any (IsFit t) nodes
unfolding has_matching_nodes
has_matching_nodes_iff t [] = (λ h. ground arith, λ h. absurd h)
has_matching_nodes_iff t (node ∷ rest) = ground (arith, has_matching_nodes_iff t rest)

has_matching_nodes-length :
    (t : Task) (nodes : List Node)
    → has_matching_nodes t.config.node_selector nodes ≡ true
    → 0 < length nodes
unfolding has_matching_nodes
has_matching_nodes-length t [] h = cc
has_matching_nodes-length t (node ∷ rest) h = omega arith

-- The filtered list is not empty when some node fits.
filter-length :
    (t : Task) (nodes : List Node)
    → Any (IsFit t) nodes
    → 0 < length (filter_by_node_selector nodes t.config.node_selector)
unfolding filter_by_node_selector
filter-length t [] h = absurd h
filter-length t (node ∷ rest) h = ground (arith, filter-length t rest)

-- An element of the filtered list is one of the nodes, and it fits.
filter-get_elem? :
    (t : Task) (nodes : List Node) (i : ℕ) (n : Node)
    → get_elem? (filter_by_node_selector nodes t.config.node_selector) i ≡ some n
    → IsFit t n × Any (λ m. m ≡ n) nodes
unfolding filter_by_node_selector
filter-get_elem? t [] i n h = cc
filter-get_elem? t (node ∷ rest) zero n h =
    elim (Bool-cases
      (matches (new_composite_selector_from_map t.config.node_selector) node.meta.labels)) [
        | inl fit ↦
            let same : node ≡ n = some-injective node n (rw fit at h) in (rw (← same) fit, inl same)
        | inr unfit ↦
            let found = filter-get_elem? t rest zero n (rw unfit at h) in (found.0, inr found.1)
      ]
filter-get_elem? t (node ∷ rest) (suc i) n h =
    elim (Bool-cases
      (matches (new_composite_selector_from_map t.config.node_selector) node.meta.labels)) [
        | inl fit ↦ let found = filter-get_elem? t rest i n (rw fit at h) in (found.0, inr found.1)
        | inr unfit ↦
            let found = filter-get_elem? t rest (suc i) n (rw unfit at h) in (found.0, inr found.1)
      ]

-- With a random source that answers below its bound, Schedule returns a node of the cluster whose
-- labels match the task's selector, or ErrSchedulingNoMatchingNode if there is none.
pub schedule_lem :
    (intn : ℕ → ℕ) (t : Task) (nodes : List Node)
    → ((n : ℕ) → 0 < n → intn n < n)
    → ((node : Node) × (schedule intn t nodes ≡ ok node) × IsFit t node × Any (λ m. m ≡ node) nodes)
      ⊎ ((schedule intn t nodes ≡ err no_matching_node) × ¬ Any (IsFit t) nodes)
unfolding schedule
schedule_lem intn t nodes bound =
    elim (Bool-cases (has_matching_nodes t.config.node_selector nodes)) [
      | inl some_fit ↦
          let fit = (has_matching_nodes_iff t nodes).0 some_fit in
          let many = filter-length t nodes fit in
          let (node, e) =
            get_elem?-lt (filter_by_node_selector nodes t.config.node_selector) _ (bound _ many) in
          let (good, here) = filter-get_elem? t nodes _ node e in
          inl (node, ground (arith, has_matching_nodes-length t nodes), good, here)
      | inr none_fit ↦
          inr (rw none_fit, λ fit. cc (none_fit, (has_matching_nodes_iff t nodes).1 fit))
    ]
