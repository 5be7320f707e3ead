-- ===== src/Scheduling.antt =====
-- pkg/scheduling: the horizontal scheduler, which picks a random node among those whose labels
-- match the task's node selector. The node lists hold no nil pointers; `proto.Clone` and
-- `util.CopyList` copy a node, so a copy is the value itself.
pub mod Placement
use blipblop.Base.{
  ℕ, Text, Bool, true, false, not, Option, none, some, List, [], ◌∷◌, if◌then◌else◌, ◌==◌, list_eq,
  nat_eq, length, get_elem?, leb, ltb,
}
use blipblop.Errs.{Err, Result, ok, err, panic, no_node, no_matching_node, ◌>>=◌, ◌>>◌, guard}
use blipblop.Labels.{Label, Selector, matches, new_composite_selector_from_map}
use blipblop.Api.{Node, Task, Meta}

unfoldable pub exclude_by_name : List Node → Text → List Node
exclude_by_name [] name = []
exclude_by_name (node ∷ rest) name =
    let result = exclude_by_name rest name in
    if not (name == node.meta.name) then node ∷ result else result

unfoldable pub filter_by_node_selector : List Node → Label → List Node
filter_by_node_selector [] l = []
filter_by_node_selector (node ∷ rest) l =
    let result = filter_by_node_selector rest l in
    if matches (new_composite_selector_from_map l) node.meta.labels then node ∷ result else result

unfoldable pub filter_by_state : List Node → Text → List Node
filter_by_state [] state = []
filter_by_state (node ∷ rest) state =
    let result = filter_by_state rest state in if state == node.phase then node ∷ result else result

-- `original[i]` of an index out of range panics.
index {ℓ} : {A : Type ℓ} → List A → ℕ → Result A
index xs i = elim (get_elem? xs i) [ none ↦ panic | some x ↦ ok x ]

-- `intn n` is what `r.Intn(n)` returned.
unfoldable pub pick_random_node : (ℕ → ℕ) → List Node → Result Node
unfolding index
pick_random_node intn original =
    if leb (length original) 0 then err no_node else index original (intn (length original))

unfoldable pub has_matching_nodes : Label → List Node → Bool
has_matching_nodes selector [] = false
has_matching_nodes selector (node ∷ rest) =
    let later = has_matching_nodes selector rest in
    if matches (new_composite_selector_from_map selector) node.meta.labels then true else later

unfoldable pub schedule : (ℕ → ℕ) → Task → List Node → Result Node
unfolding pick_random_node filter_by_node_selector has_matching_nodes
schedule intn t all_nodes = do
  guard (has_matching_nodes t.config.node_selector all_nodes) no_matching_node
  guard (not (ltb (length all_nodes) 1)) no_node
  pick_random_node intn (filter_by_node_selector all_nodes t.config.node_selector)
