-- ===== src/Merging.antt =====
-- pkg/protoutils/protoutils.go: `MergeSlices`, and what internal/app/task.go merges with it.
-- `nil` is the zero value of the items, which a Go map returns for a key that it does not have.
pub mod Values
pub mod Conditions
use blipblop.Base.{
  ℕ, Text, Bool, true, false, not, Option, none, some, List, [], ◌∷◌, ◌++◌, ltb, list_eq, nat_eq,
  ◌==◌, if◌then◌else◌,
}
use blipblop.Dict.{Dict, lookup, insert}
use blipblop.Api.{Condition, EnvVar, PortMapping, Mount}

module _ {A : Type 0} (nil : A) (key : A → Text) (merge_item : A → A → A) where
  -- the map and the order of its keys
  abbrev pub Merged : Type 0
  Merged = Dict Text A × List Text

  pub add_base : List A → Merged → Merged
  add_base [] m = m
  add_base (item ∷ rest) (base_map, order) =
      add_base rest (insert (key item) item base_map, order ++ key item ∷ [])

  pub add_patch : A → Merged → Option A → Merged
  add_patch p (base_map, order) (some old) = (insert (key p) (merge_item old p) base_map, order)
  add_patch p (base_map, order) none = (insert (key p) p base_map, order ++ key p ∷ [])

  pub add_patches : List A → Merged → Merged
  unfolding add_patch
  add_patches [] m = m
  add_patches (p ∷ rest) m = add_patches rest (add_patch p m (lookup (key p) m.0))

  pub or_nil : Option A → A
  or_nil none = nil
  or_nil (some a) = a

  pub in_order : List Text → Dict Text A → List A
  unfolding or_nil
  in_order [] base_map = []
  in_order (k ∷ ks) base_map = or_nil (lookup k base_map) ∷ in_order ks base_map

  unfoldable pub merge_slices : List A → List A → List A
  unfolding add_base add_patches in_order
  merge_slices base patch = let m = add_patches patch (add_base base ([], [])) in in_order m.1 m.0

abbrev get_value : Option Text → Text
get_value none = []
get_value (some t) = t

unfoldable pub condition_type : Condition → Text
condition_type c = get_value c.kind

newer_of : Condition → Condition → Option ℕ → Option ℕ → Condition
newer_of existing incoming seen none = existing
newer_of existing incoming none (some t) = incoming
newer_of existing incoming (some s) (some t) = if ltb s t then incoming else existing

unfoldable pub newer : Condition → Condition → Condition
unfolding newer_of
newer existing incoming =
    newer_of existing incoming existing.last_transition_time incoming.last_transition_time

abbrev pub nil_condition : Condition
nil_condition = record {
  kind = none;
  status = none;
  reason = none;
  msg = none;
  last_transition_time = none;
}

unfoldable pub merge_conditions : List Condition → List Condition → List Condition
unfolding merge_slices condition_type newer
merge_conditions existing incoming =
    merge_slices nil_condition condition_type newer existing incoming

-- The lists that `merge` puts together, where the patch has a config.
merge_envvar : EnvVar → EnvVar → EnvVar
merge_envvar b p = if not (p.value == []) then record b { value = p.value } else b

unfoldable pub merge_envvars : List EnvVar → List EnvVar → List EnvVar
unfolding merge_slices merge_envvar
merge_envvars = merge_slices (record { name = []; value = [] }) (λ e. e.name) merge_envvar

merge_port_mapping : PortMapping → PortMapping → PortMapping
merge_port_mapping b p = if not (p.target_port == 0) then p else b

abbrev nil_port_mapping : PortMapping
nil_port_mapping = record { name = []; host_port = 0; target_port = 0; protocol = []; host_ip = [] }

unfoldable pub merge_port_mappings : List PortMapping → List PortMapping → List PortMapping
unfolding merge_slices merge_port_mapping
merge_port_mappings = merge_slices nil_port_mapping (λ e. e.name) merge_port_mapping

abbrev nil_mount : Mount
nil_mount = record {
  name = [];
  destination = [];
  kind = [];
  volume = [];
  source = [];
  options = [];
}

unfoldable pub merge_mounts : List Mount → List Mount → List Mount
unfolding merge_slices
merge_mounts = merge_slices nil_mount (λ e. e.name) (λ b p. p)

unfoldable pub merge_args : List Text → List Text → List Text
unfolding merge_slices
merge_args = merge_slices [] (λ e. e) (λ b p. if not (p == []) then p else b)
