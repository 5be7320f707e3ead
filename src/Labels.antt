-- ===== src/Labels.antt =====
-- pkg/labels/labels.go: labels and the selectors that match them.
pub mod Laws
use mathlib.Core.Option.{get_or}
use blipblop.Base.{
  ℕ, Text, Bool, true, false, not, ◌&&◌, ◌||◌, Option, none, some, List, [], ◌∷◌, if◌then◌else◌,
  ◌==◌, list_eq, nat_eq,
}
use blipblop.Dict.{Dict, lookup, insert, remove}

abbrev pub Label : Type 0
Label = Dict Text Text

-- `labels[key]`, which is the empty string for a missing key
abbrev pub value_at : Text → Label → Text
value_at key l = get_or (lookup key l) []

unfoldable pub get : Label → Text → Text
get l key = elim (lookup key l) [ none ↦ [] | some val ↦ val ]

unfoldable pub set : Label → Text → Text → Label
set l key value = insert key value l

unfoldable pub delete : Label → Text → Label
delete l key = remove key l

unfoldable pub append_map : Label → Label → Label
append_map l [] = l
append_map l ((k, v) ∷ m) = append_map (set l k v) m

-- `slices.Contains`
abbrev contains : List Text → Text → Bool
contains [] v = false
contains (x ∷ xs) v = x == v || contains xs v

-- The implementations of the `Selector` interface.
mutual
  pub data Selector : Type 0 where
    equality : Text → Text → Selector
    set_of : Text → List Text → Bool → Selector
    exists : Text → Selector
    composite : Selectors → Selector

  pub data Selectors : Type 0 where
    nil : Selectors
    cons : Selector → Selectors → Selectors

exists_in : Option Text → Bool
exists_in none = false
exists_in (some _) = true

set_matches : List Text → Bool → Option Text → Bool
set_matches values within none = false
set_matches values within (some value) = if contains values value then within else not within

unfoldable mutual
  unfolding exists_in set_matches

  pub matches : Selector → Label → Bool
  matches (equality key value) l = value_at key l == value
  matches (set_of key values within) l = set_matches values within (lookup key l)
  matches (exists key) l = exists_in (lookup key l)
  matches (composite s) l = all_match s l

  pub all_match : Selectors → Label → Bool
  all_match nil l = true
  all_match (cons s rest) l =
      let later = all_match rest l in if not (matches s l) then false else later

-- the loop of `NewCompositeSelectorFromMap`
equalities : Label → Selectors
equalities [] = nil
equalities ((key, value) ∷ m) = cons (equality key value) (equalities m)

unfoldable pub new_composite_selector_from_map : Label → Selector
unfolding equalities
new_composite_selector_from_map label_map = composite (equalities label_map)
