-- ===== src/Labels/Laws.antt =====
-- pkg/labels/labels.go: the selectors and label maps.
use blipblop.Base.{
  Text, ◌≡◌, refl, ◌↔◌, true, false, ◌&&◌, ◌||◌, none, some, List, [], ◌∷◌, arith, list_eq, nat_eq,
  list_beq_iff,
}
use blipblop.Dict.{lookup, IsMap, lookup-insert}
use blipblop.Labels.{
  Label, value_at, set, append_map, set_of, exists, matches, all_match, equalities,
  new_composite_selector_from_map,
}

-- A label set carries each pair of the map.
abbrev pub Carries : Label → Label → Type 0
Carries l [] = Unit {0}
Carries l ((key, value) ∷ m) = (value_at key l ≡ value) × Carries l m

equalities-Carries : (m l : Label) → (all_match (equalities m) l ≡ true) ↔ Carries l m
unfolding matches equalities
equalities-Carries [] l = (λ _. tt, λ _. refl)
equalities-Carries ((key, value) ∷ m) l =
    ground (arith, list_beq_iff (value_at key l) value, equalities-Carries m l)

-- `Carries` does not depend on the order in which the map is read.
Carries-lookup :
    (m l : Label) → IsMap m → Carries l m → (k v : Text) → lookup k m ≡ some v → value_at k l ≡ v
Carries-lookup [] l w c k v h = cc
Carries-lookup ((key, value) ∷ m) l w c k v h =
    ground (arith, list_beq_iff key k, Carries-lookup m l w.1 c.1 k v)

lookup-Carries :
    (m l : Label) → IsMap m → ((k v : Text) → lookup k m ≡ some v → value_at k l ≡ v) → Carries l m
lookup-Carries [] l w h = tt
lookup-Carries ((key, value) ∷ m) l w h = (
  h key value (ground (arith, list_beq_iff key key)),
  lookup-Carries m l w.1 (λ k v p. h k v (ground (arith, list_beq_iff key k, w.0))),
)

-- For a map with distinct keys, the composite selector made of it matches a label set exactly when
-- every entry has its value there, a missing label counting as the empty string.
pub new_composite_selector_from_map_iff :
    (m l : Label)
    → IsMap m
    → (matches (new_composite_selector_from_map m) l ≡ true)
      ↔ ((k v : Text) → lookup k m ≡ some v → value_at k l ≡ v)
unfolding matches new_composite_selector_from_map
new_composite_selector_from_map_iff m l w = (
  λ h. Carries-lookup m l w ((equalities-Carries m l).0 h),
  λ h. (equalities-Carries m l).1 (lookup-Carries m l w h),
)

-- A SetSelector and its negation match together the label sets that have the key, and never both.
pub set_of_complement :
    (key : Text) (values : List Text) (l : Label)
    → ((matches (set_of key values true) l || matches (set_of key values false) l)
        ≡ matches (exists key) l)
      × ((matches (set_of key values true) l && matches (set_of key values false) l) ≡ false)
unfolding matches
set_of_complement key values l = (ground arith, ground arith)

-- After AppendMap of a map with distinct keys, a key of the map has the map's value, and any other
-- key has the value that it had.
pub lookup-append_map :
    (l m : Label) (k : Text)
    → IsMap m
    → lookup k (append_map l m) ≡ elim (lookup k m) [ none ↦ lookup k l | some v ↦ some v ]
unfolding append_map set
lookup-append_map l [] k w = refl
lookup-append_map l ((key, value) ∷ m) k w = ground (
  arith,
  list_beq_iff key k,
  lookup-append_map (set l key value) m k w.1,
  lookup-insert key k value l,
)
