-- ===== src/Kv/Table.antt =====
-- A store that is one map: a value of the interface `ScanKv`.
use blipblop.Base.{
  Text, ◌≡◌, ◌≢◌, ◌↔◌, refl, ap, Bool, true, false, none, some, List, [], ◌∷◌, ◌++◌, if◌then◌else◌,
  ◌==◌, list_eq, nat_eq, list_beq_iff, arith, Any, inl, inr, Bool-cases,
}
use blipblop.Dict.{Dict, lookup, remove, insert, lookup-remove, lookup-insert}
use blipblop.Kv.{ScanKv}

unfoldable pub starts_with : Text → Text → Bool
starts_with [] k = true
starts_with (p ∷ ps) [] = false
starts_with (p ∷ ps) (c ∷ cs) = let rest = starts_with ps cs in if p == c then rest else false

starts_with_iff : (p k : Text) → (starts_with p k ≡ true) ↔ ((rest : Text) × (k ≡ p ++ rest))
unfolding starts_with
starts_with_iff [] k = (λ _. (k, refl), λ _. refl)
starts_with_iff (p ∷ ps) [] = (λ h. absurd (cc h), λ h. absurd (cc h.1))
starts_with_iff (p ∷ ps) (c ∷ cs) = (
  λ h. let (rest, e) = (starts_with_iff ps cs).0 (ground arith) in (rest, ground (arith, e)),
  λ h. ground (arith, (starts_with_iff ps cs).1 (h.0, ground (arith, h.1)), h.1),
)

unfoldable pub keys_of : Dict Text Text → Text → List Text
keys_of [] prefix = []
keys_of ((k, v) ∷ m) prefix =
    let rest = keys_of m prefix in if starts_with prefix k then k ∷ rest else rest

keys_of_iff :
    (m : Dict Text Text) (prefix k : Text)
    → Any (λ j. j ≡ k) (keys_of m prefix) ↔ ((starts_with prefix k ≡ true) × (lookup k m ≢ none))
unfolding keys_of
keys_of_iff [] prefix k = (λ h. absurd h, λ h. absurd (h.1 refl))
keys_of_iff ((j, v) ∷ m) prefix k = elim (Bool-cases (starts_with prefix j)) [
  | inl begins ↦ rw begins (
    λ h. ground (arith, h, (keys_of_iff m prefix k).0, list_beq_iff j k),
    λ h. elim (Bool-cases (j == k)) [
      | inl same ↦ inl ((list_beq_iff j k).0 same)
      | inr other ↦ inr ((keys_of_iff m prefix k).1 (h.0, rw other at h.1))
    ],
  )
  | inr no_match ↦ rw no_match (
    λ h. ground (arith, h, (keys_of_iff m prefix k).0, list_beq_iff j k),
    λ h. elim (Bool-cases (j == k)) [
      | inl same ↦ absurd (cc (ap (starts_with prefix) ((list_beq_iff j k).0 same), no_match, h.0))
      | inr other ↦ (keys_of_iff m prefix k).1 (h.0, rw other at h.1)
    ],
  )
]

unfoldable pub put : Dict Text Text → Text → Text → Dict Text Text
put m k v = insert k v m

unfoldable pub drop_key : Dict Text Text → Text → Dict Text Text
drop_key m k = remove k m

pub get-put :
    (m : Dict Text Text) (k v j : Text)
    → lookup j (put m k v) ≡ (if k == j then some v else lookup j m)
unfolding put
get-put m k v j = lookup-insert k j v m

pub get-drop_key :
    (m : Dict Text Text) (k j : Text)
    → lookup j (drop_key m k) ≡ (if k == j then none else lookup j m)
unfolding drop_key
get-drop_key m k j = lookup-remove k j m

pub keys_law :
    (m : Dict Text Text) (prefix k : Text)
    → Any (λ j. j ≡ k) (keys_of m prefix)
      ↔ (((rest : Text) × (k ≡ prefix ++ rest)) × (lookup k m ≢ none))
keys_law m prefix k = (
  λ h.
      let (begins, bound) = (keys_of_iff m prefix k).0 h in
      ((starts_with_iff prefix k).0 begins, bound),
  λ h. (keys_of_iff m prefix k).1 ((starts_with_iff prefix k).1 h.0, h.1),
)

abbrev pub table_kv : ScanKv
table_kv = record {
  kv = record {
    Store = Dict Text Text;
    get = λ m k. lookup k m;
    set = put;
    delete = drop_key;
    get-set = get-put;
    get-delete = get-drop_key;
  };
  keys = keys_of;
  keys_iff = keys_law;
}
