-- ===== src/Dict.antt =====
-- Go maps as association lists over any key type with an equality test. A map iterates in an
-- unspecified order; the list's order is one such order, and the theorems hold for every list.
use blipblop.Base.{
  ◌≡◌, Option, none, some, List, [], ◌∷◌, arith, if◌then◌else◌, Eq, Bool-cases, inl, inr, ◌==◌, All,
}

abbrev pub Dict {ℓ κ} : Type ℓ → Type κ → Type (ℓ ⊔ κ)
Dict K V = List (K × V)

module _ {ℓ κ} {K : Type ℓ} {V : Type κ} ⦃e : Eq K⦄ where
  -- `v, ok := m[k]`
  abbrev pub lookup : K → Dict K V → Option V
  lookup k [] = none
  lookup k ((j, v) ∷ m) = if j == k then some v else lookup k m

  -- `delete(m, k)`
  abbrev pub remove : K → Dict K V → Dict K V
  remove k [] = []
  remove k ((j, v) ∷ m) = let rest = remove k m in if j == k then rest else (j, v) ∷ rest

  -- `m[k] = v`
  abbrev pub insert : K → V → Dict K V → Dict K V
  insert k v m = (k, v) ∷ remove k m

  pub lookup-remove :
      (k j : K) (m : Dict K V) → lookup j (remove k m) ≡ (if k == j then none else lookup j m)
  lookup-remove k j [] = ground arith
  lookup-remove k j ((i, v) ∷ m) =
      ground (arith, lookup-remove k j m, e.beq_iff i k, e.beq_iff i j, e.beq_iff k j)

  pub All-remove : (P : K × V → Type 0) (k : K) (m : Dict K V) → All P m → All P (remove k m)
  All-remove P k [] w = tt
  All-remove P k ((j, v) ∷ m) w = elim (Bool-cases (j == k)) [
    | inl same ↦ rw same (All-remove P k m w.1)
    | inr other ↦ rw other (w.0, All-remove P k m w.1)
  ]

  pub lookup-insert :
      (k j : K) (v : V) (m : Dict K V)
      → lookup j (insert k v m) ≡ (if k == j then some v else lookup j m)
  lookup-insert k j v m = ground (arith, lookup-remove k j m)

module _ {ℓ κ} {K : Type ℓ} {V : Type κ} ⦃e : Eq K⦄ where
  -- The keys of a map are distinct.
  abbrev pub IsMap : Dict K V → Type κ
  IsMap [] = Unit
  IsMap ((k, v) ∷ m) = (lookup k m ≡ none) × IsMap m

  lookup-remove-none : (k j : K) (m : Dict K V) → lookup j m ≡ none → lookup j (remove k m) ≡ none
  lookup-remove-none k j m h = ground (arith, lookup-remove k j m)

  pub remove-IsMap : (k : K) (m : Dict K V) → IsMap m → IsMap (remove k m)
  remove-IsMap k [] w = tt
  remove-IsMap k ((j, v) ∷ m) w = elim (Bool-cases (j == k)) [
    | inl same ↦ rw same (remove-IsMap k m w.1)
    | inr other ↦ rw other (lookup-remove-none k j m w.0, remove-IsMap k m w.1)
  ]

pub ruleset dict_laws = (lookup-remove, lookup-insert)
