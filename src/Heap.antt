-- ===== src/Heap.antt =====
-- Shared objects: a pointer is a number, and the heap gives the object that it points to.
use blipblop.Base.{ℕ, ◌≡◌, ◌≢◌, ◌⊎◌, inl, inr, if◌then◌else◌, ◌==◌, nat_eq, nat_beq_iff, Bool-cases}

module _ {ℓ} {A : Type ℓ} where
  abbrev pub store : ℕ → A → (ℕ → A) → ℕ → A
  store p x h q = if p == q then x else h q

  pub store-cases :
      (p q : ℕ) (x : A) (h : ℕ → A)
      → ((p ≡ q) × (store p x h q ≡ x)) ⊎ ((p ≢ q) × (store p x h q ≡ h q))
  store-cases p q x h = elim (Bool-cases (p == q)) [
    | inl same ↦ inl ((nat_beq_iff p q).0 same, rw same)
    | inr other ↦ inr (λ e. cc ((nat_beq_iff p q).1 e, other), rw other)
  ]
