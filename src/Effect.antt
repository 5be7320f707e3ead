-- ===== src/Effect.antt =====
-- Code that changes a state of type `W` and may fail: the changes made before an error stay.
use blipblop.Base.{◌≡◌, refl, ◌∙◌}
use blipblop.Errs.{Err, Result, ok, err, panic}

abbrev pub Eff {ℓ} : Type ℓ → Type ℓ → Type ℓ
Eff W A = W → Result A × W

module _ {ℓ} {W : Type ℓ} where
  infixl 5 ◌>>=◌ ◌>>◌
  -- what runs after a call that returned
  unfoldable pub run_next : {A B : Type ℓ} → Result A × W → (A → Eff W B) → Result B × W
  run_next (ok a, w) k = k a w
  run_next (err e, w) k = (err e, w)
  run_next (panic, w) k = (panic, w)

  unfoldable pub ◌>>=◌ : {A B : Type ℓ} → Eff W A → (A → Eff W B) → Eff W B
  unfolding run_next
  ◌>>=◌ m k w = run_next (m w) k

  unfoldable pub ◌>>◌ : {A B : Type ℓ} → Eff W A → Eff W B → Eff W B
  unfolding run_next
  ◌>>◌ m k w = run_next (m w) (λ _. k)

  abbrev pub pure : {A : Type ℓ} → A → Eff W A
  pure a w = (ok a, w)

  abbrev pub fail : {A : Type ℓ} → Err → Eff W A
  fail e w = (err e, w)

  -- a value that is computed from the state, or an error
  abbrev pub asks : {A : Type ℓ} → (W → Result A) → Eff W A
  asks f w = (f w, w)

  abbrev pub lift : {A : Type ℓ} → Result A → Eff W A
  lift r w = (r, w)

  -- A run that returned went through its first call.
  pub run_next-ok :
      {A B : Type ℓ} {k : A → Eff W B} {b : B} {w : W} (r : Result A × W)
      → run_next r k ≡ (ok b, w)
      → (a : A) × (w₁ : W) × (r ≡ (ok a, w₁)) × (k a w₁ ≡ (ok b, w))
  unfolding run_next
  run_next-ok (ok a, w₁) h = (a, w₁, refl, h)
  run_next-ok (err e, w₁) h = absurd (cc h)
  run_next-ok (panic, w₁) h = absurd (cc h)

  pub bind-ok :
      {A B : Type ℓ} {b : B} {w' : W} (m : Eff W A) (k : A → Eff W B) (w : W)
      → (m >>= k) w ≡ (ok b, w')
      → (a : A) × (w₁ : W) × (m w ≡ (ok a, w₁)) × (k a w₁ ≡ (ok b, w'))
  unfolding ◌>>=◌
  bind-ok m k w h = run_next-ok (m w) h

  pub seq-ok :
      {A B : Type ℓ} {b : B} {w' : W} (m : Eff W A) (k : Eff W B) (w : W)
      → (m >> k) w ≡ (ok b, w')
      → (a : A) × (w₁ : W) × (m w ≡ (ok a, w₁)) × (k w₁ ≡ (ok b, w'))
  unfolding ◌>>◌
  seq-ok m k w h = run_next-ok (m w) h

  -- What both calls leave alone.
  pub bind-keeps :
      {A B : Type ℓ} {X : Type 0} (view : W → X) (m : Eff W A) (k : A → Eff W B)
      → ((w : W) → view (m w).1 ≡ view w)
      → ((a : A) (w : W) → view (k a w).1 ≡ view w)
      → (w : W) → view ((m >>= k) w).1 ≡ view w
  unfolding ◌>>=◌ run_next
  bind-keeps {A} {B} view m k first second w = go (m w) (first w)
    where
      go : (r : Result A × W) → view r.1 ≡ view w → view (run_next r k).1 ≡ view w
      go (ok a, v) e = second a v ∙ e
      go (err x, v) e = e
      go (panic, v) e = e

  -- A value that was read leaves the state.
  pub lift-ok :
      {A : Type ℓ} (r : Result A) (a : A) (w w' : W) → lift r w ≡ (ok a, w') → (r ≡ ok a) × (w ≡ w')
  lift-ok r a w w' h = (cc h, cc h)
