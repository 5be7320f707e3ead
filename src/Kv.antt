-- ===== src/Kv.antt =====
-- The transaction interfaces of pkg/repository/repository.go (`Txn`, `DB`): a client sees a store by
-- the laws below. A transaction works on the store as it was when it began; `Update` keeps what it
-- wrote if the function returns no error, and drops it otherwise. Failures of the storage device
-- are outside the model. `ScanKv` has the law that `Txn.Keys` is meant to keep: Badger's Keys holds
-- on to the keys that the iterator lends it, and the Keys of the in-memory store is a stub in an
-- update transaction.
pub mod Memory
pub mod Table
use blipblop.Base.{
  Text, ◌≡◌, ◌≢◌, ◌↔◌, Bool, true, false, Option, none, some, List, [], ◌∷◌, ◌++◌, if◌then◌else◌,
  ◌==◌, list_eq, nat_eq, Any,
}
use blipblop.Errs.{Err, Result, ok, err, panic, Ctx, ctx_check, ◌>>=◌, ◌>>◌}

-- `Txn.Get`, `Txn.Set` and `Txn.Delete`; `none` is `ErrNotFound`.
pub record Kv : Type 1 where
  pub Store : Type 0
  pub get : Store → Text → Option Text
  pub set : Store → Text → Text → Store
  pub delete : Store → Text → Store
  pub get-set :
      (s : Store) (k v j : Text) → get (set s k v) j ≡ (if k == j then some v else get s j)
  pub get-delete :
      (s : Store) (k j : Text) → get (delete s k) j ≡ (if k == j then none else get s j)

-- `Txn.Keys` too: the keys that begin with the prefix and have a value.
pub record ScanKv : Type 1 where
  pub kv : Kv
  pub keys : kv.Store → Text → List Text
  pub keys_iff :
      (s : kv.Store) (prefix k : Text)
      → Any (λ j. j ≡ k) (keys s prefix)
        ↔ (((rest : Text) × (k ≡ prefix ++ rest)) × (kv.get s k ≢ none))

-- `DB.View`
abbrev pub view {ℓ} : {A : Type ℓ} → Ctx → Result A → Result A
view ctx body = do ctx_check ctx; body

-- What `DB.Update` leaves in the store: the writes of the function, or nothing of it.
abbrev pub finish {ℓ κ} : {S : Type ℓ} {A : Type κ} → S → Result (A × S) → Result A × S
finish s (ok (a, s')) = (ok a, s')
finish s (err e) = (err e, s)
finish s panic = (panic, s)

-- `DB.Update`
abbrev pub update {ℓ κ} : {S : Type ℓ} {A : Type κ} → Ctx → (S → Result (A × S)) → S → Result A × S
update ctx body s = finish s (do ctx_check ctx; body s)
