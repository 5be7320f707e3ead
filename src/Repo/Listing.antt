-- ===== src/Repo/Listing.antt =====
-- pkg/repository/repository.go: `List`. What the database's `Txn.List` returns for the prefix and the
-- limit is an argument, as the values that it lends are the database's own.
use blipblop.Base.{Text, none, some, List, [], ◌∷◌}
use blipblop.Errs.{Result, ok, err, ◌>>=◌, Ctx, decode_failed}
use blipblop.Kv.{view}
use blipblop.Repo.{Resource}

module _ (r : Resource) where
  open r use {T}

  -- The first value that does not decode ends the loop.
  pub decode_all : List Text → Result (List T)
  decode_all [] = ok []
  decode_all (b ∷ bs) = elim (r.unmarshal b) [
    | none ↦ err decode_failed
    | some x ↦ do xs ← decode_all bs; ok (x ∷ xs)
  ]

  unfoldable pub list : Ctx → Result (List Text) → Result (List T)
  unfolding decode_all
  list ctx listed = view ctx (do kvs ← listed; decode_all kvs)
