-- ===== src/Kv/Memory.antt =====
-- pkg/repository/inmemory/inmemory.go: transactions as overlays of writes and deletes on the map.
-- `clone` copies a value, so a copy is the value itself. `Keys` and `List` of an update
-- transaction panic, so that this store has the laws of `Kv` and no scan.
pub mod Overlay
use blipblop.Base.{
  ℕ, Text, ◌≡◌, refl, Bool, true, false, Option, none, some, List, [], ◌∷◌, map, if◌then◌else◌,
  ◌==◌, list_eq, nat_eq, list_beq_iff, Option-cases, inl, inr, arith, length,
}
use blipblop.Dict.{Dict, lookup, remove, insert, lookup-remove, lookup-insert, IsMap}
use blipblop.Errs.{Err, Result, ok, err, panic, Ctx, ctx_check, ◌>>=◌, ◌>>◌, repo_not_found}
use blipblop.Kv.{Kv}

abbrev Bytes : Type 0
Bytes = Dict Text Text

-- `updateTxn`; the value of `deletes` is `struct{}{}`
pub record UpdateTxn : Type 0 where
  pub base : Bytes
  pub writes : Bytes
  pub deletes : Dict Text (Unit {0})

pub begin : Bytes → UpdateTxn
begin m = record { base = m; writes = []; deletes = [] }

-- `viewTxn.Get`
pub view_get : Bytes → Text → Option Text
view_get snapshot k = lookup k snapshot

-- `viewTxn.Keys` and `viewTxn.List` ignore the prefix and the limit.
pub view_keys : Bytes → Text → List Text
view_keys snapshot prefix = map (λ e. e.0) snapshot

pub view_list : Bytes → Text → List Text
view_list snapshot prefix = map (λ e. e.1) snapshot

-- a written value, or else the base's
or_base : Bytes → Text → Option Text → Option Text
or_base base k (some v) = some v
or_base base k none = lookup k base

-- `updateTxn.Get`
pub txn_get : UpdateTxn → Text → Option Text
unfolding or_base
txn_get t k = elim (lookup k t.deletes) [
  | some _ ↦ none
  | none ↦ or_base t.base k (lookup k t.writes)
]

-- `updateTxn.Set`
pub txn_set : UpdateTxn → Text → Text → UpdateTxn
txn_set t k v = record t { deletes = remove k t.deletes; writes = insert k v t.writes }

-- `updateTxn.Delete`
pub txn_delete : UpdateTxn → Text → UpdateTxn
txn_delete t k = record t { writes = remove k t.writes; deletes = insert k tt t.deletes }

-- the loop `for k := range txn.deletes { delete(db.m, k) }`
apply_deletes : Dict Text (Unit {0}) → Bytes → Bytes
apply_deletes [] m = m
apply_deletes ((k, _) ∷ rest) m = apply_deletes rest (remove k m)

-- `maps.Copy(db.m, txn.writes)`
copy : Bytes → Bytes → Bytes
copy m [] = m
copy m ((k, v) ∷ rest) = copy (insert k v m) rest

-- The commit of `DB.Update`, on the map as it is then.
pub commit : Bytes → UpdateTxn → Bytes
unfolding apply_deletes copy
commit m t = copy (apply_deletes t.deletes m) t.writes

-- The calls of a transaction that write.
pub data Op : Type 0 where
  sets : Text → Text → Op
  deletes : Text → Op

pub txn_run : UpdateTxn → List Op → UpdateTxn
unfolding txn_set txn_delete
txn_run t [] = t
txn_run t (sets k v ∷ ops) = txn_run (txn_set t k v) ops
txn_run t (deletes k ∷ ops) = txn_run (txn_delete t k) ops

-- `DB.Update` of a function that makes these calls and then returns the error or none.
pub run_update : Ctx → List Op → Option Err → Bytes → Result (Unit {0}) × Bytes
unfolding begin txn_run commit
run_update (some e) ops failure m = (err e, m)
run_update none ops (some e) m = (err e, m)
run_update none ops none m = (ok tt, commit m (txn_run (begin m) ops))

-- The same calls made one after another on a plain map.
pub direct : Bytes → List Op → Bytes
direct m [] = m
direct m (sets k v ∷ ops) = direct (insert k v m) ops
direct m (deletes k ∷ ops) = direct (remove k m) ops
