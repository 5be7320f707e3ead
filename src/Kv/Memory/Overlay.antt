-- ===== src/Kv/Memory/Overlay.antt =====
-- pkg/repository/inmemory/inmemory.go: a transaction against the plain map.
use blipblop.Base.{
  Text, ◌≡◌, ◌≢◌, refl, ◌∙◌, Option, none, some, List, [], ◌∷◌, if◌then◌else◌, ◌==◌, list_eq,
  nat_eq, list_beq_iff, arith,
}
use blipblop.Dict.{Dict, lookup, remove, insert, lookup-remove, lookup-insert, IsMap, remove-IsMap}
use blipblop.Errs.{Err}
use blipblop.Kv.{Kv}
use blipblop.Kv.Memory.{
  Bytes, UpdateTxn, begin, or_base, txn_get, txn_set, txn_delete, apply_deletes, copy, commit, Op,
  sets, deletes, txn_run, run_update, direct,
}

lookup-apply_deletes :
    (d : Dict Text (Unit {0})) (m : Bytes) (j : Text)
    → lookup j (apply_deletes d m) ≡ elim (lookup j d) [ some _ ↦ none | none ↦ lookup j m ]
unfolding apply_deletes
lookup-apply_deletes [] m j = refl
lookup-apply_deletes ((k, _) ∷ d) m j =
    ground (arith, lookup-apply_deletes d (remove k m) j, lookup-remove k j m)

lookup-copy : (w m : Bytes) (j : Text) → IsMap w → lookup j (copy m w) ≡ or_base m j (lookup j w)
unfolding copy or_base
lookup-copy [] m j h = refl
lookup-copy ((k, v) ∷ w) m j h =
    ground (arith, lookup-copy w (insert k v m) j h.1, lookup-insert k j v m, list_beq_iff k j)

-- A transaction never holds a key both as written and as deleted.
record IsOverlay (t : UpdateTxn) : Type 0 where
  written_once : IsMap t.writes
  apart : (k : Text) → lookup k t.writes ≢ none → lookup k t.deletes ≡ none

txn_set-IsOverlay : (t : UpdateTxn) (k v : Text) → IsOverlay t → IsOverlay (txn_set t k v)
unfolding txn_set
txn_set-IsOverlay t k v w = record {
  written_once = (
    ground (arith, lookup-remove k k t.writes, list_beq_iff k k),
    remove-IsMap k t.writes w.written_once,
  );
  apart =
      λ j h. ground (arith, w.apart j, lookup-insert k j v t.writes, lookup-remove k j t.deletes);
}

txn_delete-IsOverlay : (t : UpdateTxn) (k : Text) → IsOverlay t → IsOverlay (txn_delete t k)
unfolding txn_delete
txn_delete-IsOverlay t k w = record {
  written_once = remove-IsMap k t.writes w.written_once;
  apart =
      λ j h. ground (arith, w.apart j, lookup-remove k j t.writes, lookup-insert k j tt t.deletes);
}

pub txn_get-set :
    (t : UpdateTxn) (k v j : Text)
    → txn_get (txn_set t k v) j ≡ (if k == j then some v else txn_get t j)
unfolding txn_get txn_set
txn_get-set t k v j =
    ground (arith, lookup-insert k j v t.writes, lookup-remove k j t.deletes, list_beq_iff k j)

pub txn_get-delete :
    (t : UpdateTxn) (k j : Text)
    → txn_get (txn_delete t k) j ≡ (if k == j then none else txn_get t j)
unfolding txn_get txn_delete
txn_get-delete t k j =
    ground (arith, lookup-remove k j t.writes, lookup-insert k j tt t.deletes, list_beq_iff k j)

lookup-commit :
    (m : Bytes) (t : UpdateTxn) (j : Text)
    → IsOverlay t
    → t.base ≡ m
    → lookup j (commit m t) ≡ txn_get t j
unfolding commit txn_get or_base
lookup-commit m t j w e = ground (
  arith,
  lookup-copy t.writes (apply_deletes t.deletes m) j w.written_once,
  lookup-apply_deletes t.deletes m j,
  w.apart j,
  e,
)

-- A transaction that shows the map `m`, run further, shows what the calls make of `m`.
txn_run_shows :
    (ops : List Op) (t : UpdateTxn) (m : Bytes)
    → IsOverlay t
    → ((j : Text) → txn_get t j ≡ lookup j m)
    → IsOverlay (txn_run t ops)
      × ((txn_run t ops).base ≡ t.base)
      × ((j : Text) → txn_get (txn_run t ops) j ≡ lookup j (direct m ops))
unfolding txn_run direct
txn_run_shows [] t m w h = (w, refl, h)
txn_run_shows (sets k v ∷ ops) t m w h =
    txn_run_shows ops (txn_set t k v) (insert k v m) (txn_set-IsOverlay t k v w)
      (λ j. ground (arith, txn_get-set t k v j, lookup-insert k j v m, h j))
txn_run_shows (deletes k ∷ ops) t m w h =
    txn_run_shows ops (txn_delete t k) (remove k m) (txn_delete-IsOverlay t k w)
      (λ j. ground (arith, txn_get-delete t k j, lookup-remove k j m, h j))

begin_shows : (m : Bytes) → IsOverlay (begin m) × ((j : Text) → txn_get (begin m) j ≡ lookup j m)
unfolding begin txn_get or_base
begin_shows m = (record { written_once = tt; apart = λ k h. refl }, λ j. refl)

base-begin : (m : Bytes) → (begin m).base ≡ m
unfolding begin
base-begin m = refl

-- Inside an in-memory update transaction, every read returns what the calls so far make of the map.
pub txn_get-run :
    (m : Bytes) (ops : List Op) (j : Text)
    → txn_get (txn_run (begin m) ops) j ≡ lookup j (direct m ops)
txn_get-run m ops j = (txn_run_shows ops (begin m) m (begin_shows m).0 (begin_shows m).1).2 j

-- The in-memory DB.Update, on a context that is not done, leaves at every key what the function's
-- calls make of the map one after another if it returns no error, and the map before if it returns
-- one.
pub run_update_lem :
    (m : Bytes) (ops : List Op) (failure : Option Err) (j : Text)
    → lookup j (run_update none ops failure m).1
      ≡ lookup j (elim failure [ none ↦ direct m ops | some _ ↦ m ])
unfolding run_update
run_update_lem m ops (some e) j = refl
run_update_lem m ops none j =
    let (w, based, shows) = txn_run_shows ops (begin m) m (begin_shows m).0 (begin_shows m).1 in
    lookup-commit m (txn_run (begin m) ops) j w (based ∙ base-begin m) ∙ shows j

-- The in-memory transactions meet the interface.
abbrev pub memory_kv : Kv
memory_kv = record {
  Store = UpdateTxn;
  get = txn_get;
  set = txn_set;
  delete = txn_delete;
  get-set = txn_get-set;
  get-delete = txn_get-delete;
}
