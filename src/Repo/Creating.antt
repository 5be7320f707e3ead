-- ===== src/Repo/Creating.antt =====
-- pkg/repository/repository.go: `Create`.
use blipblop.Base.{
  Text, ◌≡◌, ◌≢◌, refl, sym, ap, ◌∙◌, ◌⊎◌, inl, inr, none, some, [], length, Option-cases,
}
use blipblop.Errs.{
  Err, Result, ok, err, panic, IsAtomic, repo_not_found, empty_name, idx_exists, decode_failed,
}
use blipblop.Keys.{Uuids, uuid_len}
use blipblop.Kv.{ScanKv, finish}
use blipblop.Api.{Meta}
use blipblop.Repo.{
  Resource, Prefixes, Fresh, get, put_entries, create, create_txn, stamp, prepare, check_absent,
  read_back, with_ids,
}
use blipblop.Repo.Prefix.{IsApart}
use blipblop.Repo.Reading.{
  uid_id, name_id, idx_id, name_cases, put_entries_uid, put_entries_idx, put_entries_name, load-eq,
  follow-eq,
}

module _ (db : ScanKv) (r : Resource) (p : Prefixes) (u : Uuids) (fresh : Fresh) where
  open db use {kv}

  abbrev pub stored : r.T → r.T
  stored x = prepare db r p (stamp db r p u fresh x)

  abbrev pub entries : kv.Store → Text → Text → kv.Store
  entries s t b = put_entries db r p s (uid_id fresh.uuid) (idx_id t) (name_id t) b

  -- What a call of `Create` that returned `y` has done.
  pub record Created (s : kv.Store) (x y : r.T) (s' : kv.Store) : Type 0 where
    pub named : (r.meta x).name ≢ []
    pub absent : get db r p none s (name_id (r.meta x).name) ≡ err repo_not_found
    pub bytes : Text
    pub marshals : r.marshal y ≡ some bytes
    pub prepared : y ≡ stored x
    pub state : s' ≡ entries s (r.meta x).name bytes

  meta-stamp : (x : r.T) → (r.meta (stamp db r p u fresh x)).name ≡ (r.meta x).name
  unfolding stamp
  meta-stamp x = ap (λ (m : Meta). m.name) (r.meta-with_meta x _)

  abbrev commits : kv.Store → r.T → Text → Result r.T × kv.Store
  commits s x t = read_back db r p none (uid_id fresh.uuid) (
      finish s (
        create_txn db r p none (uid_id fresh.uuid) (idx_id t) (name_id t) (stamp db r p u fresh x)
          s))

  create-nil :
      (s : kv.Store) (x : r.T)
      → (r.meta x).name ≡ []
      → create db r p none u fresh s x ≡ (err empty_name, s)
  unfolding create
  create-nil s x e = elim (name_cases (r.meta (stamp db r p u fresh x)).name) [
    | inl (_, n, _) ↦ rw (n, create)
    | inr (full, _, _) ↦ absurd (full (meta-stamp x ∙ e))
  ]

  create-commits :
      (s : kv.Store) (x : r.T)
      → (r.meta x).name ≢ []
      → create db r p none u fresh s x ≡ commits s x (r.meta x).name
  unfolding create
  create-commits s x h = elim (name_cases (r.meta (stamp db r p u fresh x)).name) [
    | inl (e, _, _) ↦ absurd (h (sym (meta-stamp x) ∙ e))
    | inr (_, n, i) ↦ rw (n, create) (rw (i, with_ids) (ap (commits s x) (meta-stamp x)))
  ]

  abbrev finish_read : kv.Store → Result (Unit {0} × kv.Store) → Result r.T × kv.Store
  finish_read s q = read_back db r p none (uid_id fresh.uuid) (finish s q)

  abbrev txn : kv.Store → r.T → Text → Result (Unit {0} × kv.Store)
  txn s x t =
      create_txn db r p none (uid_id fresh.uuid) (idx_id t) (name_id t) (stamp db r p u fresh x) s

  -- The transaction either stops before it writes, or writes the three entries of a new name.
  record Wrote (s : kv.Store) (x : r.T) (t : Text) : Type 0 where
    absent : get db r p none s (name_id t) ≡ err repo_not_found
    bytes : Text
    marshals : r.marshal (stored x) ≡ some bytes
    result : txn s x t ≡ ok (tt, entries s t bytes)

  txn_cases :
      (s : kv.Store) (x : r.T) (t : Text)
      → ((e : Err) × (txn s x t ≡ err e)) ⊎ ((txn s x t ≡ panic) ⊎ Wrote s x t)
  unfolding create_txn check_absent
  txn_cases s x t = go (get db r p none s (name_id t)) refl
    where
      go :
          (g : Result r.T)
          → get db r p none s (name_id t) ≡ g
          → ((e : Err) × (txn s x t ≡ err e)) ⊎ ((txn s x t ≡ panic) ⊎ Wrote s x t)
      go (ok y) e = inl (idx_exists, rw (e, create_txn))
      go panic e = inr (inl (rw (e, create_txn)))
      go (err repo_not_found) e = elim (Option-cases (r.marshal (stored x))) [
        | inl m ↦ inl (decode_failed, rw (e, create_txn) (rw (m, create_txn)))
        | inr (b, m) ↦ inr (
            inr (record {
              absent = e;
              bytes = b;
              marshals = m;
              result = rw (e, create_txn) (rw (m, create_txn));
            }))
      ]
      go (err c) e = inl (c, rw (e, create_txn))

  module _ (apart : IsApart p) (sized : length fresh.uuid ≡ uuid_len) where
    -- The new resource is read under each of its three keys.
    entries_read :
        (s : kv.Store) (t b : Text) (y : r.T)
        → r.marshal y ≡ some b
        → (get db r p none (entries s t b) (uid_id fresh.uuid) ≡ ok y)
          × (get db r p none (entries s t b) (name_id t) ≡ ok y)
          × (get db r p none (entries s t b) (idx_id t) ≡ ok y)
    unfolding get
    entries_read s t b y m =
        let s' = entries s t b in
        let uid = uid_id fresh.uuid in
        let direct =
          load-eq db r p apart s' _ b y
            (put_entries_uid db r p apart s uid (idx_id t) (name_id t) b)
            (r.unmarshal-marshal y b m) in
        (
          direct,
          follow-eq db r p apart s' _ fresh.uuid sized
                (put_entries_name db r p apart s uid (idx_id t) (name_id t) b)
              ∙ direct,
          follow-eq db r p apart s' _ fresh.uuid sized
                (put_entries_idx db r p apart s uid (idx_id t) (name_id t) b)
              ∙ direct,
        )

    create_cases :
        (s : kv.Store) (x : r.T)
        → ((e : Err) × (create db r p none u fresh s x ≡ (err e, s)))
          ⊎ ((create db r p none u fresh s x ≡ (panic, s))
              ⊎ ((w : Wrote s x (r.meta x).name) × ((r.meta x).name ≢ [])
                  × (create db r p none u fresh s x
                      ≡ (ok (stored x), entries s (r.meta x).name w.bytes))))
    unfolding get read_back
    create_cases s x = elim (name_cases (r.meta x).name) [
      | inl (e, _, _) ↦ inl (empty_name, create-nil s x e)
      | inr (full, _, _) ↦ elim (txn_cases s x (r.meta x).name) [
        | inl (e, q) ↦ inl (e, create-commits s x full ∙ ap (finish_read s) q)
        | inr (inl q) ↦ inr (inl (create-commits s x full ∙ ap (finish_read s) q))
        | inr (inr w) ↦ inr (
            inr (
              w,
              full,
              create-commits s x full
                  ∙ ap (finish_read s) w.result
                  ∙ ap (λ g. (g, entries s (r.meta x).name w.bytes))
                      (entries_read s (r.meta x).name w.bytes (stored x) w.marshals).0,
            ))
      ]
    ]

    pub create-Created :
        (s s' : kv.Store) (x y : r.T)
        → create db r p none u fresh s x ≡ (ok y, s')
        → Created s x y s'
    create-Created s s' x y h = elim (create_cases s x) [
      | inl (e, q) ↦ absurd (cc (q, h))
      | inr (inl q) ↦ absurd (cc (q, h))
      | inr (inr (w, full, q)) ↦
          let same : stored x ≡ y = cc (q, h) in
          record {
            named = full;
            absent = w.absent;
            bytes = w.bytes;
            marshals = rw (← same) w.marshals;
            prepared = sym same;
            state = cc (q, h);
          }
    ]

    -- After a successful Create, Get under the UID, under the name and under the index returns the
    -- resource that Create returned, and the name was not found before; the key ranges of the
    -- repository do not meet and the fresh UUID has 16 bytes. Contexts are not done.
    pub create-get :
        (s s' : kv.Store) (x y : r.T)
        → create db r p none u fresh s x ≡ (ok y, s')
        → (get db r p none s (name_id (r.meta x).name) ≡ err repo_not_found)
          × (get db r p none s' (uid_id fresh.uuid) ≡ ok y)
          × (get db r p none s' (name_id (r.meta x).name) ≡ ok y)
          × (get db r p none s' (idx_id (r.meta x).name) ≡ ok y)
    create-get s s' x y h =
        let c = create-Created s s' x y h in
        let (by_uid, by_name, by_idx) = entries_read s (r.meta x).name c.bytes y c.marshals in
        (c.absent, rw c.state by_uid, rw c.state by_name, rw c.state by_idx)

    -- A Create that fails leaves the store as it was; the key ranges of the repository do not meet
    -- and the fresh UUID has 16 bytes. Contexts are not done.
    pub create-IsAtomic : (s : kv.Store) (x : r.T) → IsAtomic s (create db r p none u fresh s x)
    create-IsAtomic s x = elim (create_cases s x) [
      | inl (_, q) ↦ rw q
      | inr (inl q) ↦ rw q
      | inr (inr (_, _, q)) ↦ rw q tt
    ]
