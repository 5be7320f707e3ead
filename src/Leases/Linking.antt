-- ===== src/Leases/Linking.antt =====
-- internal/infra/lease_manager.go: `Acquire` and then `Release`, through the index entry.
use blipblop.Base.{
  ℕ, Text, ◌≡◌, ◌≢◌, refl, sym, ap, ◌∙◌, inl, inr, not, ◌||◌, none, some, [], ◌==◌, list_eq, nat_eq,
  Bool-cases, length, ltb,
}
use blipblop.Errs.{Result, ok, err, panic, Result-cases, IsAtomic, is_not_found, repo_not_found}
use blipblop.Keys.{Uuids, uuid_len, encode, encode_prefixed}
use blipblop.Keys.Codec.{decode-encode, uuid-IsKeyId}
use blipblop.Kv.{ScanKv}
use blipblop.Repo
use blipblop.Repo.{Fresh, stamp, prepare, put_entries, carry_meta}
use blipblop.Repo.Prefix.{lease_prefixes, lease_prefixes-IsApart}
use blipblop.Repo.Reading.{idx_id, name_id, uid_id, key_uid_ne_idx, get-set_ne, put_entries_idx}
use blipblop.Repo.Creating.{create-Created}
use blipblop.Repo.Updating.{update_resource-Updated}
use blipblop.Api.{Lease}
use blipblop.Leases.{
  LeaseCodec, lease_resource, Env, Manager, read, write, get, acquire, acquire_found, acquire_new,
  acquire_over, new_lease, taken_over, new_secret, release,
}
use blipblop.Leases.Grants.{acquire-Granted, acquire_reaches, get-read, if_ok-ok, with_token-ok}
use blipblop.Leases.Exclusion.{acquire-IsAtomic}
use blipblop.Leases.Release.{Linked, release_succeeds}

module _ (db : ScanKv) (c : LeaseCodec) (u : Uuids) (mac : Text → Text → Text) (m : Manager) where
  open db use {kv}

  -- Whatever lease the resource has, its index entry leads to it.
  abbrev pub IsLinked : kv.Store → Text → Type 0
  IsLinked s resource =
      (l : Lease) → get db c u mac m none s resource ≡ ok l → Linked db c u mac m s resource l

  -- The call that `Acquire` made of the repository.
  data Wrote (env : Env) (s : kv.Store) (resource holder : Text) (l : Lease) (s' : kv.Store)
      : Type 0 where
    created :
        (hash : Text)
        → Repo.create db
            (lease_resource c)
            lease_prefixes
            none
            u
            env.fresh
            s
            (new_lease m env.now resource holder hash)
          ≡ (ok l, s')
        → Wrote env s resource holder l s'
    rewritten :
        (hash : Text) (cur : Lease)
        → read db c u mac m none s (idx_id resource) ≡ ok cur
        → write db c u mac m none env.fresh.updated s
            (idx_id resource)
            (taken_over m env.now holder hash cur)
          ≡ (ok l, s')
        → Wrote env s resource holder l s'

  acquire-Wrote :
      (env : Env) (s s' : kv.Store) (resource holder : Text) (ttl : ℕ) (l : Lease) (token : Text)
      → acquire db c u mac m none env s resource holder ttl ≡ (ok (l, token), s')
      → (resource ≢ []) × Wrote env s resource holder l s'
  unfolding acquire_found acquire_new acquire_over
  acquire-Wrote env s s' resource holder ttl l token h =
      let (full, q) = acquire_reaches db c u mac m env s s' resource holder ttl (l, token) h in
      (
        full,
        elim (Result-cases (read db c u mac m none s (idx_id resource))) [
          | inl (cur, found) ↦
              elim (Bool-cases
                (not (ltb env.now cur.config.expires_at) || cur.config.node_id == holder)) [
                  | inl may ↦
                      let (secret, made, done) =
                        if_ok-ok s s' (new_secret db c u mac m env)
                          (acquire_over db c u mac m none env s (idx_id resource) holder cur)
                          (l, token) (rw (found, may, acquire_found) at q) in
                      rewritten secret.1 cur found (with_token-ok secret.0 _ l token s' done).0
                  | inr held ↦ absurd (cc (rw (found, held, acquire_found) at q))
                ]
          | inr (inl (e, found)) ↦ elim (Bool-cases (is_not_found (some e))) [
            | inl missing ↦
                let (secret, made, done) =
                  if_ok-ok s s' (new_secret db c u mac m env)
                    (acquire_new db c u mac m none env s resource holder) (l, token)
                    (rw (found, missing, acquire_found) at q) in
                created secret.1 (with_token-ok secret.0 _ l token s' done).0
            | inr other ↦ absurd (cc (rw (found, other, acquire_found) at q))
          ]
          | inr (inr found) ↦ absurd (cc (rw (found, acquire_found) at q))
        ],
      )

  created-Linked :
      (fresh : Fresh) (s s' : kv.Store) (x l : Lease)
      → length fresh.uuid ≡ uuid_len
      → Repo.create db (lease_resource c) lease_prefixes none u fresh s x ≡ (ok l, s')
      → Linked db c u mac m s' x.meta.name l
  unfolding stamp prepare
  created-Linked fresh s s' x l sized h =
      let w =
        create-Created db (lease_resource c) lease_prefixes u fresh lease_prefixes-IsApart sized s
          s' x l h in
      record {
        uid = fresh.uuid;
        item = encode (uid_id fresh.uuid);
        entry = rw w.state (
            put_entries_idx db (lease_resource c) lease_prefixes lease_prefixes-IsApart s
              (uid_id fresh.uuid) (idx_id x.meta.name) (name_id x.meta.name) w.bytes);
        leads = decode-encode (uid_id fresh.uuid) (uuid-IsKeyId fresh.uuid sized);
        carries =
            rw (ap (λ (z : Lease). z.meta.uid) w.prepared) (u.parse-to_string fresh.uuid sized);
      }

  updated-Linked :
      (now : ℕ) (s s' : kv.Store) (resource : Text) (x l : Lease)
      → ((cur : Lease)
          → read db c u mac m none s (idx_id resource) ≡ ok cur
          → Linked db c u mac m s resource cur)
      → write db c u mac m none now s (idx_id resource) x ≡ (ok l, s')
      → Linked db c u mac m s' resource l
  unfolding carry_meta
  updated-Linked now s s' resource x l linked h =
      let w =
        update_resource-Updated db (lease_resource c) lease_prefixes lease_prefixes-IsApart now s s'
          (idx_id resource) x l h in
      let k = linked w.before w.found in
      record {
        uid = k.uid;
        item = k.item;
        entry = rw w.state (
            get-set_ne kv s (encode_prefixed w.uid lease_prefixes.prefix) w.bytes _ (λ e.
              key_uid_ne_idx db (lease_resource c) lease_prefixes lease_prefixes-IsApart
                (idx_id resource) w.uid (sym e))
            ∙ k.entry);
        leads = k.leads;
        carries = rw (ap (λ (z : Lease). z.meta.uid) w.carried) k.carries;
      }

  read-Linked :
      (s : kv.Store) (resource : Text)
      → resource ≢ []
      → IsLinked s resource
      → (cur : Lease) → read db c u mac m none s (idx_id resource) ≡ ok cur
      → Linked db c u mac m s resource cur
  read-Linked s resource full linked cur e = linked cur (get-read db c u mac m s resource full ∙ e)

  granted-Linked :
      (env : Env) (s s' : kv.Store) (resource holder : Text) (ttl : ℕ) (l : Lease) (token : Text)
      → length env.fresh.uuid ≡ uuid_len
      → IsLinked s resource
      → acquire db c u mac m none env s resource holder ttl ≡ (ok (l, token), s')
      → Linked db c u mac m s' resource l
  unfolding new_lease
  granted-Linked env s s' resource holder ttl l token sized linked h =
      let (full, wrote) = acquire-Wrote env s s' resource holder ttl l token h in
      elim wrote [
        | created hash q ↦
            created-Linked env.fresh s s' (new_lease m env.now resource holder hash) l sized q
        | rewritten hash cur found q ↦
            updated-Linked env.fresh.updated s s' resource (taken_over m env.now holder hash cur) l
              (read-Linked s resource full linked) q
      ]

  -- An `Acquire` keeps the index entry of the resource leading to its lease.
  pub acquire-IsLinked :
      (env : Env) (s : kv.Store) (resource holder : Text) (ttl : ℕ)
      → length env.fresh.uuid ≡ uuid_len
      → IsLinked s resource
      → IsLinked (acquire db c u mac m none env s resource holder ttl).1 resource
  acquire-IsLinked env s resource holder ttl sized linked =
      go (acquire db c u mac m none env s resource holder ttl) refl
        (acquire-IsAtomic db c u mac m env s resource holder ttl sized)
    where
      go :
          (q : Result (Lease × Text) × kv.Store)
          → acquire db c u mac m none env s resource holder ttl ≡ q
          → IsAtomic s q
          → IsLinked q.1 resource
      go (err e, s') h same = rw same linked
      go (panic, s') h same = rw same linked
      go (ok (l, token), s') h _ = λ l' g.
          let granted = acquire-Granted db c u mac m env s s' resource holder ttl l token sized h in
          let same : l ≡ l' = cc (granted.stored, g) in
          rw (← same) (granted-Linked env s s' resource holder ttl l token sized linked h)

  -- After a successful Acquire, Release by the same holder with the token that was returned
  -- succeeds, and the resource then has no lease; before the Acquire the index entry of the
  -- resource leads to its lease, if there is one, the holder's name is not empty, and the fresh
  -- UUID has 16 bytes. Contexts are not done.
  pub acquire-release :
      (env : Env) (s s' : kv.Store) (resource holder : Text) (ttl : ℕ) (l : Lease) (token : Text)
      → length env.fresh.uuid ≡ uuid_len
      → holder ≢ []
      → IsLinked s resource
      → acquire db c u mac m none env s resource holder ttl ≡ (ok (l, token), s')
      → (s'' : kv.Store) × (release db c u mac m none s' resource holder token ≡ (ok tt, s''))
        × (get db c u mac m none s'' resource ≡ err repo_not_found)
  acquire-release env s s' resource holder ttl l token sized named linked h =
      let g = acquire-Granted db c u mac m env s s' resource holder ttl l token sized h in
      release_succeeds db c u mac m s' resource holder token l named g.stored
        (granted-Linked env s s' resource holder ttl l token sized linked h)
        (record { proved = g.secret; is_mine = g.holder_is })
