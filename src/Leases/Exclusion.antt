-- ===== src/Leases/Exclusion.antt =====
-- internal/infra/lease_manager.go: `Acquire` of a held lease, and the calls that fail.
use blipblop.Base.{
  ℕ, Text, ◌≡◌, ◌≢◌, refl, sym, ◌∙◌, inl, inr, ◌<◌, Bool, true, false, not, ◌||◌, none, some, ◌==◌,
  list_eq, nat_eq, ==_ne, arith, length, ltb, lt→ltb, if◌then◌else◌,
}
use blipblop.Errs.{Err, Result, ok, err, panic, IsAtomic, Result-cases, is_not_found, lease_held}
use blipblop.Keys.{Uuids, uuid_len}
use blipblop.Kv.{ScanKv}
use blipblop.Repo.Prefix.{lease_prefixes, lease_prefixes-IsApart}
use blipblop.Repo.Reading.{name_cases, idx_id}
use blipblop.Repo.Creating.{create-IsAtomic}
use blipblop.Repo.Updating.{update_resource-IsAtomic}
use blipblop.Api.{Lease}
use blipblop.Leases.{
  LeaseCodec, lease_resource, Env, Manager, with_token, if_ok, read, acquire, acquire_new,
  acquire_over, acquire_found, acquire_checks, get, new_secret, renew, renew_checks,
}
use blipblop.Leases.Grants.{acquire_checks-ok, get-read}

if_ok-IsAtomic :
    {A B : Type 0} {S : Type 0} (s : S) (m : Result A) (k : A → Result B × S)
    → ((a : A) → IsAtomic s (k a))
    → IsAtomic s (if_ok s m k)
unfolding if_ok
if_ok-IsAtomic s (ok a) k h = h a
if_ok-IsAtomic s (err e) k h = refl
if_ok-IsAtomic s panic k h = refl

with_token-IsAtomic :
    {S : Type 0} (s : S) (token : Text) (q : Result Lease × S)
    → IsAtomic s q
    → IsAtomic s (with_token token q)
unfolding with_token
with_token-IsAtomic s token (ok x, t) h = tt
with_token-IsAtomic s token (err e, t) h = h
with_token-IsAtomic s token (panic, t) h = h

if-IsAtomic :
    {A : Type 0} {S : Type 0} (s : S) (b : Bool) (x y : Result A × S)
    → IsAtomic s x
    → IsAtomic s y
    → IsAtomic s (if b then x else y)
if-IsAtomic s true x y hx hy = hx
if-IsAtomic s false x y hx hy = hy

acquire_checks_never_panics :
    (resource holder : Text) (ttl : ℕ) → acquire_checks none resource holder ttl ≢ panic
unfolding acquire_checks
acquire_checks_never_panics resource holder ttl h = elim (name_cases resource) [
  | inl (_, _, i) ↦ ground (arith, i)
  | inr (_, _, i) ↦ ground (arith, i)
]

module _ (db : ScanKv) (c : LeaseCodec) (u : Uuids) (mac : Text → Text → Text) (m : Manager) where
  open db use {kv}

  acquire_found-IsAtomic :
      (env : Env) (s : kv.Store) (resource holder : Text) (q : Result Lease)
      → length env.fresh.uuid ≡ uuid_len
      → IsAtomic s (acquire_found db c u mac m none env s (idx_id resource) resource holder q)
  unfolding acquire_found acquire_new acquire_over
  acquire_found-IsAtomic env s resource holder (ok cur) sized =
      if-IsAtomic s (not (ltb env.now cur.config.expires_at) || cur.config.node_id == holder) _ _
        (if_ok-IsAtomic s (new_secret db c u mac m env) _ λ secret.
          with_token-IsAtomic s secret.0 _ (
            update_resource-IsAtomic db (lease_resource c) lease_prefixes lease_prefixes-IsApart
              env.fresh.updated s (idx_id resource) _))
        refl
  acquire_found-IsAtomic env s resource holder (err e) sized =
      if-IsAtomic s (is_not_found (some e)) _ _
        (if_ok-IsAtomic s (new_secret db c u mac m env) _ λ secret.
          with_token-IsAtomic s secret.0 _ (
            create-IsAtomic db (lease_resource c) lease_prefixes u env.fresh lease_prefixes-IsApart
              sized s _))
        refl
  acquire_found-IsAtomic env s resource holder panic sized = refl

  -- An Acquire that returns an error or panics leaves the store as it was, if the fresh UUID has 16
  -- bytes. Contexts are not done.
  pub acquire-IsAtomic :
      (env : Env) (s : kv.Store) (resource holder : Text) (ttl : ℕ)
      → length env.fresh.uuid ≡ uuid_len
      → IsAtomic s (acquire db c u mac m none env s resource holder ttl)
  unfolding acquire
  acquire-IsAtomic env s resource holder ttl sized =
      elim (Result-cases (acquire_checks none resource holder ttl)) [
        | inr (inl (e, q)) ↦ rw q refl
        | inr (inr q) ↦ rw q refl
        | inl (uid, q) ↦
            rw (q, (acquire_checks-ok resource holder ttl uid q).1)
              (acquire_found-IsAtomic env s resource holder _ sized)
      ]

  -- A Renew that returns an error or panics leaves the store as it was. Contexts are not done.
  pub renew-IsAtomic :
      (env : Env) (s : kv.Store) (resource holder : Text) (ttl : ℕ) (token : Text)
      → IsAtomic s (renew db c u mac m none env s resource holder ttl token)
  unfolding renew
  renew-IsAtomic env s resource holder ttl token =
      if_ok-IsAtomic s (renew_checks db c u mac m none env s resource holder ttl token) _ λ q.
        with_token-IsAtomic s q.1 _ (
          update_resource-IsAtomic db (lease_resource c) lease_prefixes lease_prefixes-IsApart
            env.fresh.updated s q.0 q.2)

  -- While a lease is not expired and its holder is another, Acquire fails and leaves the store as
  -- it was. Contexts are not done.
  pub acquire_held :
      (env : Env) (s : kv.Store) (resource holder : Text) (ttl : ℕ) (cur : Lease)
      → get db c u mac m none s resource ≡ ok cur
      → env.now < cur.config.expires_at
      → cur.config.node_id ≢ holder
      → (e : Err) × (acquire db c u mac m none env s resource holder ttl ≡ (err e, s))
  unfolding acquire acquire_found
  acquire_held env s resource holder ttl cur g running other =
      elim (Result-cases (acquire_checks none resource holder ttl)) [
        | inr (inl (e, q)) ↦ (e, rw q)
        | inr (inr q) ↦ absurd (acquire_checks_never_panics resource holder ttl q)
        | inl (uid, q) ↦
            let (full, same) = acquire_checks-ok resource holder ttl uid q in
            let found : read db c u mac m none s (idx_id resource) ≡ ok cur =
              sym (get-read db c u mac m s resource full) ∙ g in
            let no_match : (cur.config.node_id == holder) ≡ false =
              ==_ne cur.config.node_id holder other in
            (
              lease_held,
              rw (q, same) (rw (found, no_match, lt→ltb env.now cur.config.expires_at running)),
            )
      ]
