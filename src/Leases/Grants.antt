-- ===== src/Leases/Grants.antt =====
-- internal/infra/lease_manager.go: `Acquire`, from its checks to what is stored.
use blipblop.Base.{
  ℕ, Text, ◌≡◌, ◌≢◌, refl, sym, ap, ◌∙◌, ◌⊎◌, inl, inr, ◌+◌, ◌*◌, ◌≤◌, true, not, ◌||◌, none, some,
  [], ◌==◌, list_eq, nat_eq, list_beq_iff, arith, Bool-cases, length, ltb,
}
use blipblop.Errs.{Err, Result, ok, err, panic, Result-cases, is_not_found}
use blipblop.Keys.{KeyId, Uuids, uuid_len}
use blipblop.Kv.{ScanKv}
use blipblop.Repo.{Fresh, carry_meta, u64, stamp, prepare}
use blipblop.Repo.Prefix.{lease_prefixes, lease_prefixes-IsApart}
use blipblop.Repo.Reading.{name_cases, idx_id}
use blipblop.Repo.Creating.{stored, create-Created, create-get}
use blipblop.Repo.Updating.{update_resource-Updated}
use blipblop.Api.{Lease, LeaseConfig}
use blipblop.Leases.{
  LeaseCodec, lease_resource, Env, Manager, second, new_lease, taken_over, with_token, if_ok, read,
  acquire, acquire_new, acquire_over, acquire_found, acquire_checks, get, generate_hmac, new_secret,
}

pub with_token-ok {ℓ} :
    {S : Type ℓ} (token : Text) (q : Result Lease × S) (l : Lease) (t : Text) (s' : S)
    → with_token token q ≡ (ok (l, t), s')
    → (q ≡ (ok l, s')) × (t ≡ token)
unfolding with_token
with_token-ok token (ok x, s) l t s' h = (cc h, cc h)
with_token-ok token (err e, s) l t s' h = absurd (cc h)
with_token-ok token (panic, s) l t s' h = absurd (cc h)

pub if_ok-ok {ℓ κ} :
    {A B : Type ℓ} {S : Type κ} (s s' : S) (m : Result A) (k : A → Result B × S) (b : B)
    → if_ok s m k ≡ (ok b, s')
    → (a : A) × (m ≡ ok a) × (k a ≡ (ok b, s'))
unfolding if_ok
if_ok-ok s s' (ok a) k b h = (a, refl, h)
if_ok-ok s s' (err e) k b h = absurd (cc h)
if_ok-ok s s' panic k b h = absurd (cc h)

pub acquire_checks-ok :
    (resource holder : Text) (ttl : ℕ) (uid : KeyId)
    → acquire_checks none resource holder ttl ≡ ok uid
    → (resource ≢ []) × (uid ≡ idx_id resource)
unfolding acquire_checks
acquire_checks-ok resource holder ttl uid h = elim (name_cases resource) [
  | inl (_, _, i) ↦ absurd (ground (arith, i))
  | inr (full, _, i) ↦ (full, ground (arith, i))
]

-- The repository changes the metadata of a lease and nothing else.
module _ (db : ScanKv) (c : LeaseCodec) where
  pub carried_parts :
      (now : ℕ) (before x y : Lease)
      → y ≡ carry_meta db (lease_resource c) lease_prefixes now before x
      → (y.config ≡ x.config) × (y.status ≡ x.status)
  unfolding carry_meta
  carried_parts now before x y e = (ap (λ (z : Lease). z.config) e, ap (λ (z : Lease). z.status) e)

  created_parts :
      (u : Uuids) (fresh : Fresh) (x y : Lease)
      → y ≡ stored db (lease_resource c) lease_prefixes u fresh x
      → (y.config ≡ x.config) × (y.status ≡ x.status)
  unfolding stamp prepare
  created_parts u fresh x y e = (ap (λ (z : Lease). z.config) e, ap (λ (z : Lease). z.status) e)

module _ (db : ScanKv) (c : LeaseCodec) (u : Uuids) (mac : Text → Text → Text) (m : Manager) where
  open db use {kv}

  -- `Get` of a resource with a name reads its index.
  pub get-read :
      (s : kv.Store) (resource : Text)
      → resource ≢ []
      → get db c u mac m none s resource ≡ read db c u mac m none s (idx_id resource)
  unfolding get
  get-read s resource full = elim (name_cases resource) [
    | inl (e, _, _) ↦ absurd (full e)
    | inr (_, _, i) ↦ rw i
  ]

  -- The lease that was there before an `Acquire`, if any, and what its fencing token becomes.
  pub data Prior (env : Env) (s : kv.Store) (resource holder : Text) (l : Lease) : Type 0 where
    free :
        (e : Err)
        → get db c u mac m none s resource ≡ err e
        → is_not_found (some e) ≡ true
        → l.config.fencing_token ≡ 1
        → Prior env s resource holder l
    taken :
        (cur : Lease)
        → get db c u mac m none s resource ≡ ok cur
        → (cur.config.expires_at ≤ env.now) ⊎ (cur.config.node_id ≡ holder)
        → l.config.fencing_token ≡ u64 (cur.config.fencing_token + 1)
        → Prior env s resource holder l

  pub record Granted (env : Env) (s : kv.Store) (resource holder : Text) (l : Lease) (token : Text)
      (s' : kv.Store) : Type 0 where
    pub named : resource ≢ []
    pub stored : get db c u mac m none s' resource ≡ ok l
    pub holder_is : l.config.node_id ≡ holder
    pub expiry : l.config.expires_at ≡ env.now + m.ttl * second
    pub secret : l.status.token_hash ≡ mac m.key token
    pub prior : Prior env s resource holder l

  -- the call got past its checks
  pub acquire_reaches :
      (env : Env) (s s' : kv.Store) (resource holder : Text) (ttl : ℕ) (x : Lease × Text)
      → acquire db c u mac m none env s resource holder ttl ≡ (ok x, s')
      → (resource ≢ [])
        × (acquire_found db c u mac m none env s
              (idx_id resource)
              resource
              holder
              (read db c u mac m none s (idx_id resource))
            ≡ (ok x, s'))
  unfolding acquire
  acquire_reaches env s s' resource holder ttl x h =
      let go : KeyId → Result (Lease × Text) × kv.Store = λ uid.
        acquire_found db c u mac m none env s uid resource holder (read db c u mac m none s uid) in
      let (uid, e, q) = if_ok-ok s s' (acquire_checks none resource holder ttl) go x h in
      let (full, same) = acquire_checks-ok resource holder ttl uid e in (full, sym (ap go same) ∙ q)

  pub acquire_over-Granted :
      (env : Env) (s s' : kv.Store) (resource holder : Text) (cur l : Lease) (secret : Text × Text)
      (token : Text)
      → resource ≢ []
      → read db c u mac m none s (idx_id resource) ≡ ok cur
      → (cur.config.expires_at ≤ env.now) ⊎ (cur.config.node_id ≡ holder)
      → secret.1 ≡ mac m.key secret.0
      → acquire_over db c u mac m none env s (idx_id resource) holder cur secret
        ≡ (ok (l, token), s')
      → Granted env s resource holder l token s'
  unfolding acquire_over taken_over
  acquire_over-Granted env s s' resource holder cur l (t, hash) token full found may made h =
      let (q, same) = with_token-ok t _ l token s' h in
      let next = taken_over m env.now holder hash cur in
      let w =
        update_resource-Updated db (lease_resource c) lease_prefixes lease_prefixes-IsApart
          env.fresh.updated s s' (idx_id resource) next l q in
      let (config, status) = carried_parts db c env.fresh.updated w.before next l w.carried in
      record {
        named = full;
        stored = get-read s' resource full ∙ w.read;
        holder_is = ap (λ (x : LeaseConfig). x.node_id) config;
        expiry = ap (λ (x : LeaseConfig). x.expires_at) config;
        secret = cc (status, made, same);
        prior =
            taken cur (get-read s resource full ∙ found) may
              (ap (λ (x : LeaseConfig). x.fencing_token) config);
      }

  acquire_new-Granted :
      (env : Env) (s s' : kv.Store) (resource holder : Text) (e : Err) (l : Lease)
      (secret : Text × Text) (token : Text)
      → length env.fresh.uuid ≡ uuid_len
      → resource ≢ []
      → read db c u mac m none s (idx_id resource) ≡ err e
      → is_not_found (some e) ≡ true
      → secret.1 ≡ mac m.key secret.0
      → acquire_new db c u mac m none env s resource holder secret ≡ (ok (l, token), s')
      → Granted env s resource holder l token s'
  unfolding acquire_new new_lease
  acquire_new-Granted env s s' resource holder e l (t, hash) token sized full found missing made h =
      let (q, same) = with_token-ok t _ l token s' h in
      let fresh = new_lease m env.now resource holder hash in
      let w =
        create-Created db (lease_resource c) lease_prefixes u env.fresh lease_prefixes-IsApart sized
          s s' fresh l q in
      let (_, _, _, by_idx) =
        create-get db (lease_resource c) lease_prefixes u env.fresh lease_prefixes-IsApart sized s
          s' fresh l q in
      let (config, status) = created_parts db c u env.fresh fresh l w.prepared in
      record {
        named = full;
        stored = get-read s' resource full ∙ by_idx;
        holder_is = ap (λ (x : LeaseConfig). x.node_id) config;
        expiry = ap (λ (x : LeaseConfig). x.expires_at) config;
        secret = cc (status, made, same);
        prior =
            free e (get-read s resource full ∙ found) missing
              (ap (λ (x : LeaseConfig). x.fencing_token) config);
      }

  pub secret-eq :
      (env : Env) (secret : Text × Text)
      → new_secret db c u mac m env ≡ ok secret
      → secret.1 ≡ mac m.key secret.0
  unfolding generate_hmac
  secret-eq env (t, hash) h = ground arith

  -- A successful Acquire with a fresh UUID of 16 bytes returns the lease that Get returns
  -- afterwards: it names the caller, expires the manager's ttl after the call and holds the hash of
  -- the returned token; before the call the resource had no lease, and the fencing token is 1, or
  -- an expired lease or one of the caller's, and the fencing token is the next one. Contexts are
  -- not done.
  pub acquire-Granted :
      (env : Env) (s s' : kv.Store) (resource holder : Text) (ttl : ℕ) (l : Lease) (token : Text)
      → length env.fresh.uuid ≡ uuid_len
      → acquire db c u mac m none env s resource holder ttl ≡ (ok (l, token), s')
      → Granted env s resource holder l token s'
  unfolding acquire_found
  acquire-Granted env s s' resource holder ttl l token sized h =
      let (full, q) = acquire_reaches env s s' resource holder ttl (l, token) h in
      elim (Result-cases (read db c u mac m none s (idx_id resource))) [
        | inl (cur, found) ↦
            elim (Bool-cases
              (not (ltb env.now cur.config.expires_at) || cur.config.node_id == holder)) [
                | inl may ↦
                    let (secret, made, done) =
                      if_ok-ok s s' (new_secret db c u mac m env)
                        (acquire_over db c u mac m none env s (idx_id resource) holder cur)
                        (l, token) (rw (found, may, acquire_found) at q) in
                    acquire_over-Granted env s s' resource holder cur l secret token full found
                      (ground (arith, list_beq_iff cur.config.node_id holder))
                      (secret-eq env secret made) done
                | inr held ↦ absurd (cc (rw (found, held, acquire_found) at q))
              ]
        | inr (inl (e, found)) ↦ elim (Bool-cases (is_not_found (some e))) [
          | inl missing ↦
              let (secret, made, done) =
                if_ok-ok s s' (new_secret db c u mac m env)
                  (acquire_new db c u mac m none env s resource holder) (l, token)
                  (rw (found, missing, acquire_found) at q) in
              acquire_new-Granted env s s' resource holder e l secret token sized full found missing
                (secret-eq env secret made) done
          | inr other ↦ absurd (cc (rw (found, other, acquire_found) at q))
        ]
        | inr (inr found) ↦ absurd (cc (rw (found, acquire_found) at q))
      ]
