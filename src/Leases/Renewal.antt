-- ===== src/Leases/Renewal.antt =====
-- internal/infra/lease_manager.go: `Renew`.
use blipblop.Base.{
  ℕ, Text, ◌≡◌, ◌≢◌, sym, ap, ◌∙◌, inl, inr, ◌+◌, ◌*◌, not, none, some, [], ◌==◌, list_eq, nat_eq,
  list_beq_iff, Bool-cases, leb,
}
use blipblop.Errs.{Result, ok, Result-cases}
use blipblop.Keys.{KeyId, Uuids}
use blipblop.Kv.{ScanKv}
use blipblop.Repo.Prefix.{lease_prefixes, lease_prefixes-IsApart}
use blipblop.Repo.Reading.{name_cases, idx_id}
use blipblop.Repo.Updating.{update_resource-Updated}
use blipblop.Api.{Lease, LeaseConfig}
use blipblop.Leases.{
  LeaseCodec, lease_resource, Env, Manager, second, with_token, read, write, get, renew,
  renew_checks, renew_found, renewed,
}
use blipblop.Leases.Grants.{get-read, if_ok-ok, with_token-ok, carried_parts}

module _ (db : ScanKv) (c : LeaseCodec) (u : Uuids) (mac : Text → Text → Text) (m : Manager) where
  open db use {kv}

  -- What `Renew` does to the lease `before` of the resource.
  pub record Renewed (env : Env) (s : kv.Store) (resource token : Text) (l : Lease) (token' : Text)
      (s' : kv.Store) : Type 0 where
    pub before : Lease
    pub found : get db c u mac m none s resource ≡ ok before
    pub proved : before.status.token_hash ≡ mac m.key token
    pub stored : get db c u mac m none s' resource ≡ ok l
    pub same_holder : l.config.node_id ≡ before.config.node_id
    pub same_fencing : l.config.fencing_token ≡ before.config.fencing_token
    pub expiry : l.config.expires_at ≡ env.now + m.ttl * second
    pub secret : l.status.token_hash ≡ mac m.key token'

  renew_found-ok :
      (env : Env) (token : Text) (cur next : Lease) (token' : Text)
      → renew_found db c u mac m env token cur ≡ ok (token', next)
      → (cur.status.token_hash ≡ mac m.key token)
        × (next ≡ renewed m env.now (mac m.key token') cur)
  unfolding renew_found
  renew_found-ok env token cur next token' h =
      elim (Bool-cases (mac m.key token == cur.status.token_hash)) [
        | inl valid ↦ elim (Result-cases env.token) [
          | inl (t, e) ↦ (sym ((list_beq_iff _ _).0 valid), cc (rw (valid, e, renew_found) at h))
          | inr (inl (x, e)) ↦ absurd (cc (rw (valid, e, renew_found) at h))
          | inr (inr e) ↦ absurd (cc (rw (valid, e, renew_found) at h))
        ]
        | inr invalid ↦ absurd (cc (rw (invalid, renew_found) at h))
      ]

  -- what the checks of `Renew` have seen
  record Checked (env : Env) (s : kv.Store) (v token : Text) (q : KeyId × Text × Lease)
      : Type 0 where
    before : Lease
    found : read db c u mac m none s (idx_id (u.to_string v)) ≡ ok before
    full : u.to_string v ≢ []
    id_is : q.0 ≡ idx_id (u.to_string v)
    next : renew_found db c u mac m env token before ≡ ok (q.1, q.2)

  renew_checks-Checked :
      (env : Env) (s : kv.Store) (resource v holder : Text) (ttl : ℕ) (token : Text)
      (q : KeyId × Text × Lease)
      → u.parse resource ≡ some v
      → renew_checks db c u mac m none env s resource holder ttl token ≡ ok q
      → Checked env s v token q
  unfolding renew_checks
  renew_checks-Checked env s resource v holder ttl token q parsed h =
      let h₁ = rw (parsed, renew_checks) at h in
      elim (Bool-cases (not (holder == []))) [
        | inr e ↦ absurd (cc (rw e at h₁))
        | inl e ↦ elim (Bool-cases (not (leb ttl 0))) [
          | inr t ↦ absurd (cc (rw (e, t) at h₁))
          | inl t ↦ elim (name_cases (u.to_string v)) [
            | inl (_, _, i) ↦ absurd (cc (rw (e, t, i) at h₁))
            | inr (full, _, i) ↦
                elim (Result-cases (read db c u mac m none s (idx_id (u.to_string v)))) [
                  | inr (inl (x, g)) ↦ absurd (cc (rw (e, t, i, g) at h₁))
                  | inr (inr g) ↦ absurd (cc (rw (e, t, i, g) at h₁))
                  | inl (before, g) ↦
                      elim (Result-cases (renew_found db c u mac m env token before)) [
                        | inr (inl (x, f)) ↦ absurd (cc (rw (e, t, i, g, f) at h₁))
                        | inr (inr f) ↦ absurd (cc (rw (e, t, i, g, f) at h₁))
                        | inl (pair, f) ↦
                            let done : (idx_id (u.to_string v), pair.0, pair.1) ≡ q =
                              cc (rw (e, t, i, g, f) at h₁) in
                            record {
                              before = before;
                              found = g;
                              full = full;
                              id_is = sym (ap (λ z. z.0) done);
                              next = f ∙ ap (λ (z : KeyId × Text × Lease). ok (z.1, z.2)) done;
                            }
                      ]
                ]
          ]
        ]
      ]

  -- A successful Renew of a resource given as printed by uuid.UUID had the token of the stored
  -- lease; the lease keeps its holder and its fencing token, expires the manager's ttl after the
  -- call, holds the hash of the new token, and is what Get returns afterwards. Contexts are not
  -- done.
  pub renew-Renewed :
      (env : Env) (s s' : kv.Store) (resource v holder : Text) (ttl : ℕ) (token : Text) (l : Lease)
      (token' : Text)
      → u.parse resource ≡ some v
      → u.to_string v ≡ resource
      → renew db c u mac m none env s resource holder ttl token ≡ (ok (l, token'), s')
      → Renewed env s resource token l token' s'
  unfolding renew renewed
  renew-Renewed env s s' resource v holder ttl token l token' parsed shown h =
      let go : KeyId × Text × Lease → Result (Lease × Text) × kv.Store =
        λ q. with_token q.1 (write db c u mac m none env.fresh.updated s q.0 q.2) in
      let (q, e, done) =
        if_ok-ok s s' (renew_checks db c u mac m none env s resource holder ttl token) go
          (l, token') h in
      let w = renew_checks-Checked env s resource v holder ttl token q parsed e in
      let (wrote, same) = with_token-ok q.1 _ l token' s' done in
      let (proved, next) = renew_found-ok env token w.before q.2 q.1 w.next in
      let up =
        update_resource-Updated db (lease_resource c) lease_prefixes lease_prefixes-IsApart
          env.fresh.updated s s' q.0 q.2 l wrote in
      let (config, status) = carried_parts db c env.fresh.updated up.before q.2 l up.carried in
      let config' : l.config ≡ (renewed m env.now (mac m.key q.1) w.before).config =
        config ∙ ap (λ (z : Lease). z.config) next in
      let full : resource ≢ [] = λ n. w.full (shown ∙ n) in
      record {
        before = w.before;
        found = get-read db c u mac m s resource full ∙ rw (← shown) w.found;
        proved = proved;
        stored = get-read db c u mac m s' resource full ∙ rw (← shown, ← w.id_is) up.read;
        same_holder = ap (λ (x : LeaseConfig). x.node_id) config';
        same_fencing = ap (λ (x : LeaseConfig). x.fencing_token) config';
        expiry = ap (λ (x : LeaseConfig). x.expires_at) config';
        secret = cc (status, ap (λ (z : Lease). z.status) next, same);
      }
