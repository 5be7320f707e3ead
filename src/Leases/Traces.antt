-- ===== src/Leases/Traces.antt =====
-- internal/infra/lease_manager.go: sequences of calls on one resource.
use blipblop.Base.{
  ℕ, Text, ◌≡◌, refl, sym, ap, ◌∙◌, ◌⊎◌, inl, inr, ◌+◌, ◌*◌, ◌≤◌, ◌<◌, none, some, List, [], ◌∷◌,
  arith, length, All,
}
use blipblop.Errs.{Result, ok, err, panic, IsAtomic}
use blipblop.Keys.{Uuids, uuid_len}
use blipblop.Kv.{ScanKv}
use blipblop.Api.{Lease}
use blipblop.Leases.{LeaseCodec, Env, Manager, second, acquire, get, renew}
use blipblop.Leases.Grants.{acquire-Granted, Prior, free, taken}
use blipblop.Leases.Exclusion.{acquire-IsAtomic, renew-IsAtomic}
use blipblop.Leases.Renewal.{renew-Renewed}

-- The calls on a lease that do not give it up.
pub data Call : Type 0 where
  acquires : Text → ℕ → Call
  renews : Text → ℕ → Text → Call

IsAtomic-cases :
    {A S : Type 0} (s : S) (q : Result A × S)
    → IsAtomic s q
    → ((a : A) × (q ≡ (ok a, q.1))) ⊎ (q.1 ≡ s)
IsAtomic-cases s (ok a, t) h = inl (a, refl)
IsAtomic-cases s (err e, t) h = inr h
IsAtomic-cases s (panic, t) h = inr h

module _ (db : ScanKv) (c : LeaseCodec) (u : Uuids) (mac : Text → Text → Text) (m : Manager) where
  open db use {kv}

  pub step : kv.Store → Text → Env × Call → kv.Store
  step s resource (env, acquires holder ttl) =
      (acquire db c u mac m none env s resource holder ttl).1
  step s resource (env, renews holder ttl token) =
      (renew db c u mac m none env s resource holder ttl token).1

  pub run : kv.Store → Text → List (Env × Call) → kv.Store
  unfolding step
  run s resource [] = s
  run s resource (call ∷ calls) = run (step s resource call) resource calls

  -- The holder has the resource at least until `until`.
  pub record Holds (s : kv.Store) (resource holder : Text) (until : ℕ) : Type 0 where
    pub lease : Lease
    pub stored : get db c u mac m none s resource ≡ ok lease
    pub holder_is : lease.config.node_id ≡ holder
    pub lasts : until ≤ lease.config.expires_at

  -- A call made with the clock between `from` and `until`.
  abbrev pub During : ℕ → ℕ → Env × Call → Type 0
  During from until (env, call) =
      (length env.fresh.uuid ≡ uuid_len) × (from ≤ env.now) × (env.now < until)

  Prior-holder :
      (env : Env) (s : kv.Store) (resource holder : Text) (cur l : Lease)
      → get db c u mac m none s resource ≡ ok cur
      → env.now < cur.config.expires_at
      → Prior db c u mac m env s resource holder l
      → cur.config.node_id ≡ holder
  Prior-holder env s resource holder cur l g running (free e h _ _) = absurd (cc (g, h))
  Prior-holder env s resource holder cur l g running (taken old h may _) =
      let same : cur ≡ old = cc (g, h) in
      elim may [
        | inl over ↦
            absurd (omega (arith, over, running, ap (λ (x : Lease). x.config.expires_at) same))
        | inr mine ↦ ap (λ (x : Lease). x.config.node_id) same ∙ mine
      ]

  step-Holds :
      (s : kv.Store) (resource v holder : Text) (from until : ℕ) (call : Env × Call)
      → u.parse resource ≡ some v
      → u.to_string v ≡ resource
      → until ≤ from + m.ttl * second
      → During from until call
      → Holds s resource holder until
      → Holds (step s resource call) resource holder until
  unfolding step
  step-Holds s resource v holder from until (env, acquires who ttl) parsed shown short d h =
      elim (IsAtomic-cases s (acquire db c u mac m none env s resource who ttl)
        (acquire-IsAtomic db c u mac m env s resource who ttl d.0)) [
          | inr same ↦ rw same h
          | inl ((l, token), e) ↦
              let g = acquire-Granted db c u mac m env s _ resource who ttl l token d.0 e in
              let mine =
                Prior-holder env s resource who h.lease l h.stored (omega (arith, d.2, h.lasts))
                  g.prior in
              record {
                lease = l;
                stored = g.stored;
                holder_is = g.holder_is ∙ sym mine ∙ h.holder_is;
                lasts = omega (arith, g.expiry, d.1, short);
              }
        ]
  step-Holds s resource v holder from until (env, renews who ttl token) parsed shown short d h =
      elim (IsAtomic-cases s (renew db c u mac m none env s resource who ttl token)
        (renew-IsAtomic db c u mac m env s resource who ttl token)) [
          | inr same ↦ rw same h
          | inl ((l, token'), e) ↦
              let g =
                renew-Renewed db c u mac m env s _ resource v who ttl token l token' parsed shown
                  e in
              let same : g.before ≡ h.lease = cc (g.found, h.stored) in
              record {
                lease = l;
                stored = g.stored;
                holder_is = g.same_holder ∙ ap (λ (x : Lease). x.config.node_id) same ∙ h.holder_is;
                lasts = omega (arith, g.expiry, d.1, short);
              }
        ]

  -- Through any sequence of Acquire and Renew calls by any callers, made with the clock at or after
  -- a time `from` and before a time `until` that is at most the manager's ttl after `from`, a
  -- holder whose lease lasts until `until` still has the resource, with a lease that lasts until
  -- then. The resource is a UUID in the form that uuid.UUID prints, and fresh UUIDs have 16 bytes.
  -- Contexts are not done.
  pub run-Holds :
      (s : kv.Store) (resource v holder : Text) (from until : ℕ) (calls : List (Env × Call))
      → u.parse resource ≡ some v
      → u.to_string v ≡ resource
      → until ≤ from + m.ttl * second
      → All (During from until) calls
      → Holds s resource holder until
      → Holds (run s resource calls) resource holder until
  unfolding run
  run-Holds s resource v holder from until [] parsed shown short d h = h
  run-Holds s resource v holder from until (call ∷ calls) parsed shown short d h =
      run-Holds (step s resource call) resource v holder from until calls parsed shown short d.1
        (step-Holds s resource v holder from until call parsed shown short d.0 h)
