-- ===== src/Services/Leasing.antt =====
-- internal/app/lease.go and internal/transport/grpc/lease.go: the lease service and its gRPC handlers,
-- with the client of pkg/client/lease/v1/lease.go, which hands on what the handler returns. gRPC
-- carries the status of an error. `acquired` is what the service gave to the exchange as
-- LeaseAcquired, whose errors are only logged.
use blipblop.Base.{ℕ, Text, none, some, List, ◌∷◌}
use blipblop.Errs.{Result, ok, err, panic, Ctx, to_status}
use blipblop.Keys.{Uuids}
use blipblop.Kv.{ScanKv}
use blipblop.Api.{Lease}
use blipblop.Leases.{LeaseCodec, Env, Manager}
use blipblop.Leases

-- `return nil, toStatus(err)`
unfoldable pub across {ℓ} : {A : Type ℓ} → Result A → Result A
unfolding to_status
across (ok a) = ok a
across (err e) = elim (to_status (some e)) [ none ↦ panic | some x ↦ err x ]
across panic = panic

module _ (db : ScanKv) (c : LeaseCodec) (u : Uuids) (mac : Text → Text → Text) (m : Manager)
    (ttl : ℕ) where
  open db use {kv}

  pub record State : Type 0 where
    pub leases : kv.Store
    pub acquired : List Lease

  pub publish_acquired : State → Result (Lease × Text) × kv.Store → Result (Lease × Text) × State
  publish_acquired s (ok (lease, token), t) =
      (ok (lease, token), record { leases = t; acquired = lease ∷ s.acquired })
  publish_acquired s (err e, t) = (err e, record s { leases = t })
  publish_acquired s (panic, t) = (panic, record s { leases = t })

  unfoldable pub acquire : Ctx → Env → Text → Text → State → Result (Lease × Text) × State
  unfolding publish_acquired
  acquire ctx env task node s =
      publish_acquired s (Leases.acquire db c u mac m ctx env s.leases task node ttl)

  unfoldable pub stored : {A : Type 0} → State → Result A × kv.Store → Result A × State
  stored s (r, t) = (r, record s { leases = t })

  unfoldable pub get : Ctx → Text → State → Result Lease
  get ctx task s = Leases.get db c u mac m ctx s.leases task

  unfoldable pub list : Ctx → Result (List Text) → Result (List Lease)
  list ctx listed = Leases.list db c u mac m ctx listed

  unfoldable pub revoke : Ctx → Text → Text → State → Result (Unit {0}) × State
  unfolding stored
  revoke ctx task holder s = stored s (Leases.revoke db c u mac m ctx s.leases task holder)

  unfoldable pub release : Ctx → Text → Text → Text → State → Result (Unit {0}) × State
  unfolding stored
  release ctx task holder token s =
      stored s (Leases.release db c u mac m ctx s.leases task holder token)

  unfoldable pub renew : Ctx → Env → Text → Text → Text → State → Result (Lease × Text) × State
  unfolding stored
  renew ctx env task node token s =
      stored s (Leases.renew db c u mac m ctx env s.leases task node ttl token)

  unfoldable pub across_state : {A : Type 0} → Result A × State → Result A × State
  unfolding across
  across_state (r, s) = (across r, s)

  -- The handlers, as the client sees them.
  unfoldable pub list_leases : Ctx → Result (List Text) → Result (List Lease)
  unfolding list across
  list_leases ctx listed = across (list ctx listed)

  unfoldable pub get_lease : Ctx → Text → State → Result Lease
  unfolding get across
  get_lease ctx task s = across (get ctx task s)

  unfoldable pub acquire_lease : Ctx → Env → Text → Text → State → Result (Lease × Text) × State
  unfolding acquire across_state
  acquire_lease ctx env task node s = across_state (acquire ctx env task node s)

  unfoldable pub revoke_lease : Ctx → Text → Text → State → Result (Unit {0}) × State
  unfolding revoke across_state
  revoke_lease ctx task holder s = across_state (revoke ctx task holder s)

  unfoldable pub release_lease : Ctx → Text → Text → Text → State → Result (Unit {0}) × State
  unfolding release across_state
  release_lease ctx task holder token s = across_state (release ctx task holder token s)

  unfoldable pub renew_lease :
      Ctx → Env → Text → Text → Text → State → Result (Lease × Text) × State
  unfolding renew across_state
  renew_lease ctx env task node token s = across_state (renew ctx env task node token s)
