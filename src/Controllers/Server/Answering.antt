-- ===== src/Controllers/Server/Answering.antt =====
-- Leases and node sessions keep what the controllers rely on.
use mathlib.Core.Path.{ap₂}
use blipblop.Base.{
  ℕ, Text, ◌≡◌, ◌≢◌, refl, sym, ap, ◌∙◌, inl, inr, Bool, true, none, some, [], ◌∷◌, ◌++◌, ◌==◌,
  list_eq, nat_eq, nat_beq_iff, list_beq_iff, Bool-cases,
}
use blipblop.Dict.{lookup}
use blipblop.Errs.{
  Err, Result, ok, err, panic, Result-cases, is_not_found, to_status, repo_not_found,
}
use blipblop.Errs.Status.{to_status-classes}
use blipblop.Keys.{Uuids}
use blipblop.Kv.{ScanKv}
use blipblop.Leases.{LeaseCodec, Manager, revoke, release_lease, release_checks, may_release, if_ok}
use blipblop.Leases
use blipblop.Leases.Release.{checks_of_get, revoke_succeeds, revoke-unnamed}
use blipblop.Leases.Linking.{IsLinked}
use blipblop.Sessions
use blipblop.Sessions.{is_node_connected, send_to_node, send_found, send}
use blipblop.Services.Leasing.{State, across, get_lease, revoke_lease, stored, across_state}
use blipblop.Services.Leasing
use blipblop.Controllers.Client.{ClientLaws, NoLease, NodeEvent}
use blipblop.Sessions.Sending.{pushed, send_to_node-ok}
use blipblop.Controllers.Server.{
  Others, Server, server_client, of_rest, of_leasing, of_sessions, waiting, outbox,
}

across_of_ok : {A : Type 0} (a : A) → across (ok a) ≡ ok a
unfolding across
across_of_ok a = refl

across_of_panic : {A : Type 0} → across {A = A} panic ≡ panic
unfolding across
across_of_panic = refl

across_of_err :
    {A : Type 0} (e : Err)
    → (x : Err) × (across {A = A} (err e) ≡ err x) × (is_not_found (some x) ≡ is_not_found (some e))
unfolding across to_status
across_of_err e = (_, refl, (to_status-classes (some e)).0)

across-ok : {A : Type 0} (r : Result A) (a : A) → across r ≡ ok a → r ≡ ok a
across-ok (ok x) a h = sym (across_of_ok x) ∙ h
across-ok {A = A} (err e) a h = let (x, e₁, _) = across_of_err {A = A} e in absurd (cc (e₁, h))
across-ok {A = A} panic a h = absurd (cc (across_of_panic {A = A}, h))

across-err :
    {A : Type 0} (r : Result A) (e : Err)
    → across r ≡ err e
    → (x : Err) × (r ≡ err x) × (is_not_found (some e) ≡ is_not_found (some x))
across-err (ok x) e h = absurd (cc (across_of_ok x, h))
across-err {A = A} (err x) e h =
    let (y, e₁, same) = across_of_err {A = A} x in
    let it : y ≡ e = cc (e₁, h) in (x, refl, ap (λ z. is_not_found (some z)) (sym it) ∙ same)
across-err {A = A} panic e h = absurd (cc (across_of_panic {A = A}, h))

module _ (db : ScanKv) (c : LeaseCodec) (u : Uuids) (mac : Text → Text → Text) (m : Manager)
    (ttl : ℕ) (o : Others) (choice : Bool) where
  open db use {kv}

  abbrev pub The : Type 0
  The = Server db c u mac m ttl o choice

  NoLease-of_get :
      (task : Text) (s : The) (x : Err)
      → Leases.get db c u mac m none s.leasing.leases task ≡ err x
      → is_not_found (some x) ≡ true
      → NoLease (server_client db c u mac m ttl o choice) s task
  unfolding get_lease Leasing.get
  NoLease-of_get task s x g missing =
      let (y, e, same) = across_of_err x in
      record { error = y; missing = ap across g ∙ e; is_missing = same ∙ missing }

  -- Revoke fails without a change where Get fails.
  revoke-unfound :
      (task holder : Text) (s : kv.Store) (x : Err)
      → holder ≢ []
      → Leases.get db c u mac m none s task ≡ err x
      → revoke db c u mac m none s task holder ≡ (err x, s)
  unfolding revoke release_lease
  revoke-unfound task holder s x named g =
      rw (checks_of_get db c u mac m s task holder [] true named, g, if_ok) refl

  revoke-panic :
      (task holder : Text) (s : kv.Store)
      → holder ≢ []
      → Leases.get db c u mac m none s task ≡ panic
      → revoke db c u mac m none s task holder ≡ (panic, s)
  unfolding revoke release_lease
  revoke-panic task holder s named g =
      rw (checks_of_get db c u mac m s task holder [] true named, g, if_ok) refl

  -- Whatever Revoke finds, the task has no lease after it succeeded.
  revoke_gone :
      (task holder : Text) (s s' : kv.Store)
      → IsLinked db c u mac m s task
      → revoke db c u mac m none s task holder ≡ (ok tt, s')
      → Leases.get db c u mac m none s' task ≡ err repo_not_found
  revoke_gone task holder s s' good h = elim (Bool-cases (holder == [])) [
    | inl empty ↦
        absurd (cc (revoke-unnamed db c u mac m s task, (list_beq_iff holder []).0 empty, h))
    | inr named ↦
        let full : holder ≢ [] = λ e. cc ((list_beq_iff holder []).1 e, named) in
        elim (Result-cases (Leases.get db c u mac m none s task)) [
          | inl (l, g) ↦
              let (s'', d, gone) = revoke_succeeds db c u mac m s task holder l full g (good l g) in
              let same : s'' ≡ s' = ap (λ x. x.1) (sym d ∙ h) in
              ap (λ x. Leases.get db c u mac m none x task) (sym same) ∙ gone
          | inr (inl (x, g)) ↦ absurd (cc (revoke-unfound task holder s x full g, h))
          | inr (inr g) ↦ absurd (cc (revoke-panic task holder s full g, h))
        ]
  ]

  -- Revoke that fails with "not found" found no lease.
  revoke_missing :
      (task holder : Text) (s s' : kv.Store) (x : Err)
      → IsLinked db c u mac m s task
      → holder ≢ []
      → revoke db c u mac m none s task holder ≡ (err x, s')
      → Leases.get db c u mac m none s' task ≡ err x
  revoke_missing task holder s s' x good full h =
      elim (Result-cases (Leases.get db c u mac m none s task)) [
        | inl (l, g) ↦
            let (s'', d, gone) = revoke_succeeds db c u mac m s task holder l full g (good l g) in
            absurd (cc (d, h))
        | inr (inl (y, g)) ↦
            let failed = revoke-unfound task holder s y full g in
            let same : s ≡ s' = ap (λ z. z.1) (sym failed ∙ h) in
            let it : y ≡ x = cc (failed, h) in
            ap (λ z. Leases.get db c u mac m none z task) (sym same) ∙ g ∙ ap err it
        | inr (inr g) ↦ absurd (cc (revoke-panic task holder s full g, h))
      ]

  IsSound : The → Text → Type 0
  IsSound s task = IsLinked db c u mac m s.leasing.leases task

  -- what a call of `Revoke` comes down to
  revoke_parts :
      (task holder : Text) (s s' : The) (r : Result (Unit {0}))
      → (server_client db c u mac m ttl o choice).revoke task holder s ≡ (r, s')
      → (across (revoke db c u mac m none s.leasing.leases task holder).0 ≡ r)
        × ((revoke db c u mac m none s.leasing.leases task holder).1 ≡ s'.leasing.leases)
  unfolding of_leasing revoke_lease Leasing.revoke stored across_state
  revoke_parts task holder s s' r h = (ap (λ x. x.0) h, ap (λ x. x.1.leasing.leases) h)

  revoke-NoLease :
      (task holder : Text) (s s' : The)
      → IsSound s task
      → (server_client db c u mac m ttl o choice).revoke task holder s ≡ (ok tt, s')
      → NoLease (server_client db c u mac m ttl o choice) s' task
  unfolding IsSound
  revoke-NoLease task holder s s' good h =
      let (answer, after) = revoke_parts task holder s s' (ok tt) h in
      let raw = ap₂ (λ x y. (x, y)) (across-ok _ tt answer) after in
      NoLease-of_get task s' repo_not_found
        (revoke_gone task holder s.leasing.leases s'.leasing.leases good raw)
        (unfold is_not_found in refl)

  revoke_missing-NoLease :
      (task holder : Text) (s s' : The) (e : Err)
      → IsSound s task
      → holder ≢ []
      → (server_client db c u mac m ttl o choice).revoke task holder s ≡ (err e, s')
      → is_not_found (some e) ≡ true
      → NoLease (server_client db c u mac m ttl o choice) s' task
  unfolding IsSound
  revoke_missing-NoLease task holder s s' e good full h missing =
      let (answer, after) = revoke_parts task holder s s' (err e) h in
      let (x, failed, same) = across-err _ e answer in
      let raw = ap₂ (λ y z. (y, z)) failed after in
      NoLease-of_get task s' x
        (revoke_missing task holder s.leasing.leases s'.leasing.leases x good full raw)
        (sym same ∙ missing)

  missing-IsSound :
      (s : The) (task : Text)
      → NoLease (server_client db c u mac m ttl o choice) s task
      → IsSound s task
  unfolding IsSound get_lease Leasing.get
  missing-IsSound s task k l g = absurd (cc (ap across g, across_of_ok l, k.missing))

  waiting-pushed :
      (p : ℕ) (ev : NodeEvent) (q : Sessions.Manager NodeEvent)
      → waiting db c u mac m ttl o choice (some p) (pushed NodeEvent p ev q)
        ≡ waiting db c u mac m ttl o choice (some p) q ++ ev ∷ []
  unfolding waiting
  waiting-pushed p ev q = rw ((nat_beq_iff p p).1 refl, waiting) refl

  outbox-send :
      (node : Text) (ev : NodeEvent) (s s' : The)
      → (server_client db c u mac m ttl o choice).send node ev s ≡ (ok tt, s')
      → outbox db c u mac m ttl o choice node s'
        ≡ outbox db c u mac m ttl o choice node s ++ ev ∷ []
  unfolding outbox of_sessions waiting
  outbox-send node ev s s' h =
      let (p, here, same) =
        send_to_node-ok NodeEvent choice node ev s.sessions s'.sessions
          (ap (λ x. (x.0, x.1.sessions)) h) in
      ap (λ q. waiting db c u mac m ttl o choice (lookup node q.sessions) q) same
      ∙ rw here (waiting-pushed p ev s.sessions)

  -- The lease service and the node sessions answer the controllers' calls the way that the
  -- controllers rely on.
  pub server_laws : ClientLaws (server_client db c u mac m ttl o choice)
  unfolding IsSound outbox get_lease Leasing.get of_sessions of_rest of_leasing waiting
  server_laws = record {
    Sound = IsSound;
    outbox = outbox db c u mac m ttl o choice;
    revoke-ok = revoke-NoLease;
    revoke-missing = revoke_missing-NoLease;
    Sound-missing = missing-IsSound;
    send-ok = outbox-send;
    get_lease-send = λ task node ev s. refl;
    get_lease-set_status = λ task t st mask s. refl;
    outbox-set_status = λ node t st mask s. refl;
    outbox-revoke = λ node task holder s. refl;
  }

  -- A task whose index entry leads to its lease is sound.
  pub sound_of_linked :
      (s : The) (task : Text)
      → IsLinked db c u mac m s.leasing.leases task
      → server_laws.Sound s task
  unfolding server_laws IsSound
  sound_of_linked s task h = h
