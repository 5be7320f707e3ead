-- ===== src/Sessions/Sending.antt =====
-- internal/app/node_sessions.go: what a successful SendToNode does.
use blipblop.Base.{
  ℕ, Text, ◌≡◌, refl, sym, ap, ◌∙◌, inl, inr, Bool, Option, none, some, [], ◌∷◌, ◌++◌, ◌==◌,
  list_eq, nat_eq, Bool-cases, ltb, length,
}
use blipblop.Dict.{lookup}
use blipblop.Heap.{store}
use blipblop.Errs.{ok}
use blipblop.Sessions.{Manager, send, send_found, send_to_node}

module _ (E : Type 0) where
  -- the event is put at the end of the session's channel
  abbrev pub pushed : ℕ → E → Manager E → Manager E
  pushed p ev m = record m {
    heap = store p (record (m.heap p) { out = (m.heap p).out ++ ev ∷ [] }) m.heap;
  }

  send-ok :
      (choice : Bool) (uid : Text) (p : ℕ) (ev : E) (m m' : Manager E)
      → send E choice uid p ev m ≡ (ok tt, m')
      → m' ≡ pushed p ev m
  unfolding send
  send-ok choice uid p ev m m' h = elim (Bool-cases (m.heap p).is_closed) [
    | inl shut ↦ elim (Bool-cases choice) [
      | inl e ↦ absurd (cc (rw (shut, e) at h))
      | inr e ↦ absurd (cc (rw (shut, e) at h))
    ]
    | inr running ↦ elim (Bool-cases (ltb (length (m.heap p).out) m.out_buf)) [
      | inl room ↦
          let done : send E choice uid p ev m ≡ (ok tt, pushed p ev m) = rw (running, room) refl in
          ap (λ x. x.1) (sym h ∙ done)
      | inr full ↦ absurd (cc (rw (running, full) at h))
    ]
  ]

  send_found-ok :
      (choice : Bool) (uid : Text) (o : Option ℕ) (ev : E) (m m' : Manager E)
      → send_found E choice uid o ev m ≡ (ok tt, m')
      → (p : ℕ) × (o ≡ some p) × (m' ≡ pushed p ev m)
  unfolding send_found
  send_found-ok choice uid none ev m m' h = absurd (cc h)
  send_found-ok choice uid (some p) ev m m' h = (p, refl, send-ok choice uid p ev m m' h)

  pub send_to_node-ok :
      (choice : Bool) (uid : Text) (ev : E) (m m' : Manager E)
      → send_to_node E none choice uid (some ev) m ≡ (ok tt, m')
      → (p : ℕ) × (lookup uid m.sessions ≡ some p) × (m' ≡ pushed p ev m)
  unfolding send_to_node
  send_to_node-ok choice uid ev m m' h = elim (Bool-cases (uid == [])) [
    | inl empty ↦ absurd (cc (rw empty at h))
    | inr named ↦ send_found-ok choice uid (lookup uid m.sessions) ev m m' (rw named at h)
  ]
