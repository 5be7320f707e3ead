-- ===== src/Sessions/Delivery.antt =====
-- internal/app/node_sessions.go: connecting, closing and sending.
use blipblop.Base.{
  ℕ, Text, ◌≡◌, ◌≢◌, refl, sym, ap, ◌∙◌, inl, inr, ◌<◌, Bool, true, false, Option, none, some, [],
  ◌==◌, list_eq, nat_eq, nat_beq_iff, list_beq_iff, Bool-cases, arith,
}
use blipblop.Dict.{Dict, lookup, lookup-insert, lookup-remove}
use blipblop.Heap.{store-cases}
use blipblop.Errs.{ok, err, Result-cases, node_not_connected}
use blipblop.Api.{Node}
use blipblop.Sessions.{
  NodeSession, Manager, close, close_once, close_old, open_session, connect_checks, connect,
  connected, disconnect, send_found, send_to_node, drop_session,
}

module _ (E : Type 0) where
  -- Each session in the map is of the node that it stands under, is open, and was made before.
  pub record IsOpen (m : Manager E) (uid : Text) (p : ℕ) : Type 0 where
    pub of_node : (m.heap p).node_uid ≡ uid
    pub is_running : (m.heap p).is_closed ≡ false
    pub made : p < m.next

  abbrev pub IsManager : Manager E → Type 0
  IsManager m = (uid : Text) (p : ℕ) → lookup uid m.sessions ≡ some p → IsOpen m uid p

  close-closed : (p : ℕ) (m : Manager E) → (m.heap p).is_closed ≡ true → close E p m ≡ m
  unfolding close
  close-closed p m shut = rw shut

  close-running :
      (p : ℕ) (m : Manager E) → (m.heap p).is_closed ≡ false → close E p m ≡ close_once E p m
  unfolding close
  close-running p m running = rw running

  close_once-heap :
      (p q : ℕ) (m : Manager E)
      → (((close_once E p m).heap p).is_closed ≡ true)
        × (p ≢ q → (close_once E p m).heap q ≡ m.heap q)
  unfolding close_once
  close_once-heap p q m = (
    elim (store-cases p p (record (m.heap p) { is_closed = true }) m.heap) [
      | inl (_, e) ↦ ap (λ (x : NodeSession E). x.is_closed) e
      | inr (other, _) ↦ absurd (other refl)
    ],
    λ other. elim (store-cases p q (record (m.heap p) { is_closed = true }) m.heap) [
      | inl (e, _) ↦ absurd (other e)
      | inr (_, e) ↦ e
    ],
  )

  pub close-IsClosed : (p : ℕ) (m : Manager E) → ((close E p m).heap p).is_closed ≡ true
  close-IsClosed p m = elim (Bool-cases (m.heap p).is_closed) [
    | inl shut ↦ ap (λ (n : Manager E). (n.heap p).is_closed) (close-closed p m shut) ∙ shut
    | inr running ↦
        ap (λ (n : Manager E). (n.heap p).is_closed) (close-running p m running)
        ∙ (close_once-heap p p m).0
  ]

  -- Close of a session that is closed does nothing.
  pub close_idem : (p : ℕ) (m : Manager E) → close E p (close E p m) ≡ close E p m
  close_idem p m = close-closed p (close E p m) (close-IsClosed p m)

  drop_session-ne :
      (p q : ℕ) (uid : Text) (m : Dict Text ℕ) → q ≢ p → drop_session E p uid (some q) m ≡ m
  unfolding drop_session
  drop_session-ne p q uid m other = elim (Bool-cases (q == p)) [
    | inl same ↦ absurd (other ((nat_beq_iff q p).0 same))
    | inr apart ↦ rw apart
  ]

  lookup-drop_session :
      (p : ℕ) (uid : Text) (m : Dict Text ℕ)
      → lookup uid m ≡ some p
      → lookup uid (drop_session E p uid (lookup uid m) m) ≡ none
  unfolding drop_session
  lookup-drop_session p uid m e = rw e (
      rw ((nat_beq_iff p p).1 refl)
        (lookup-remove uid uid m ∙ rw ((list_beq_iff uid uid).1 refl) refl))

  -- Closing a session that another has replaced keeps the map and the other sessions.
  close-replaced :
      (p q : ℕ) (m : Manager E)
      → lookup (m.heap p).node_uid m.sessions ≡ some q
      → q ≢ p
      → ((close E p m).sessions ≡ m.sessions) × ((close E p m).heap q ≡ m.heap q)
  unfolding close_once
  close-replaced p q m here other = elim (Bool-cases (m.heap p).is_closed) [
    | inl shut ↦
        let e = close-closed p m shut in
        (ap (λ (n : Manager E). n.sessions) e, ap (λ (n : Manager E). n.heap q) e)
    | inr running ↦
        let e = close-running p m running in
        (
          ap (λ (n : Manager E). n.sessions) e
              ∙ rw here (drop_session-ne p q (m.heap p).node_uid m.sessions other),
          ap (λ (n : Manager E). n.heap q) e ∙ (close_once-heap p q m).1 (λ same. other (sym same)),
        )
  ]

  open_session-parts :
      (node : Node) (uid : Text) (m : Manager E) (q : ℕ)
      → (lookup uid (open_session E node uid m).sessions ≡ some m.next)
        × (((open_session E node uid m).heap m.next).is_closed ≡ false)
        × (m.next ≢ q → (open_session E node uid m).heap q ≡ m.heap q)
  unfolding open_session
  open_session-parts node uid m q =
      let x : NodeSession E = record { node_uid = uid; node = node; out = []; is_closed = false } in
      (
        lookup-insert uid uid m.next m.sessions ∙ rw ((list_beq_iff uid uid).1 refl) refl,
        elim (store-cases m.next m.next x m.heap) [
          | inl (_, e) ↦ ap (λ (y : NodeSession E). y.is_closed) e
          | inr (other, _) ↦ absurd (other refl)
        ],
        λ other. elim (store-cases m.next q x m.heap) [
          | inl (e, _) ↦ absurd (other e)
          | inr (_, e) ↦ e
        ],
      )

  -- the new session is the node's, it is open, and the session that it replaces is closed
  pub record Replaced (uid : Text) (m m' : Manager E) : Type 0 where
    pub active : lookup uid m'.sessions ≡ some m.next
    pub running : (m'.heap m.next).is_closed ≡ false
    pub ended : (old : ℕ) → lookup uid m.sessions ≡ some old → (m'.heap old).is_closed ≡ true

  close_old-Replaced :
      (node : Node) (uid : Text) (m : Manager E) (o : Option ℕ)
      → o ≡ lookup uid m.sessions
      → IsManager m
      → Replaced uid m (close_old E o (open_session E node uid m))
  unfolding close_old
  close_old-Replaced node uid m none e w =
      let (here, open_now, _) = open_session-parts node uid m 0 in
      record { active = here; running = open_now; ended = λ old h. absurd (cc (e, h)) }
  close_old-Replaced node uid m (some p) e w =
      let m₁ = open_session E node uid m in
      let (here, open_now, keeps) = open_session-parts node uid m p in
      let before = w uid p (sym e) in
      let apart : m.next ≢ p = λ same. omega (arith, same, before.made) in
      let named : (m₁.heap p).node_uid ≡ uid =
        ap (λ (x : NodeSession E). x.node_uid) (keeps apart) ∙ before.of_node in
      let (same_map, same_new) =
        close-replaced p m.next m₁ (ap (λ t. lookup t m₁.sessions) named ∙ here) apart in
      record {
        active = ap (lookup uid) same_map ∙ here;
        running = ap (λ (x : NodeSession E). x.is_closed) same_new ∙ open_now;
        ended = λ old h.
            let it : p ≡ old = cc (e, h) in
            ap (λ q. ((close E p m₁).heap q).is_closed) (sym it) ∙ close-IsClosed p m₁;
      }

  connected-Replaced :
      (node : Node) (uid : Text) (m : Manager E)
      → IsManager m
      → Replaced uid m (connected E node uid m).1
  unfolding connected
  connected-Replaced node uid m w =
      let r = close_old-Replaced node uid m (lookup uid m.sessions) refl w in
      record { active = r.active; running = r.running; ended = r.ended }

  connected-pointer :
      (node : Node) (uid : Text) (m : Manager E) → (connected E node uid m).0 ≡ m.next
  unfolding connected
  connected-pointer node uid m = refl

  -- A successful Connect gives the node a new open session, which is the one in the map even if the
  -- node had a session before; that one is closed. Before the call each session in the map was open
  -- and of the node that it stands under. Contexts are not done.
  pub connect-Replaced :
      (node : Node) (uid name : Text) (m m' : Manager E) (p : ℕ)
      → IsManager m
      → connect E none node uid name m ≡ ok (p, m')
      → (p ≡ m.next) × Replaced uid m m'
  unfolding connect
  connect-Replaced node uid name m m' p w h = elim (Result-cases (connect_checks E none uid name)) [
    | inl (_, e) ↦
        let done : ok (connected E node uid m) ≡ ok (p, m') = rw (e, connect) at h in
        let same : connected E node uid m ≡ (p, m') = cc done in
        (
          sym (ap (λ (x : ℕ × Manager E). x.0) same) ∙ connected-pointer node uid m,
          rw (← ap (λ (x : ℕ × Manager E). x.1) same) (connected-Replaced node uid m w),
        )
    | inr (inl (x, e)) ↦ absurd (cc (rw (e, connect) at h))
    | inr (inr e) ↦ absurd (cc (rw (e, connect) at h))
  ]

  close-forgets :
      (p : ℕ) (uid : Text) (m : Manager E)
      → (m.heap p).is_closed ≡ false
      → (m.heap p).node_uid ≡ uid
      → lookup uid m.sessions ≡ some p
      → lookup uid (close E p m).sessions ≡ none
  unfolding close_once
  close-forgets p uid m running named here =
      ap (λ (n : Manager E). lookup uid n.sessions) (close-running p m running)
      ∙ rw named (lookup-drop_session p uid m.sessions here)

  disconnect_found :
      (uid : Text) (m : Manager E) (o : Option ℕ)
      → o ≡ lookup uid m.sessions
      → IsManager m
      → lookup uid (close_old E o m).sessions ≡ none
  unfolding close_old
  disconnect_found uid m none e w = sym e
  disconnect_found uid m (some p) e w =
      let s = w uid p (sym e) in close-forgets p uid m s.is_running s.of_node (sym e)

  -- After Disconnect of a node, SendToNode of an event to it fails with ErrNodeNotConnected and
  -- changes nothing; the node's UID is not empty, and before it each session in the map was open
  -- and of the node that it stands under. Contexts are not done.
  pub disconnect-send_to_node :
      (uid : Text) (choice : Bool) (ev : E) (m : Manager E)
      → uid ≢ []
      → IsManager m
      → send_to_node E none choice uid (some ev) (disconnect E uid m)
        ≡ (err node_not_connected, disconnect E uid m)
  unfolding send_to_node send_found disconnect
  disconnect-send_to_node uid choice ev m full w =
      let gone = disconnect_found uid m (lookup uid m.sessions) refl w in
      elim (Bool-cases (uid == [])) [
        | inl empty ↦ absurd (full ((list_beq_iff uid []).0 empty))
        | inr named ↦ rw (named, gone)
      ]
