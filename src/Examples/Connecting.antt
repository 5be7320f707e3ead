-- ===== src/Examples/Connecting.antt =====
-- A node that connects, connects again and is disconnected.
use blipblop.Base.{
  ℕ, Text, ◌≡◌, refl, false, none, some, [], ◌∷◌, codes, arith, list_eq, nat_eq, list_beq,
  list_beq_iff, ◌==◌, inl, inr, Bool-cases, ◌<◌,
}
use blipblop.Dict.{lookup}
use blipblop.Errs.{Result, ok, err, panic}
use blipblop.Api.{Node}
use blipblop.Sessions.{Manager, connect}
use blipblop.Sessions.Delivery.{IsManager, Replaced, connect-Replaced}
use blipblop.Examples.Setting.{node_a}

abbrev pub node : Node
node = record {
  meta = record {
    name = codes "n";
    uid = node_a;
    labels = [];
    resource_version = 1;
    generation = 1;
    created = 0;
    updated = 0;
  };
  phase = codes "ready";
}

-- Node a has session 0.
abbrev pub online : Manager Text
online = record {
  sessions = (node_a, 0) ∷ [];
  heap = λ p. record { node_uid = node_a; node = node; out = []; is_closed = false };
  next = 1;
  out_buf = 64;
  published = [];
}

online-IsManager : IsManager Text online
online-IsManager uid p h = record {
  of_node = named uid p h;
  is_running = refl;
  made = pointer uid p h;
}
  where
    named : (k : Text) (q : ℕ) → lookup k online.sessions ≡ some q → node_a ≡ k
    named k q e = elim (Bool-cases (node_a == k)) [
      | inl same ↦ (list_beq_iff node_a k).0 same
      | inr other ↦ absurd (cc (e, other))
    ]

    pointer : (k : Text) (q : ℕ) → lookup k online.sessions ≡ some q → q < 1
    pointer k q e = elim (Bool-cases (node_a == k)) [
      | inl same ↦ let zero_it : 0 ≡ q = cc (e, same) in omega (arith, zero_it)
      | inr other ↦ absurd (cc (e, other))
    ]

abbrev manager_of : Result (ℕ × Manager Text) → Manager Text
manager_of (ok (p, m)) = m
manager_of (err e) = online
manager_of panic = online

reconnect :
    connect Text none node node_a (codes "n") online
    ≡ ok (1, manager_of (connect Text none node node_a (codes "n") online))
unfolding connect list_beq
reconnect = refl

connect-Replaced_example :
    (1 ≡ online.next)
    × Replaced Text node_a online (manager_of (connect Text none node node_a (codes "n") online))
connect-Replaced_example =
    connect-Replaced Text node node_a (codes "n") online
      (manager_of (connect Text none node node_a (codes "n") online)) 1 online-IsManager reconnect
