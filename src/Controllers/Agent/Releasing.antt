-- ===== src/Controllers/Agent/Releasing.antt =====
-- pkg/controller/node/handler_task.go: what `stopTask` and `killTask` have done when they return.
use blipblop.Base.{
  Text, ◌≡◌, ◌≢◌, refl, ap, ◌∙◌, inl, inr, ◌⊎◌, Bool, true, false, Bool-cases, none, ◌==◌, list_eq,
  nat_eq, if◌then◌else◌,
}
use blipblop.Dict.{lookup, insert, remove, lookup-remove}
use blipblop.Errs.{Result, ok, err, panic, Result-cases}
use blipblop.Api.{Node, Task}
use blipblop.Effect.{Eff, run_next, ◌>>◌}
use blipblop.Conditions.{Reason, stopping}
use blipblop.Controllers.Agent.{State, default_ports, get_node, quiet}
use blipblop.Controllers.Agent.Hosting.{Host}
use blipblop.Controllers.Agent.Working.{
  mark, unmark, drop_epoch, release_with, let_go, wind_down, stop_as, end_task,
}
use blipblop.Controllers.Agent.Framing.{wind_down-Keeps}

unfoldable pub is_ok : {A : Type 0} → Result A → Bool
is_ok (ok a) = true
is_ok (err e) = false
is_ok panic = false

module _ (h : Host) where
  open h use {rt, api, tokens}

  -- The token of the task was given back with its lease, or there was none.
  pub LetGo : Text → Text → tokens.Files → State h → Type 0
  LetGo uid node_uid files s' =
      ((token : Text) × (w : api.Server) × (tokens.load uid files ≡ ok token)
        × (s'.files ≡ (tokens.forget_token uid files).1)
        × (s'.server ≡ (api.release uid node_uid token w).1))
      ⊎ ((is_ok (tokens.load uid files) ≡ false) × (s'.files ≡ files))

  pub record Released (uid node_uid : Text) (s s' : State h) : Type 0 where
    pub markers :
        (k : Text) → lookup k s'.operations ≡ (if uid == k then none else lookup k s.operations)
    pub epochs_left :
        (k : Text) → lookup k s'.epochs ≡ (if uid == k then none else lookup k s.epochs)
    pub let_go_of : LetGo uid node_uid s.files s'

  quiet-ok : {A : Type 0} (r : Result A) → r ≢ panic → quiet r ≡ ok tt
  quiet-ok (ok a) w = refl
  quiet-ok (err e) w = refl
  quiet-ok panic w = absurd (w refl)

  release_with-LetGo :
      (uid node_uid : Text) (t : State h) (r : Result Text)
      → ((token : Text) (w : api.Server) → (api.release uid node_uid token w).0 ≢ panic)
      → tokens.load uid t.files ≡ r
      → LetGo uid node_uid t.files (release_with h uid node_uid r t).1
  unfolding LetGo release_with run_next ◌>>◌ is_ok
  release_with-LetGo uid node_uid t (ok token) calm e =
      let done = quiet-ok (api.release uid node_uid token t.server).0 (calm token t.server) in
      inl (token, t.server, e, rw done refl, rw done refl)
  release_with-LetGo uid node_uid t (err x) calm e = inr (ap is_ok e, refl)
  release_with-LetGo uid node_uid t panic calm e = inr (ap is_ok e, refl)

  -- Release writes neither the markers nor the epochs, and has no part in the containers.
  pub release_with-maps :
      (uid node_uid : Text) (t : State h) (r : Result Text)
      → ((release_with h uid node_uid r t).1.operations ≡ t.operations)
        × ((release_with h uid node_uid r t).1.epochs ≡ t.epochs)
        × ((release_with h uid node_uid r t).1.containers ≡ t.containers)
  unfolding release_with ◌>>◌ run_next
  release_with-maps uid node_uid t (ok token) =
      elim (Result-cases (api.release uid node_uid token t.server).0) [
        | inl (_, e) ↦ rw e (refl, refl, refl)
        | inr (inl (_, e)) ↦ rw e (refl, refl, refl)
        | inr (inr e) ↦ rw e (refl, refl, refl)
      ]
  release_with-maps uid node_uid t (err x) = (refl, refl, refl)
  release_with-maps uid node_uid t panic = (refl, refl, refl)

  let_go-Released :
      (uid node_uid : Text) (t : State h)
      → ((token : Text) (w : api.Server) → (api.release uid node_uid token w).0 ≢ panic)
      → Released uid node_uid t (let_go h uid node_uid t).1
  unfolding let_go run_next ◌>>◌ unmark drop_epoch
  let_go-Released uid node_uid t calm =
      let u : State h = record t {
        operations = remove uid t.operations;
        epochs = remove uid t.epochs;
      } in
      let (ops, eps, _) = release_with-maps uid node_uid u (tokens.load uid t.files) in
      record {
        markers = λ k. ap (lookup k) ops ∙ lookup-remove uid k t.operations;
        epochs_left = λ k. ap (lookup k) eps ∙ lookup-remove uid k t.epochs;
        let_go_of = release_with-LetGo uid node_uid u (tokens.load uid t.files) calm refl;
      }

  -- the marker that was set is not there either
  pub marked :
      (uid k : Text) (why : Reason) (s : State h)
      → (if uid == k then none else lookup k (insert uid why s.operations))
        ≡ (if uid == k then none else lookup k s.operations)
  marked uid k why s = elim (Bool-cases (uid == k)) [
    | inl same ↦ rw same refl
    | inr other ↦ rw other (lookup-remove uid k s.operations ∙ rw other refl)
  ]

  stop_as-Released :
      (act : Task → Eff rt.Containers (Unit {0})) (uid node_uid : Text) (s : State h)
      → ((token : Text) (w : api.Server) → (api.release uid node_uid token w).0 ≢ panic)
      → Released uid node_uid s (stop_as h act uid node_uid s).1
  unfolding stop_as mark default_ports
  stop_as-Released act uid node_uid s calm =
      let s₁ : State h = record s { operations = insert uid stopping s.operations } in
      let t : State h = (wind_down h act node_uid s₁).1 in
      let same = wind_down-Keeps h (λ x. x.meta) (λ x. refl) act node_uid s₁ in
      let w = let_go-Released uid node_uid t calm in
      record {
        markers = λ k.
            w.markers k
            ∙ ap (λ m. if uid == k then none else lookup k m) same.operations_same
            ∙ marked uid k stopping s;
        epochs_left =
            λ k. w.epochs_left k ∙ ap (λ m. if uid == k then none else lookup k m) same.epochs_same;
        let_go_of = rw same.files_same at w.let_go_of;
      }

  -- Once the node was got, stopTask and killTask have done the same whatever went wrong before: the
  -- task's marker and its epoch are gone and no others, and if the store has a refresh token,
  -- Release was called with it and the token was deleted, while else the store is as it was. The
  -- API's client does not panic in Release.
  pub end_task-Released :
      (act : Task → Eff rt.Containers (Unit {0})) (t : Task) (node : Node) (s : State h)
      → ((token : Text) (w : api.Server) → (api.release t.meta.uid node.meta.uid token w).0 ≢ panic)
      → (get_node h s).0 ≡ ok node
      → Released t.meta.uid node.meta.uid s (end_task h act t s).1
  unfolding end_task run_next get_node
  end_task-Released act t node s calm got =
      let s₁ : State h = record s { task = t; server = (get_node h s).1.server } in
      let w = stop_as-Released act t.meta.uid node.meta.uid s₁ calm in
      rw got (record { markers = w.markers; epochs_left = w.epochs_left; let_go_of = w.let_go_of })
