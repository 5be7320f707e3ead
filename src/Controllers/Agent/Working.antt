-- ===== src/Controllers/Agent/Working.antt =====
-- pkg/controller/node/handler_task.go: `startTask`, `stopTask` and `killTask`.
use blipblop.Base.{
  ℕ, Text, Option, none, some, [], ◌∷◌, if◌then◌else◌, list_eq, nat_eq, nat_eq, codes,
}
use blipblop.Errs.{Result, ok, err, panic}
use blipblop.Dict.{lookup, insert, remove}
use blipblop.Labels.{Label}
use blipblop.Api.{Task}
use blipblop.Effect.{Eff, run_next, ◌>>=◌, ◌>>◌, pure}
use blipblop.Conditions.{
  Reason, reason_text, new_for_resource, as_reporter, starting, start_failed, running, stopping,
  stopped,
}
use blipblop.Controllers.Agent.Hosting.{Host}
use blipblop.Controllers.Agent.{
  empty_status, or_missing, comparable, epoch_label, on_runtime, on_server, on_files, tolerating,
  ignoring, get_node, set_status, set_phase, set_reason, detach_network, attach_network,
  attach_mounts, detach_mounts, pull_image, delete_task, State,
}

module _ (h : Host) where
  open h use {rt, net, vol, api, tokens, pool, own, err_text, task_equal, print, atoi}

  -- What runs when the handler ends, whatever its result.
  abbrev pub deferred :
      {A : Type 0} → Result A × (State h) → Eff (State h) (Unit {0}) → Result A × (State h)
  deferred (r, s) cleanup = (r, (cleanup s).1)

  unfoldable pub mark : Text → Reason → Eff (State h) (Unit {0})
  mark uid why s = (ok tt, record s { operations = insert uid why s.operations })

  unfoldable pub unmark : Text → Eff (State h) (Unit {0})
  unmark uid s = (ok tt, record s { operations = remove uid s.operations })

  unfoldable pub drop_epoch : Text → Eff (State h) (Unit {0})
  drop_epoch uid s = (ok tt, record s { epochs = remove uid s.epochs })

  -- An error of Release is only logged.
  unfoldable pub release_with : Text → Text → Result Text → Eff (State h) (Unit {0})
  release_with uid node_uid (ok token) = do
    ignoring h (on_server h (api.release uid node_uid token))
    ignoring h (on_files h (tokens.forget_token uid))
  release_with uid node_uid (err e) = pure tt
  release_with uid node_uid panic = λ s. (panic, s)

  -- the deferred function of `stopTask` and `killTask`
  unfoldable pub let_go : Text → Text → Eff (State h) (Unit {0})
  let_go uid node_uid = do
    unmark uid
    drop_epoch uid
    λ s. release_with uid node_uid (tokens.load uid s.files) s

  unfoldable pub new_task_report : Text → Eff (State h) (Unit {0})
  new_task_report reporter s =
      (ok tt, record s { report = as_reporter reporter (new_for_resource s.task.meta) })

  -- the end of `stopTask` and `killTask`, from the call of the runtime
  unfoldable pub halt : (Task → Eff rt.Containers (Unit {0})) → Eff (State h) (Unit {0})
  halt act = do
    λ s. tolerating h (on_runtime h (act s.task)) s
    tolerating h (delete_task h)
    λ s. set_phase h s.task.meta.uid stopped s
    λ s. set_reason h s.task.meta.uid [] s

  -- An error of `detachMounts` ends the handler without an error.
  unfoldable pub halt_unless :
      (Task → Eff rt.Containers (Unit {0}))
      → Result (Unit {0}) × (State h)
      → Result (Unit {0}) × (State h)
  halt_unless act (ok _, s) = halt act s
  halt_unless act (err e, s) = (ok tt, s)
  halt_unless act (panic, s) = (panic, s)

  -- what is between the two deferred functions
  unfoldable pub wind_down : (Task → Eff rt.Containers (Unit {0})) → Text → Eff (State h) (Unit {0})
  wind_down act node_uid = do
    new_task_report node_uid
    tolerating h (detach_network h)
    λ s. halt_unless act (tolerating h (detach_mounts h) s)

  unfoldable pub stop_as :
      (Task → Eff rt.Containers (Unit {0})) → Text → Text → Eff (State h) (Unit {0})
  stop_as act uid node_uid s =
      deferred (wind_down act node_uid (mark uid stopping s).1) (let_go uid node_uid)

  -- `stopTask` and `killTask`, which differ in the call of the runtime
  unfoldable pub end_task : (Task → Eff rt.Containers (Unit {0})) → Task → Eff (State h) (Unit {0})
  end_task act t s =
      run_next (get_node h (record s { task = t })) (λ node. stop_as act t.meta.uid node.meta.uid)

  unfoldable pub stop_task : Task → Eff (State h) (Unit {0})
  stop_task = end_task rt.stop

  unfoldable pub kill_task : Task → Eff (State h) (Unit {0})
  kill_task = end_task rt.kill

  unfoldable pub epoch_labels : Option ℕ → Label
  epoch_labels none = []
  epoch_labels (some epoch) = (epoch_label, print epoch) ∷ []

  -- `startTask` from the point where it builds the labels
  unfoldable pub provision : Eff (State h) (Unit {0})
  provision = do
    new_task_report own.meta.uid
    tolerating h (detach_network h)
    tolerating h (delete_task h)
    attach_mounts h
    pull_image h
    λ s. on_runtime h (rt.run s.task (epoch_labels (lookup s.task.meta.uid s.epochs))) s
    attach_network h
    λ s. set_phase h s.task.meta.uid running s
    λ s. set_reason h s.task.meta.uid [] s

  unfoldable pub provision_unless : Option Task → Eff (State h) (Unit {0})
  provision_unless none = provision
  provision_unless (some t) =
      λ s. if task_equal (comparable t) (comparable s.task) then (ok tt, s) else provision s

  unfoldable pub start_body : Eff (State h) (Unit {0})
  start_body = do
    found ← λ s. let r = on_runtime h (rt.find s.task.meta.uid) s in (or_missing r.0, r.1)
    provision_unless found

  -- the function that `startTask` defers after the marker's
  unfoldable pub start_failed_status : Result (Unit {0}) × (State h) → Result (Unit {0}) × (State h)
  start_failed_status (ok x, s) = (ok x, s)
  start_failed_status (err e, s) = (
    err e,
    (set_status h s.task.meta.uid
        (record empty_status {
          phase = some (reason_text start_failed);
          reason = some (err_text e);
        })
        (codes "phase" ∷ codes "reason" ∷ []) s).1,
  )
  start_failed_status (panic, s) = (panic, s)

  unfoldable pub start_task : Task → Eff (State h) (Unit {0})
  start_task t s =
      deferred
        (start_failed_status (start_body (mark t.meta.uid starting (record s { task = t })).1))
        (unmark t.meta.uid)
