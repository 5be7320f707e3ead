-- ===== src/Controllers/Agent/Keeping.antt =====
-- pkg/controller/node (handler_task.go, node.go): the leases of the node's tasks, and the handlers
-- that put work into the pool.
use mathlib.Core.Option.{get_or}
use blipblop.Base.{
  ℕ, Text, Option, none, some, List, [], ◌∷◌, if◌then◌else◌, list_eq, nat_eq, nat_eq, ltb,
}
use blipblop.Errs.{Err, Result, ok, err, panic, is_not_found, is_conflict, is_permission_denied}
use blipblop.Dict.{lookup, insert}
use blipblop.Labels.{Label, matches, new_composite_selector_from_map}
use blipblop.Api.{Node, Task, Lease}
use blipblop.Effect.{Eff, ◌>>=◌, ◌>>◌, pure}
use blipblop.Controllers.Agent.Hosting.{Host, start_work, stop_work, kill_work, update_work}
use blipblop.Controllers.Agent.{
  epoch_label, on_runtime, on_server, on_files, on_pool, ignoring, get_node, State,
}
use blipblop.Controllers.Agent.Working.{stop_task}

module _ (h : Host) where
  open h use {rt, net, vol, api, tokens, pool, own, err_text, task_equal, print, atoi}

  -- what Acquire and Renew leave with the controller
  unfoldable pub keep_lease : Text → Lease × Text × ℕ → Eff (State h) (Unit {0})
  keep_lease uid (lease, token, fencing) s =
      on_files h (tokens.save uid token) (record s { epochs = insert uid fencing s.epochs })

  -- The function that is deferred after the token was saved never sees an error.
  unfoldable pub acquire_lease : Task → Eff (State h) (Unit {0})
  acquire_lease t = do
    node ← get_node h
    got ← on_server h (api.acquire t.meta.uid node.meta.uid)
    keep_lease t.meta.uid got

  unfoldable pub renew_with : Task → Text → Result Text → Eff (State h) (Unit {0})
  renew_with t node_uid (ok token) = do
    got ← on_server h (api.renew t.meta.uid node_uid token)
    keep_lease t.meta.uid got
  renew_with t node_uid (err e) = pure tt
  renew_with t node_uid panic = λ s. (panic, s)

  -- A token that cannot be loaded is no error.
  unfoldable pub renew_lease : Task → Eff (State h) (Unit {0})
  renew_lease t = do
    node ← get_node h
    λ s. renew_with t node.meta.uid (tokens.load t.meta.uid s.files) s

  -- what `processSchedule` does when Acquire failed: the renewed lease does not start the task
  unfoldable pub schedule_conflict : Task → Err → Eff (State h) (Unit {0})
  schedule_conflict t e = if is_conflict (some e) then ignoring h (renew_lease t) else pure tt

  unfoldable pub schedule_if :
      Task → Node → Result (Unit {0}) × (State h) → Result (Unit {0}) × (State h)
  schedule_if t node (ok _, s) =
      on_pool h (pool.enqueue node.meta.name node.meta.uid (start_work t)) s
  schedule_if t node (err e, s) = schedule_conflict t e s
  schedule_if t node (panic, s) = (panic, s)

  unfoldable pub process_schedule : Task → Node → Eff (State h) (Unit {0})
  process_schedule t node s = schedule_if t node (acquire_lease t s)

  unfoldable pub process_task_stop : Task → Eff (State h) (Unit {0})
  process_task_stop t = on_pool h (pool.enqueue t.meta.name t.meta.uid (stop_work t))

  unfoldable pub process_task_kill : Task → Eff (State h) (Unit {0})
  process_task_kill t = on_pool h (pool.enqueue t.meta.name t.meta.uid (kill_work t))

  unfoldable pub process_node_update : Node → Eff (State h) (Unit {0})
  process_node_update node =
      on_pool h (pool.enqueue node.meta.name node.meta.uid (update_work node))

  -- A loop that goes on after an error of one task.
  unfoldable pub each_task :
      (Task → Eff (State h) (Unit {0})) → List Task → Eff (State h) (Unit {0})
  each_task f [] = pure tt
  each_task f (t ∷ ts) = do ignoring h (f t); each_task f ts

  unfoldable pub stop_if_unmatched : Node → Task → Eff (State h) (Unit {0})
  stop_if_unmatched node t =
      if matches (new_composite_selector_from_map t.config.node_selector) node.meta.labels
      then pure tt
      else stop_task h t

  unfoldable pub node_update : Node → Eff (State h) (Unit {0})
  node_update node = do tasks ← on_runtime h rt.list; each_task (stop_if_unmatched node) tasks

  -- `uint64` of an int: a printed negative number wraps, which `atoi` is taken to have done.
  unfoldable pub stop_if_older : Task → ℕ → Eff (State h) (Unit {0})
  stop_if_older t epoch s =
      if ltb epoch (get_or (lookup t.meta.uid s.epochs) 0)
      then ignoring h (stop_task h t) s
      else (ok tt, s)

  unfoldable pub check_epoch : Task → Option Text → Eff (State h) (Unit {0})
  check_epoch t none = pure tt
  check_epoch t (some v) = do epoch ← λ s. (atoi v, s); stop_if_older t epoch

  -- what the loop does when the renewal of a task's lease failed
  unfoldable pub after_refusal : Task → Err → Eff (State h) (Unit {0})
  after_refusal t e =
      if is_conflict (some e)
      then ignoring h (stop_task h t)
      else if is_not_found (some e)
      then ignoring h (acquire_lease t)
      else if is_permission_denied (some e)
      then ignoring h (stop_task h t)
      else pure tt

  unfoldable pub compare_epochs : Task → Result Label × (State h) → Result (Unit {0}) × (State h)
  compare_epochs t (ok ls, s) = check_epoch t (lookup epoch_label ls) s
  compare_epochs t (err e, s) = (ok tt, s)
  compare_epochs t (panic, s) = (panic, s)

  unfoldable pub after_renewal :
      Task → Result (Unit {0}) × (State h) → Result (Unit {0}) × (State h)
  after_renewal t (ok _, s) = compare_epochs t (on_runtime h (rt.labels t.meta.uid) s)
  after_renewal t (err e, s) = after_refusal t e s
  after_renewal t (panic, s) = (panic, s)

  -- the body of the loop of `renewAllLeases`
  unfoldable pub renew_one : Task → Eff (State h) (Unit {0})
  renew_one t s = after_renewal t (renew_lease t s)

  -- An error of `List` is only logged.
  unfoldable pub renew_all_leases : Eff (State h) (Unit {0})
  renew_all_leases = ignoring h (do tasks ← on_runtime h rt.list; each_task renew_one tasks)
