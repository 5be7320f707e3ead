-- ===== src/Controllers/Agent/Watching.antt =====
-- pkg/controller/node/handler_runtime.go: the events of the container runtime.
use blipblop.Base.{ℕ, Text, none, some, [], ◌∷◌, ◌++◌, list_eq, nat_eq, nat_eq, codes}
use blipblop.Errs.{ok}
use blipblop.Dict.{lookup}
use blipblop.Api.{Meta}
use blipblop.Effect.{Eff, ◌>>=◌, ◌>>◌}
use blipblop.Conditions.{
  new_for_resource, as_reporter, of_kind, with_metadata, is_true, is_false, task_ready,
  task_scheduled, running, stopped, deleted, scheduled,
}
use blipblop.Controllers.Agent.Hosting.{Host}
use blipblop.Controllers.Agent.{
  empty_status, on_runtime, on_network, on_server, tolerating, get_node, tell, set_status,
  set_phase, set_reason, State,
}

module _ (h : Host) where
  open h use {rt, net, vol, api, tokens, pool, own, err_text, task_equal, print, atoi}

  -- An event of the runtime: the container's identifier, its process and its exit status.
  unfoldable pub report_for : Meta → Text → Eff (State h) (Unit {0})
  report_for meta reporter s =
      (ok tt, record s { report = as_reporter reporter (new_for_resource meta) })

  unfoldable pub unless_operating : Text → Eff (State h) (Unit {0}) → Eff (State h) (Unit {0})
  unless_operating uid m s = elim (lookup uid s.operations) [ none ↦ m s | some _ ↦ (ok tt, s) ]

  unfoldable pub on_runtime_task_start : Text → ℕ → Eff (State h) (Unit {0})
  on_runtime_task_start container pid = do
    name ← on_runtime h (rt.name_of container)
    t ← on_server h (api.get_task name)
    node ← get_node h
    report_for t.meta node.meta.uid
    let md =
        (codes "pid", print pid)
        ∷ (codes "id", container)
        ∷ (codes "node_uid", node.meta.uid)
        ∷ (codes "node_name", node.meta.name)
        ∷ []
    tell h (λ r. is_true scheduled none (with_metadata md (of_kind task_scheduled r)))
    tell h (λ r. is_true running none (with_metadata md (of_kind task_ready r)))
    set_status h t.meta.uid (record empty_status { pid = some pid }) (codes "pid" ∷ [])
    set_status h t.meta.uid (record empty_status { id = some container }) (codes "id" ∷ [])

  unfoldable pub on_runtime_task_exit : Text → ℕ → Eff (State h) (Unit {0})
  on_runtime_task_exit container exit = do
    pid ← on_runtime h (rt.pid container)
    tolerating h (on_network h (net.detach container pid []))
    t ← on_server h (api.get_task container)
    node ← get_node h
    report_for t.meta node.meta.uid
    let text = codes "exit status " ++ print exit
    tell h (λ r.
        is_false stopped (some text)
          (with_metadata ((codes "exit_status", text) ∷ []) (of_kind task_ready r)))
    unless_operating t.meta.uid (set_phase h t.meta.uid stopped >> set_reason h t.meta.uid text)

  unfoldable pub on_runtime_task_delete : Text → Eff (State h) (Unit {0})
  on_runtime_task_delete container = do
    t ← on_server h (api.get_task container)
    node ← get_node h
    report_for t.meta node.meta.uid
    tell h (λ r.
        is_false stopped none
          (with_metadata ((codes "id", []) ∷ (codes "pid", []) ∷ []) (of_kind task_ready r)))
    unless_operating t.meta.uid (set_phase h t.meta.uid deleted)
