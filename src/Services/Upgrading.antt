-- ===== src/Services/Upgrading.antt =====
-- internal/app/node.go: `Upgrade`, which sends a request to the nodes that a selector matches and to
-- the node that it names, through the sessions of the nodes. A selector that is empty is nil, as it is
-- after a message was decoded. `listed` is what the repository's `List` returns, and `choice` the case
-- that the `select` of `SendToNode` takes for a node.
use blipblop.Base.{Text, Bool, some, List, [], ◌∷◌, if◌then◌else◌, ◌==◌, list_eq, nat_eq}
use blipblop.Errs.{Result, ok, err, panic, Ctx, node_not_connected}
use blipblop.Labels.{Label, matches, new_composite_selector_from_map}
use blipblop.Api.{Meta}
use blipblop.Sessions.{Manager, is_node_connected, send_to_node}

-- `UpgradeRequest`, less its name and version, which are only passed on
pub record UpgradeRequest : Type 0 where
  pub uid : Text
  pub selector : Label

module _ (Event : Type 0) (upgrade_event : UpgradeRequest → Event) (choice : Text → Bool) where
  -- An error of a send is logged, and the loop goes on.
  unfoldable pub or_next :
      Result (Unit {0}) × Manager Event
      → (Manager Event → Result (Unit {0}) × Manager Event)
      → Result (Unit {0}) × Manager Event
  or_next (ok a, m) k = k m
  or_next (err e, m) k = k m
  or_next (panic, m) k = (panic, m)

  -- The test that skips a node asks for the session of the request's UID.
  unfoldable pub send_selected :
      Ctx → UpgradeRequest → List Meta → Manager Event → Result (Unit {0}) × Manager Event
  unfolding or_next
  send_selected ctx req [] m = (ok tt, m)
  send_selected ctx req (n ∷ rest) m =
      let skipped = send_selected ctx req rest m in
      let sent =
        or_next (send_to_node Event ctx (choice n.uid) n.uid (some (upgrade_event req)) m)
          (send_selected ctx req rest) in
      if matches (new_composite_selector_from_map req.selector) n.labels
      then if is_node_connected Event req.uid m then sent else skipped
      else skipped

  unfoldable pub send_listed :
      Ctx → UpgradeRequest → Result (List Meta) → Manager Event → Result (Unit {0}) × Manager Event
  unfolding send_selected
  send_listed ctx req (ok nodes) m = send_selected ctx req nodes m
  send_listed ctx req (err e) m = (err e, m)
  send_listed ctx req panic m = (panic, m)

  unfoldable pub send_matching :
      Label
      → Ctx
      → UpgradeRequest
      → Result (List Meta)
      → Manager Event
      → Result (Unit {0}) × Manager Event
  unfolding send_listed
  send_matching [] ctx req listed m = (ok tt, m)
  send_matching (l ∷ ls) ctx req listed m = send_listed ctx req listed m

  unfoldable pub send_named :
      Ctx → UpgradeRequest → Manager Event → Result (Unit {0}) × Manager Event
  send_named ctx req m =
      if req.uid == []
      then (ok tt, m)
      else if is_node_connected Event req.uid m
      then send_to_node Event ctx (choice req.uid) req.uid (some (upgrade_event req)) m
      else (err node_not_connected, m)

  unfoldable pub and_then :
      Result (Unit {0}) × Manager Event
      → (Manager Event → Result (Unit {0}) × Manager Event)
      → Result (Unit {0}) × Manager Event
  and_then (ok a, m) k = k m
  and_then (err e, m) k = (err e, m)
  and_then (panic, m) k = (panic, m)

  unfoldable pub upgrade :
      Ctx → UpgradeRequest → Result (List Meta) → Manager Event → Result (Unit {0}) × Manager Event
  unfolding send_matching send_named and_then
  upgrade ctx req listed m =
      and_then (send_matching req.selector ctx req listed m) (send_named ctx req)
