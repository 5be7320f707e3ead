-- ===== src/Events/Exchanges/Calling.antt =====
-- pkg/events/exchange.go: which handlers an event calls, when each of them notes that it was called.
use mathlib.Core.List.{append-nil, append_assoc}
use mathlib.Core.Option
use mathlib.Core.Option.{get_or}
use blipblop.Base.{
  nat_beq_iff, ℕ, ◌≡◌, ◌≢◌, refl, sym, ap, ◌∙◌, Bool, true, Option, none, some, List, [], ◌∷◌, ◌++◌,
  map, if◌then◌else◌, nat_eq, All, Any, inl, inr, Option-cases,
}
use blipblop.Dict.{Dict, lookup, remove, lookup-remove}
use blipblop.Errs.{Err}
use blipblop.Events.Exchanges.{
  Event, Exchange, World, registered, once_of, take, report, call_persistent, wait, call_once,
  or_stop, forward_all, publish,
}

abbrev pub Note : Type 0
Note = World (List (ℕ × Event))

abbrev pub notes : Event → List ℕ → List (ℕ × Event)
notes ev fs = map (λ f. (f, ev)) fs

abbrev pub noted : ℕ → Event → Note → Note
noted f ev w = record w { rest = w.rest ++ (f, ev) ∷ [] }

-- What a part of publish changes: the calls are noted, and errors come to those that wait.
abbrev pub Called : Event → List ℕ → Note → Note → Type 0
Called ev fs w w' =
    (w'.rest ≡ w.rest ++ notes ev fs)
    × (w'.exchange.fire_once_handlers ≡ w.exchange.fire_once_handlers)
    × (w'.exchange.sends ≡ w.exchange.sends)

notes-append : (ev : Event) (fs gs : List ℕ) → notes ev (fs ++ gs) ≡ notes ev fs ++ notes ev gs
notes-append ev [] gs = refl
notes-append ev (f ∷ fs) gs = ap (λ l. (f, ev) ∷ l) (notes-append ev fs gs)

then-Called :
    (ev : Event) (fs gs : List ℕ) (w w₁ w₂ : Note)
    → Called ev fs w w₁
    → Called ev gs w₁ w₂
    → Called ev (fs ++ gs) w w₂
then-Called ev fs gs w w₁ w₂ (a, b, c) (a', b', c') = (
  a'
      ∙ ap (λ l. l ++ notes ev gs) a
      ∙ append_assoc w.rest (notes ev fs) (notes ev gs)
      ∙ ap (λ l. w.rest ++ l) (sym (notes-append ev fs gs)),
  b' ∙ b,
  c' ∙ c,
)

report-Called :
    (r : Option Err) (f : ℕ) (ev : Event) (w : Note)
    → Called ev (f ∷ []) w (report r (noted f ev w))
unfolding report
report-Called none f ev w = (refl, refl, refl)
report-Called (some e) f ev w = (refl, refl, refl)

module _ (verdict refusal : ℕ → Option Err)
    (handle forward : ℕ → Event → Note → Option (Option Err × Note))
    (handles : (f : ℕ) (ev : Event) (w : Note) → handle f ev w ≡ some (verdict f, noted f ev w))
    (forwards : (f : ℕ) (ev : Event) (w : Note)
      → forward f ev w ≡ some (refusal f, noted f ev w)) where
  call_persistent-Called :
      (fs : List ℕ) (ev : Event) (w : Note)
      → (w' : Note) × (call_persistent handle forward fs ev w ≡ some w') × Called ev fs w w'
  unfolding call_persistent Option.bind
  call_persistent-Called [] ev w = (w, refl, (sym (append-nil w.rest), refl, refl))
  call_persistent-Called (f ∷ fs) ev w =
      let w₁ = report (verdict f) (noted f ev w) in
      let (w₂, run, called) = call_persistent-Called fs ev w₁ in
      (
        w₂,
        ap (λ o. Option.bind o (λ r. call_persistent handle forward fs ev (report r.0 r.1)))
              (handles f ev w)
            ∙ run,
        then-Called ev (f ∷ []) fs w w₁ w₂ (report-Called (verdict f) f ev w) called,
      )

  call_once-Called :
      (fs : List ℕ) (ev : Event) (w : Note)
      → All (λ f. verdict f ≡ none) fs
      → (w' : Note) × (call_once handle forward fs ev w ≡ some w') × Called ev fs w w'
  unfolding call_once wait Option.bind
  call_once-Called [] ev w v = (w, refl, (sym (append-nil w.rest), refl, refl))
  call_once-Called (f ∷ fs) ev w v =
      let w₁ = noted f ev w in
      let (w₂, run, called) = call_once-Called fs ev w₁ v.1 in
      (
        w₂,
        ap (λ o. Option.bind o (λ r. wait r.0 (call_once handle forward fs ev r.1)))
              (handles f ev w)
            ∙ ap (λ r. wait r (call_once handle forward fs ev w₁)) v.0
            ∙ run,
        then-Called ev (f ∷ []) fs w w₁ w₂ (refl, refl, refl) called,
      )

  forward_all-Called :
      (fs : List ℕ) (ev : Event) (w : Note)
      → All (λ f. refusal f ≡ none) fs
      → (w' : Note) × (forward_all handle forward fs ev w ≡ some (none, w')) × Called ev fs w w'
  unfolding forward_all or_stop Option.bind
  forward_all-Called [] ev w v = (w, refl, (sym (append-nil w.rest), refl, refl))
  forward_all-Called (f ∷ fs) ev w v =
      let w₁ = noted f ev w in
      let (w₂, run, called) = forward_all-Called fs ev w₁ v.1 in
      (
        w₂,
        ap (λ o. Option.bind o (λ r. or_stop r (forward_all handle forward fs ev r.1)))
              (forwards f ev w)
            ∙ ap (λ r. or_stop (r, w₁) (forward_all handle forward fs ev w₁)) v.0
            ∙ run,
        then-Called ev (f ∷ []) fs w w₁ w₂ (refl, refl, refl) called,
      )

  -- A fire-once handler that returns an error makes the publisher wait for ever.
  call_once-waits :
      (fs : List ℕ) (ev : Event) (w : Note)
      → Any (λ f. verdict f ≢ none) fs
      → call_once handle forward fs ev w ≡ none
  unfolding call_once wait Option.bind
  call_once-waits [] ev w bad = elim bad [ ]
  call_once-waits (f ∷ fs) ev w bad =
      ap (λ o. Option.bind o (λ r. wait r.0 (call_once handle forward fs ev r.1))) (handles f ev w)
      ∙ elim (Option-cases (verdict f)) [
        | inl nil ↦
            ap (λ r. wait r (call_once handle forward fs ev (noted f ev w))) nil
            ∙ call_once-waits fs ev (noted f ev w)
                (elim bad [ inl err ↦ absurd (err nil) | inr later ↦ later ])
        | inr (e, failed) ↦ ap (λ r. wait r (call_once handle forward fs ev (noted f ev w))) failed
      ]

  -- A type whose fire-once handlers were taken off has none.
  removed_once :
      (t : ℕ) (o : Option (Dict ℕ (List ℕ)))
      → get_or (Option.map (registered t) (Option.map (remove t) o)) [] ≡ []
  unfolding Option.map
  removed_once t none = refl
  removed_once t (some m) =
      ap (λ o. get_or o [])
        (lookup-remove t t m ∙ ap (λ b. if b then none else lookup t m) ((nat_beq_iff t t).1 refl))

  once_of-take : (t : ℕ) (ev : Event) (e : Exchange) → once_of t (take t ev e) ≡ []
  unfolding take
  once_of-take t ev e = removed_once t e.fire_once_handlers

  -- When every handler returns, and no fire-once handler and no forwarder returns an error, an
  -- event that is forwarded calls the persistent handlers of its type, then the fire-once handlers,
  -- and then the forwarders, each once and in their order. Each channel of the type has a goroutine
  -- that sends it the event, and the type has no fire-once handlers any more. Each handler and
  -- forwarder notes its call, changes nothing else and has a result of its own.
  pub publish-Called :
      (ev : Event) (w : Note)
      → All (λ f. verdict f ≡ none) (once_of ev.event_type w.exchange)
      → All (λ f. refusal f ≡ none) w.exchange.forwarders
      → (w' : Note) × (publish handle forward true ev w ≡ some (none, w'))
        × (w'.rest
            ≡ w.rest
              ++ notes ev (
                  registered ev.event_type w.exchange.persistent_handlers
                  ++ (once_of ev.event_type w.exchange ++ w.exchange.forwarders)))
        × (once_of ev.event_type w'.exchange ≡ [])
        × (w'.exchange.sends
            ≡ w.exchange.sends ++ map (λ ch. (ch, ev)) (registered ev.event_type w.exchange.topics))
  unfolding publish Option.bind take
  publish-Called ev w quiet accepted =
      let t = ev.event_type in
      let e = w.exchange in
      let w₀ : Note = record w { exchange = take t ev e } in
      let (w₁, run₁, called₁) = call_persistent-Called (registered t e.persistent_handlers) ev w₀ in
      let (w₂, run₂, called₂) = call_once-Called (once_of t e) ev w₁ quiet in
      let (w₃, run₃, called₃) = forward_all-Called e.forwarders ev w₂ accepted in
      let (noted_all, once_same, sends_same) =
        then-Called ev _ _ w₀ w₁ w₃ called₁ (then-Called ev _ _ w₁ w₂ w₃ called₂ called₃) in
      (
        w₃,
        ap
              (λ o. Option.bind o (λ w₄.
                Option.bind (call_once handle forward (once_of t e) ev w₄)
                  (λ w₅. forward_all handle forward e.forwarders ev w₅)))
              run₁
            ∙ ap (λ o. Option.bind o (λ w₄. forward_all handle forward e.forwarders ev w₄)) run₂
            ∙ run₃,
        noted_all,
        ap (λ o. get_or (Option.map (registered t) o) []) once_same ∙ once_of-take t ev e,
        sends_same,
      )

  -- An event whose type has a fire-once handler that returns an error: publish does not return.
  -- Each handler and forwarder notes its call, changes nothing else and has a result of its own.
  pub publish-waits :
      (persist : Bool) (ev : Event) (w : Note)
      → Any (λ f. verdict f ≢ none) (once_of ev.event_type w.exchange)
      → publish handle forward persist ev w ≡ none
  unfolding publish Option.bind
  publish-waits persist ev w bad =
      let t = ev.event_type in
      let e = w.exchange in
      let w₀ : Note = record w { exchange = take t ev e } in
      let (w₁, run₁, called₁) = call_persistent-Called (registered t e.persistent_handlers) ev w₀ in
      ap
        (λ o. Option.bind o (λ w₄. Option.bind (call_once handle forward (once_of t e) ev w₄) (λ w₅.
          if persist then forward_all handle forward e.forwarders ev w₅ else some (none, w₅))))
        run₁
      ∙ ap
          (λ o. Option.bind o (λ w₄.
            if persist then forward_all handle forward e.forwarders ev w₄ else some (none, w₄)))
          (call_once-waits (once_of t e) ev w₁ bad)
