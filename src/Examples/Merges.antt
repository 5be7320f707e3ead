-- ===== src/Examples/Merges.antt =====
-- Merging of lists by a key, and of the conditions of a task.
use blipblop.Base.{
  ℕ, ◌≡◌, refl, true, none, some, List, [], ◌∷◌, codes, inl, inr, ◌⊎◌, Any, list_eq, nat_eq,
  list_beq,
}
use blipblop.Api.{Condition}
use blipblop.Merging.{
  nil_condition, condition_type, newer, merge_slices, merge_conditions, merge_args,
}
use blipblop.Merging.Values.{find, last_of, patched, find-merge_slices}
use blipblop.Merging.Conditions.{IsSince, merge_conditions-newest}

-- A condition of type "a" at a time.
abbrev ready_at : ℕ → Condition
ready_at t = record {
  kind = some (codes "a");
  status = some true;
  reason = none;
  msg = none;
  last_transition_time = some t;
}

merged_twice :
    merge_conditions (ready_at 5 ∷ []) (ready_at 3 ∷ ready_at 9 ∷ ready_at 7 ∷ []) ≡ ready_at 9 ∷ []
unfolding merge_conditions list_beq
merged_twice = refl

-- The patch's items come after the base's, and each is there once.
merged_args :
    merge_args (codes "-a" ∷ codes "-b" ∷ []) (codes "-c" ∷ codes "-a" ∷ [])
    ≡ codes "-a" ∷ codes "-b" ∷ codes "-c" ∷ []
unfolding merge_args list_beq
merged_args = refl

find-merge_slices_example :
    find []
      (λ t. t)
      (λ b p. p)
      (codes "b")
      (merge_slices []
        (λ t. t)
        (λ b p. p)
        (codes "a" ∷ codes "b" ∷ [])
        (codes "b" ∷ codes "c" ∷ []))
    ≡ patched []
        (λ t. t)
        (λ b p. p)
        (codes "b")
        (codes "b" ∷ codes "c" ∷ [])
        (last_of [] (λ t. t) (λ b p. p) (codes "b") (codes "a" ∷ codes "b" ∷ []) none)
find-merge_slices_example =
    find-merge_slices [] (λ t. t) (λ b p. p) (λ b p e. refl) (codes "b")
      (codes "a" ∷ codes "b" ∷ []) (codes "b" ∷ codes "c" ∷ [])

abbrev incoming : List Condition
incoming = ready_at 3 ∷ ready_at 9 ∷ []

merge_conditions-newest_example :
    (w : IsSince 9 (
      find nil_condition condition_type newer
        (codes "a")
        (merge_conditions (ready_at 5 ∷ []) incoming)))
    × ((last_of nil_condition condition_type newer (codes "a") (ready_at 5 ∷ []) none ≡ some w.it)
        ⊎ Any (λ i. i ≡ w.it) incoming)
merge_conditions-newest_example =
    merge_conditions-newest (codes "a") (ready_at 5 ∷ []) incoming (ready_at 9) 9
      (inl (inr (inl refl), unfold condition_type in refl)) refl
