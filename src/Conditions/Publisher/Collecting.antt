-- ===== src/Conditions/Publisher/Collecting.antt =====
-- pkg/condition/publisher.go: what a sub-publisher has collected is the newest condition of each type.
use blipblop.Base.{
  Text, ◌≡◌, refl, ap, ◌∙◌, Option, none, some, List, [], ◌∷◌, if◌then◌else◌, ◌==◌, list_eq, nat_eq,
  list_beq_iff, ltb, arith,
}
use blipblop.Api.{Condition}
use blipblop.Conditions.Publisher.{type_of, time_of, absorb}

-- The first condition of a type in a list.
abbrev pub find : Text → List Condition → Option Condition
find k [] = none
find k (c ∷ cs) = let rest = find k cs in if type_of c == k then some c else rest

-- of two conditions of a type, the newer one, or the one that was there
abbrev pub later : Option Condition → Condition → Condition
later none c = c
later (some st) c = if ltb (time_of st) (time_of c) then c else st

-- The newest condition of a type, of those that came in one after another.
abbrev pub newest : Text → List Condition → Option Condition → Option Condition
newest k [] best = best
newest k (c ∷ cs) best =
    let best' = if type_of c == k then some (later best c) else best in newest k cs best'

-- what a sub-publisher makes of the conditions that it receives
abbrev pub absorb_all : List Condition → List Condition → List Condition
absorb_all [] state = state
absorb_all (c ∷ cs) state = absorb_all cs (absorb c state)

find-absorb :
    (k : Text) (c : Condition) (state : List Condition)
    → find k (absorb c state)
      ≡ (if type_of c == k then some (later (find k state) c) else find k state)
unfolding absorb
find-absorb k c [] = refl
find-absorb k c (st ∷ rest) = ground (
  arith,
  find-absorb k c rest,
  list_beq_iff (type_of st) (type_of c),
  list_beq_iff (type_of st) k,
  list_beq_iff (type_of c) k,
)

-- What a sub-publisher has of a type after it received conditions one after another, is the newest
-- one of the type among those and the one that it had before; of two with the same time, the one
-- that came first.
pub find-absorb_all :
    (k : Text) (cs state : List Condition)
    → find k (absorb_all cs state) ≡ newest k cs (find k state)
find-absorb_all k [] state = refl
find-absorb_all k (c ∷ cs) state =
    find-absorb_all k cs (absorb c state) ∙ ap (newest k cs) (find-absorb k c state)
