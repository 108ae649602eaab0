-- ===== src/Checks/Scheduler.antt =====
-- The deque of include/jellybean/scheduler/work_stealing_deque.hpp, through a resize.
use jellybean.Base.{ℕ, ◌≡◌, refl, Option, none, some, List, [], ◌∷◌}
use jellybean.Scheduler.Deque.{make_deque}
use jellybean.Scheduler.Deque.Runs.{
  Call, push_item, pop_item, steal_item, answers, list_answers, answers-make_deque,
}

abbrev calls : List (Call ℕ)
calls =
    push_item 1
    ∷ push_item 2
    ∷ steal_item
    ∷ push_item 3
    ∷ push_item 4
    ∷ pop_item
    ∷ steal_item
    ∷ pop_item
    ∷ pop_item
    ∷ steal_item
    ∷ []

abbrev given : List (Option ℕ)
given = none ∷ none ∷ some 1 ∷ none ∷ none ∷ some 4 ∷ some 2 ∷ some 3 ∷ none ∷ none ∷ []

calls_answered : answers (make_deque 2) calls ≡ given
unfolding answers
calls_answered = refl

answers-make_deque_example : answers (make_deque 2) calls ≡ list_answers [] calls
answers-make_deque_example = answers-make_deque 1 calls
