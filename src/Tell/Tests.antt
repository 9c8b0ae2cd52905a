-- ===== src/Tell/Tests.antt =====
-- Runs of the calls of my-src/Chapter-15/15-7.c.
use my_apue.Prelude.{◌≡◌, ◌≢◌, refl, true, List, [], ◌∷◌}
use my_apue.Tell.{
  Call, tell_parent, wait_parent, tell_child, wait_child, went, waits, incorrect, tell_wait, call,
  calls,
}
use my_apue.Tell.Counts.{count_calls, none_told, with_pipes, session, session-count_calls}

-- The child waits for its parent, and then the parent for its child.
abbrev in_turn : List Call
in_turn = tell_child true ∷ wait_parent true ∷ tell_parent true ∷ wait_child true ∷ []

all_return : session in_turn (tell_wait true true) ≡ went (record { pfd1 = []; pfd2 = [] })
unfolding calls call
all_return = refl

too_early : session (wait_child true ∷ in_turn) (tell_wait true true) ≡ waits
unfolding calls call
too_early = refl

session-count_calls_example :
    (session in_turn (tell_wait true true) ≡ with_pipes (count_calls in_turn none_told))
    × (session in_turn (tell_wait true true) ≢ incorrect)
session-count_calls_example = session-count_calls in_turn
