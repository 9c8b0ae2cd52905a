-- ===== src/Msgs/Tests.antt =====
-- A run of the message queue of my-src/Chapter-11/11-15.c.
use my_apue.Prelude.{◌≡◌, refl, none, some, List, [], ◌∷◌, arith}
use my_apue.Msgs.{Queue, Op, enqueue, process, run}
use my_apue.Msgs.Stack.{run_stack, Refines, run-Refines}

abbrev ops : List Op
ops = process ∷ enqueue 5 ∷ enqueue 9 ∷ process ∷ process ∷ []

abbrev empty_queue : Queue
empty_queue = record { workq = 0; m_next = λ p. 77 }

last_first : (run ops empty_queue).0 ≡ none ∷ some 9 ∷ some 5 ∷ []
unfolding run
last_first = refl

run-Refines_example : Refines (run ops empty_queue) (run_stack ops [])
run-Refines_example =
    run-Refines ops empty_queue [] refl
      ((λ e. omega (arith, e)), refl, ((λ e. omega (arith, e)), refl, tt))
