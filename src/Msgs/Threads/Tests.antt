-- ===== src/Msgs/Threads/Tests.antt =====
-- Two threads of `process_msg` of my-src/Chapter-11/11-15.c wait, and a message comes.
use my_apue.Prelude.{◌+◌, ◌≤◌, refl, arith}
use my_apue.Msgs.{Queue, enqueue_msg}
use my_apue.Msgs.Threads.{
  Threads, threads, sleeps, signals_one, Reached, at_start, after_enqueue, after_quiet, QuietRun,
  stay, more,
}
use my_apue.Msgs.Threads.Wakes.{patience, Moves, Reached-Moves}

abbrev empty_queue : Queue
empty_queue = record { workq = 0; m_next = λ p. 77 }

abbrev with_message : Threads
with_message = threads (enqueue_msg 5 empty_queue) 2 0 0 1

abbrev woken : Threads
woken = threads (enqueue_msg 5 empty_queue) 1 1 0 0

both_wait : Reached 2 with_message
both_wait =
    after_enqueue 5 (after_quiet (after_quiet (at_start empty_queue) (sleeps refl)) (sleeps refl))

one_signal : QuietRun with_message 1 woken
one_signal = more signals_one stay

Reached-Moves_example : (1 + patience woken ≤ patience with_message) × Moves woken
Reached-Moves_example =
    Reached-Moves with_message woken 1 (omega arith) both_wait (λ e. omega (arith, e)) one_signal
