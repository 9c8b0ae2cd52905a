-- ===== src/Msgs/Threads.antt =====
-- The threads of my-src/Chapter-11/11-15.c at the condition variable `qready`. A step is a section under `qlock`, or
-- what a thread does between two of them.
pub mod Wakes
mod Tests
use my_apue.Prelude.{ℕ, zero, suc, Option, none, some, ◌≡◌}
use my_apue.Msgs.{Queue, enqueue_msg, process_msg}

-- The queue; how many threads of `process_msg` are in `pthread_cond_wait`, how many are before a test of
-- `workq`, and how many have a message; and how many threads are in `enqueue_msg` before `pthread_cond_signal`.
pub data Threads : Type 0 where
  threads : Queue → ℕ → ℕ → ℕ → ℕ → Threads

-- A step that neither puts a message into the queue nor takes one: a thread finds `workq` NULL and waits, or is
-- done with its message; `pthread_cond_signal` wakes a thread, or there is none; `pthread_cond_wait` returns
-- without a signal.
pub data Quiet : Threads → Threads → Type 0 where
  sleeps :
      {q : Queue} {asleep awake busy signals : ℕ}
      → (process_msg q).0 ≡ none
      → Quiet
          (threads q asleep (suc awake) busy signals)
          (threads q (suc asleep) awake busy signals)
  processed :
      {q : Queue} {asleep awake busy signals : ℕ}
      → Quiet
          (threads q asleep awake (suc busy) signals)
          (threads q asleep (suc awake) busy signals)
  signals_one :
      {q : Queue} {asleep awake busy signals : ℕ}
      → Quiet
          (threads q (suc asleep) awake busy (suc signals))
          (threads q asleep (suc awake) busy signals)
  signals_none :
      {q : Queue} {awake busy signals : ℕ}
      → Quiet (threads q zero awake busy (suc signals)) (threads q zero awake busy signals)
  spurious :
      {q : Queue} {asleep awake busy signals : ℕ}
      → Quiet
          (threads q (suc asleep) awake busy signals)
          (threads q asleep (suc awake) busy signals)

-- A thread takes a message.
pub data Takes : Threads → ℕ → Threads → Type 0 where
  takes :
      {q q' : Queue} {mp asleep awake busy signals : ℕ}
      → process_msg q ≡ (some mp, q')
      → Takes
          (threads q asleep (suc awake) busy signals)
          mp
          (threads q' asleep awake (suc busy) signals)

abbrev pub enqueues : ℕ → Threads → Threads
enqueues mp (threads q asleep awake busy signals) =
    threads (enqueue_msg mp q) asleep awake busy (suc signals)

-- The states that `n` threads of `process_msg` and any of `enqueue_msg` come to.
pub data Reached (n : ℕ) : Threads → Type 0 where
  at_start : (q : Queue) → Reached n (threads q zero n zero zero)
  after_enqueue : {s : Threads} (mp : ℕ) → Reached n s → Reached n (enqueues mp s)
  after_take : {s t : Threads} {mp : ℕ} → Reached n s → Takes s mp t → Reached n t
  after_quiet : {s t : Threads} → Reached n s → Quiet s t → Reached n t

-- A number of steps that leave the queue alone.
pub data QuietRun : Threads → ℕ → Threads → Type 0 where
  stay : {s : Threads} → QuietRun s zero s
  more : {s t u : Threads} {k : ℕ} → Quiet s t → QuietRun t k u → QuietRun s (suc k) u
