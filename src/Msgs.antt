-- ===== src/Msgs.antt =====
-- The message queue of my-src/Chapter-11/11-15.c: what the threads do in the sections under `qlock`, one
-- after the other.
pub mod Stack
pub mod Threads
mod Tests
use my_apue.Prelude.{ℕ, Option, none, some, Bool, List, [], ◌∷◌, ◌==◌, if◌then◌else◌}

-- `workq`, NULL if 0, and the field `m_next` of every message.
pub record Queue : Type 0 where
  pub workq : ℕ
  pub m_next : ℕ → ℕ

-- A section under `qlock`: the one of `enqueue_msg`, or one of `process_msg` from the test of its loop on.
pub data Op : Type 0 where
  enqueue : ℕ → Op
  process : Op

abbrev pub enqueue_msg : ℕ → Queue → Queue
enqueue_msg mp q = record { workq = mp; m_next = λ p. if p == mp then q.workq else q.m_next p }

-- The message that `process_msg` takes; at NULL it waits, and tests again in a later section.
abbrev pub process_msg : Queue → Option ℕ × Queue
process_msg q =
    if q.workq == 0 then (none, q) else (some q.workq, record q { workq = q.m_next q.workq })

-- The sections in the order in which the threads hold `qlock`, and what the `process_msg` among them take.
unfoldable pub run : List Op → Queue → List (Option ℕ) × Queue
run [] q = ([], q)
run (enqueue mp ∷ ops) q = run ops (enqueue_msg mp q)
run (process ∷ ops) q =
    let (taken, q') = process_msg q in let (rest, q'') = run ops q' in (taken ∷ rest, q'')
