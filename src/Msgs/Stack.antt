-- ===== src/Msgs/Stack.antt =====
-- The message queue of my-src/Chapter-11/11-15.c is a stack: the last message enqueued is the first taken.
use mathlib.Core.Path.{subst}
use my_apue.Prelude.{
  ℕ, ◌≡◌, refl, sym, ap, ◌∙◌, ◌≢◌, Option, none, some, Bool, true, false, List, [], ◌∷◌, ◌==◌, ◌||◌,
  if◌then◌else◌, arith,
}
use my_apue.Msgs.{Queue, Op, enqueue, process, enqueue_msg, process_msg, run}

-- The abstract queue: a stack of messages.
unfoldable pub run_stack : List Op → List ℕ → List (Option ℕ) × List ℕ
run_stack [] ms = ([], ms)
run_stack (enqueue mp ∷ ops) ms = run_stack ops (mp ∷ ms)
run_stack (process ∷ ops) [] = let (rest, ms') = run_stack ops [] in (none ∷ rest, ms')
run_stack (process ∷ ops) (m ∷ ms) = let (rest, ms') = run_stack ops ms in (some m ∷ rest, ms')

-- The list from a pointer on.
abbrev pub Chain : (ℕ → ℕ) → ℕ → List ℕ → Type 0
Chain next p [] = p ≡ 0
Chain next p (m ∷ ms) = (p ≡ m) × (m ≢ 0) × Chain next (next m) ms

abbrev pub has : ℕ → List ℕ → Bool
has p [] = false
has p (m ∷ ms) = m == p || has p ms

-- No message is NULL or is enqueued while it is in the queue.
abbrev pub Fresh : List Op → List ℕ → Type 0
Fresh [] ms = Unit {0}
Fresh (enqueue mp ∷ ops) ms = (mp ≢ 0) × (has mp ms ≡ false) × Fresh ops (mp ∷ ms)
Fresh (process ∷ ops) [] = Fresh ops []
Fresh (process ∷ ops) (m ∷ ms) = Fresh ops ms

-- A write to a message that is not in the list leaves the list.
Chain-other :
    (next : ℕ → ℕ) (mp v p : ℕ) (ms : List ℕ)
    → has mp ms ≡ false
    → Chain next p ms
    → Chain (λ x. if x == mp then v else next x) p ms
Chain-other next mp v p [] absent c = c
Chain-other next mp v p (m ∷ ms) absent (here, ne, c) =
    let other : (m == mp) ≡ false = ground arith in
    let later : has mp ms ≡ false = ground arith in
    (here, ne, rw other (Chain-other next mp v (next m) ms later c))

enqueue_msg-Chain :
    (mp : ℕ) (q : Queue) (ms : List ℕ)
    → mp ≢ 0
    → has mp ms ≡ false
    → Chain q.m_next q.workq ms
    → let q' = enqueue_msg mp q in Chain q'.m_next q'.workq (mp ∷ ms)
enqueue_msg-Chain mp q ms ne absent c =
    let same : (mp == mp) ≡ true = ground arith in
    (refl, ne, rw same (Chain-other q.m_next mp q.workq q.workq ms absent c))

process_msg_empty : (q : Queue) → q.workq ≡ 0 → process_msg q ≡ (none, q)
process_msg_empty q e = let null : (q.workq == 0) ≡ true = ground arith in rw null refl

process_msg_takes :
    (q : Queue) (m : ℕ)
    → q.workq ≡ m
    → m ≢ 0
    → process_msg q ≡ (some m, record q { workq = q.m_next m })
process_msg_takes q m e ne =
    let full : (q.workq == 0) ≡ false = ground arith in
    ap (λ b. if b then (none, q) else (some q.workq, record q { workq = q.m_next q.workq })) full
    ∙ ap (λ x. (some x, record q { workq = q.m_next x })) e

-- What a run leaves and takes is what the stack does.
abbrev pub Refines : List (Option ℕ) × Queue → List (Option ℕ) × List ℕ → Type 0
Refines r s = (r.0 ≡ s.0) × Chain r.1.m_next r.1.workq s.1

-- In whatever order the threads come to hold `qlock`, when no message is NULL or is enqueued while it is in
-- the queue, from a queue that is the list of the messages of a stack, the `process_msg` take just what the
-- stack pops, wait just when it is empty, and the queue is again the list of its messages.
pub run-Refines :
    (ops : List Op) (q : Queue) (ms : List ℕ)
    → Chain q.m_next q.workq ms
    → Fresh ops ms
    → Refines (run ops q) (run_stack ops ms)
unfolding run run_stack
run-Refines [] q ms c fresh = (refl, c)
run-Refines (enqueue mp ∷ ops) q ms c (ne, absent, fresh) =
    run-Refines ops (enqueue_msg mp q) (mp ∷ ms) (enqueue_msg-Chain mp q ms ne absent c) fresh
run-Refines (process ∷ ops) q [] c fresh =
    subst (λ p. Refines (p.0 ∷ (run ops p.1).0, (run ops p.1).1) (run_stack (process ∷ ops) []))
      (sym (process_msg_empty q c))
      (let (same, left) = run-Refines ops q [] c fresh in (ap (λ xs. none ∷ xs) same, left))
run-Refines (process ∷ ops) q (m ∷ ms) (e, ne, c) fresh =
    subst
      (λ p. Refines (p.0 ∷ (run ops p.1).0, (run ops p.1).1) (run_stack (process ∷ ops) (m ∷ ms)))
      (sym (process_msg_takes q m e ne))
      (let (same, left) = run-Refines ops (record q { workq = q.m_next m }) ms c fresh in
        (ap (λ xs. some m ∷ xs) same, left))
