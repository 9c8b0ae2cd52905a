-- ===== src/Msgs/Threads/Wakes.antt =====
-- Which of the threads of my-src/Chapter-11/11-15.c can go on.
use my_apue.Prelude.{
  ℕ, zero, suc, ◌+◌, ◌≤◌, ◌<◌, ◌≡◌, refl, ◌≢◌, ◌⊎◌, inl, inr, none, some, false, ◌==◌, arith,
  Bool-cases,
}
use my_apue.Msgs.{Queue, process_msg}
use my_apue.Msgs.Threads.{
  Threads, threads, Quiet, sleeps, processed, signals_one, signals_none, spurious, Takes, takes,
  enqueues, Reached, at_start, after_enqueue, after_take, after_quiet, QuietRun, stay, more,
}

-- All `n` threads are there, and when there is a message one of them does not wait or a signal is due.
record Guarded (n : ℕ) (q : Queue) (asleep awake busy signals : ℕ) : Type 0 where
  all : asleep + awake + busy ≡ n
  guard : (q.workq ≡ 0) ⊎ ((asleep ≡ 0) ⊎ (0 < awake + busy + signals))

abbrev GuardedState : ℕ → Threads → Type 0
GuardedState n (threads q asleep awake busy signals) = Guarded n q asleep awake busy signals

finds_none : (q : Queue) → (process_msg q).0 ≡ none → q.workq ≡ 0
finds_none q e = elim (Bool-cases (q.workq == 0)) [
  | inl empty ↦ ground arith
  | inr some_left ↦ (let found : (process_msg q).0 ≡ some q.workq = rw some_left refl in cc)
]

finds_some :
    (q : Queue)
    → q.workq ≢ 0
    → process_msg q ≡ (some q.workq, record q { workq = q.m_next q.workq })
finds_some q ne = let left : (q.workq == 0) ≡ false = ground arith in rw left refl

Quiet-Guarded : (n : ℕ) {s t : Threads} → Quiet s t → GuardedState n s → GuardedState n t
Quiet-Guarded n (sleeps {q} e) g = record {
  all = let all = g.all in omega arith;
  guard = inl (finds_none q e);
}
Quiet-Guarded n processed g = record {
  all = let all = g.all in omega arith;
  guard = inr (inr (omega arith));
}
Quiet-Guarded n signals_one g = record {
  all = let all = g.all in omega arith;
  guard = inr (inr (omega arith));
}
Quiet-Guarded n signals_none g = record { all = g.all; guard = inr (inl refl) }
Quiet-Guarded n spurious g = record {
  all = let all = g.all in omega arith;
  guard = inr (inr (omega arith));
}

Takes-Guarded :
    (n : ℕ) {s t : Threads} {mp : ℕ} → Takes s mp t → GuardedState n s → GuardedState n t
Takes-Guarded n (takes e) g = record {
  all = let all = g.all in omega arith;
  guard = inr (inr (omega arith));
}

enqueues-Guarded : (n mp : ℕ) (s : Threads) → GuardedState n s → GuardedState n (enqueues mp s)
enqueues-Guarded n mp (threads q asleep awake busy signals) g = record {
  all = g.all;
  guard = inr (inr (omega arith));
}

Reached-Guarded : {n : ℕ} {s : Threads} → Reached n s → GuardedState n s
Reached-Guarded {n} (at_start q) = record { all = omega arith; guard = inr (inl refl) }
Reached-Guarded {n} (after_enqueue {s} mp r) = enqueues-Guarded n mp s (Reached-Guarded r)
Reached-Guarded {n} (after_take r t) = Takes-Guarded n t (Reached-Guarded r)
Reached-Guarded {n} (after_quiet r t) = Quiet-Guarded n t (Reached-Guarded r)

-- There is a message.
abbrev pub HasMessage : Threads → Type 0
HasMessage (threads q asleep awake busy signals) = q.workq ≢ 0

-- The steps that are left before a message is taken.
abbrev pub patience : Threads → ℕ
patience (threads q asleep awake busy signals) = asleep + busy + signals

-- Every quiet step but a wakeup without a signal.
abbrev pub IsOwn : {s t : Threads} → Quiet s t → Type 0
IsOwn (sleeps e) = Unit {0}
IsOwn processed = Unit {0}
IsOwn signals_one = Unit {0}
IsOwn signals_none = Unit {0}
IsOwn spurious = ⊥

-- A thread takes a message, or another step is possible without such a wakeup.
abbrev pub Moves : Threads → Type 0
Moves s = ((mp : ℕ) × (t : Threads) × Takes s mp t) ⊎ ((t : Threads) × (d : Quiet s t) × IsOwn d)

Quiet-patience :
    {s t : Threads} → Quiet s t → HasMessage s → HasMessage t × (patience t < patience s)
Quiet-patience (sleeps {q} e) h = absurd (h (finds_none q e))
Quiet-patience processed h = (h, omega arith)
Quiet-patience signals_one h = (h, omega arith)
Quiet-patience signals_none h = (h, omega arith)
Quiet-patience spurious h = (h, omega arith)

Guarded-Moves : (n : ℕ) (s : Threads) → 0 < n → GuardedState n s → HasMessage s → Moves s
Guarded-Moves n (threads q asleep (suc awake) busy signals) some_threads g h =
    inl (q.workq, _, takes (finds_some q h))
Guarded-Moves n (threads q asleep zero (suc busy) signals) some_threads g h = inr (_, processed, tt)
Guarded-Moves n (threads q (suc asleep) zero zero (suc signals)) some_threads g h =
    inr (_, signals_one, tt)
Guarded-Moves n (threads q zero zero zero (suc signals)) some_threads g h =
    inr (_, signals_none, tt)
Guarded-Moves n (threads q asleep zero zero zero) some_threads g h = elim g.guard [
  | inl empty ↦ absurd (h empty)
  | inr (inl none_asleep) ↦ (let all = g.all in absurd (omega arith))
  | inr (inr awake) ↦ absurd (omega arith)
]

run-bound :
    (n : ℕ) {s t : Threads} {k : ℕ}
    → QuietRun s k t
    → 0 < n
    → GuardedState n s
    → HasMessage s
    → (k + patience t ≤ patience s) × Moves t
run-bound n (stay {s}) some_threads g h = (omega arith, Guarded-Moves n s some_threads g h)
run-bound n (more step rest) some_threads g h =
    let (h', less) = Quiet-patience step h in
    let (bound, moves) = run-bound n rest some_threads (Quiet-Guarded n step g) h' in
    (omega (arith, bound, less), moves)

-- In every state that one or more threads of `process_msg` and any of `enqueue_msg` come to with a message in the
-- queue, however the threads take turns and whatever wakeups there are without a signal: steps that neither
-- enqueue nor take a message are at most as many as threads wait or have a message and signals are due, and
-- behind any number of them a thread can take a message or another such step is possible that is not a wakeup
-- without a signal.
pub Reached-Moves :
    {n : ℕ} (s t : Threads) (k : ℕ)
    → 0 < n
    → Reached n s
    → HasMessage s
    → QuietRun s k t
    → (k + patience t ≤ patience s) × Moves t
Reached-Moves {n} s t k some_threads r h run = run-bound n run some_threads (Reached-Guarded r) h
