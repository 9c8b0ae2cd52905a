-- ===== src/Tell/Counts.antt =====
-- The pipes of my-src/Chapter-15/15-7.c are two counters of what is told and not yet waited for.
use my_apue.Prelude.{
  ℕ, zero, suc, ◌≡◌, refl, sym, ap, ◌∙◌, ◌≢◌, Bool, true, false, List, [], ◌∷◌, ◌++◌, if◌then◌else◌,
  replicate,
}
use my_apue.Tell.{
  Pipes, Call, tell_parent, wait_parent, tell_child, wait_child, Ran, went, waits, failed,
  incorrect, p_byte, c_byte, tell_wait, call, calls,
}

-- What the parent has told, and what the child has told.
pub record Told : Type 0 where
  pub by_parent : ℕ
  pub by_child : ℕ

abbrev pub take_one : Bool → (ℕ → Told) → ℕ → Ran Told
take_one ok left zero = if ok then waits else failed
take_one ok left (suc n) = if ok then went (left n) else failed

abbrev pub count_call : Call → Told → Ran Told
count_call (tell_parent ok) t = if ok then went (record t { by_child = suc t.by_child }) else failed
count_call (wait_parent ok) t = take_one ok (λ n. record t { by_parent = n }) t.by_parent
count_call (tell_child ok) t =
    if ok then went (record t { by_parent = suc t.by_parent }) else failed
count_call (wait_child ok) t = take_one ok (λ n. record t { by_child = n }) t.by_child

-- The calls on counters.
abbrev pub count_calls : List Call → Told → Ran Told
count_calls [] t = went t
count_calls (c ∷ cs) t = elim (count_call c t) [
  | went t' ↦ count_calls cs t'
  | waits ↦ waits
  | failed ↦ failed
  | incorrect ↦ incorrect
]

-- The pipes of the counters.
abbrev pub pipes : Told → Pipes
pipes t = record { pfd1 = replicate t.by_parent p_byte; pfd2 = replicate t.by_child c_byte }

abbrev pub with_pipes : Ran Told → Ran Pipes
with_pipes (went t) = went (pipes t)
with_pipes waits = waits
with_pipes failed = failed
with_pipes incorrect = incorrect

replicate_end : (n c : ℕ) → replicate n c ++ c ∷ [] ≡ c ∷ replicate n c
replicate_end zero c = refl
replicate_end (suc n) c = ap (λ cs. c ∷ cs) (replicate_end n c)

call-count_call :
    (c : Call) (a b : ℕ)
    → let t : Told = record { by_parent = a; by_child = b } in
      call c (pipes t) ≡ with_pipes (count_call c t)
unfolding call
call-count_call (tell_parent true) a b =
    ap (λ cs. went (record { pfd1 = replicate a p_byte; pfd2 = cs })) (replicate_end b c_byte)
call-count_call (tell_parent false) a b = refl
call-count_call (wait_parent true) zero b = refl
call-count_call (wait_parent false) zero b = refl
call-count_call (wait_parent true) (suc a) b = refl
call-count_call (wait_parent false) (suc a) b = refl
call-count_call (tell_child true) a b =
    ap (λ cs. went (record { pfd1 = cs; pfd2 = replicate b c_byte })) (replicate_end a p_byte)
call-count_call (tell_child false) a b = refl
call-count_call (wait_child true) a zero = refl
call-count_call (wait_child false) a zero = refl
call-count_call (wait_child true) a (suc b) = refl
call-count_call (wait_child false) a (suc b) = refl

next_calls :
    (cs : List Call) (r : Ran Told)
    → ((t : Told) → calls cs (pipes t) ≡ with_pipes (count_calls cs t))
    → elim (with_pipes r) as (λ x. Ran Pipes) [
      | went s' ↦ calls cs s'
      | waits ↦ waits
      | failed ↦ failed
      | incorrect ↦ incorrect
    ]
      ≡ with_pipes (elim r as (λ x. Ran Told) [
        | went t' ↦ count_calls cs t'
        | waits ↦ waits
        | failed ↦ failed
        | incorrect ↦ incorrect
      ])
next_calls cs (went t) later = later t
next_calls cs waits later = refl
next_calls cs failed later = refl
next_calls cs incorrect later = refl

calls-count_calls : (cs : List Call) (t : Told) → calls cs (pipes t) ≡ with_pipes (count_calls cs t)
unfolding calls
calls-count_calls [] t = refl
calls-count_calls (c ∷ cs) t =
    ap
      (λ r. elim r as (λ x. Ran Pipes) [
        | went s' ↦ calls cs s'
        | waits ↦ waits
        | failed ↦ failed
        | incorrect ↦ incorrect
      ])
      (call-count_call c t.by_parent t.by_child)
    ∙ next_calls cs (count_call c t) (calls-count_calls cs)

-- The counters have no byte that could be another.
never_incorrect :
    (cs : List Call) (a b : ℕ) → count_calls cs (record { by_parent = a; by_child = b }) ≢ incorrect
never_incorrect [] a b = λ e. cc
never_incorrect (tell_parent true ∷ cs) a b = never_incorrect cs a (suc b)
never_incorrect (tell_parent false ∷ cs) a b = λ e. cc
never_incorrect (wait_parent true ∷ cs) zero b = λ e. cc
never_incorrect (wait_parent false ∷ cs) zero b = λ e. cc
never_incorrect (wait_parent true ∷ cs) (suc a) b = never_incorrect cs a b
never_incorrect (wait_parent false ∷ cs) (suc a) b = λ e. cc
never_incorrect (tell_child true ∷ cs) a b = never_incorrect cs (suc a) b
never_incorrect (tell_child false ∷ cs) a b = λ e. cc
never_incorrect (wait_child true ∷ cs) a zero = λ e. cc
never_incorrect (wait_child false ∷ cs) a zero = λ e. cc
never_incorrect (wait_child true ∷ cs) a (suc b) = never_incorrect cs a b
never_incorrect (wait_child false ∷ cs) a (suc b) = λ e. cc

with_pipes_correct : (r : Ran Told) → r ≢ incorrect → with_pipes r ≢ incorrect
with_pipes_correct (went t) ne = λ e. cc
with_pipes_correct waits ne = λ e. cc
with_pipes_correct failed ne = λ e. cc
with_pipes_correct incorrect ne = λ e. ne refl

abbrev pub none_told : Told
none_told = record { by_parent = 0; by_child = 0 }

-- The calls after a `TELL_WAIT`.
abbrev pub session : List Call → Ran Pipes → Ran Pipes
session cs (went s) = calls cs s
session cs waits = waits
session cs failed = failed
session cs incorrect = incorrect

-- After a `TELL_WAIT` in which both `pipe` succeed, the calls of parent and child, in whatever order they
-- return, do what two counters from 0 on do: `TELL_CHILD` adds one for the child and `TELL_PARENT` one for
-- the parent, `WAIT_PARENT` and `WAIT_CHILD` take one of what is theirs and wait when there is none, and a
-- process ends when its `write` or `read` fails, also while it waits. No wait ever finds incorrect data.
pub session-count_calls :
    (cs : List Call)
    → (session cs (tell_wait true true) ≡ with_pipes (count_calls cs none_told))
      × (session cs (tell_wait true true) ≢ incorrect)
session-count_calls cs =
    let same = calls-count_calls cs none_told in
    (
      same,
      λ e. with_pipes_correct (count_calls cs none_told) (never_incorrect cs 0 0) (sym same ∙ e),
    )
