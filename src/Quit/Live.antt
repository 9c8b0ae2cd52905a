-- ===== src/Quit/Live.antt =====
-- my-src/Chapter-12/12-16.c behind the assignment to `quitflag`: the steps that are left.
use my_apue.Prelude.{ℕ, suc, ◌+◌, ◌≤◌, ◌≡◌, refl, ◌⊎◌, inl, inr, Bool, true, false, arith}
use my_apue.Quit.{
  Main, m_lock, m_test, m_wait, m_woken, m_unlock, m_reset, m_exit, Sig, s_wait, s_lock, s_set,
  s_unlock, s_signal, s_return, Owner, free, by_main, by_sig, Sys, sys, wake, Step, main_locks,
  main_sleeps, main_sees, spurious, main_relocks, main_unlocks, main_resets, interrupt, quit,
  sig_locks, sig_sets, sig_unlocks, sig_signals, begin, Run, stay, go,
}
use my_apue.Quit.Places.{Sound, IsSound, has_set, is_sig}
use my_apue.Quit.Safe.{Step-IsSound, Run-IsSound, begin-IsSound}

-- A bound on the steps that the main thread has before it.
abbrev pub main_left : Main → ℕ
main_left m_wait = 5
main_left m_lock = 4
main_left m_woken = 4
main_left m_test = 3
main_left m_unlock = 2
main_left m_reset = 1
main_left m_exit = 0

abbrev pub sig_left : Sig → ℕ
sig_left s_wait = 0
sig_left s_lock = 0
sig_left s_set = 0
sig_left s_unlock = 2
sig_left s_signal = 1
sig_left s_return = 0

abbrev pub steps_left : Sys → ℕ
steps_left (sys m g l q) = main_left m + sig_left g

abbrev pub IsTold : Sys → Type 0
IsTold (sys m g l q) = has_set g ≡ true

wake_left : (m : Main) → main_left (wake m) ≤ main_left m
wake_left m_lock = omega arith
wake_left m_test = omega arith
wake_left m_wait = omega arith
wake_left m_woken = omega arith
wake_left m_unlock = omega arith
wake_left m_reset = omega arith
wake_left m_exit = omega arith

-- Every step takes one off the bound, and the flag stays set.
Step-nearer :
    {s t : Sys} → Step s t → IsSound s → IsTold s → (suc (steps_left t) ≤ steps_left s) × IsTold t
Step-nearer main_locks i e = (omega arith, e)
Step-nearer main_sleeps i e = ground (arith, i.flag)
Step-nearer main_sees i e = (omega arith, e)
Step-nearer spurious i e = (omega arith, e)
Step-nearer main_relocks i e = (omega arith, e)
Step-nearer main_unlocks i e = (omega arith, e)
Step-nearer main_resets i e = (omega arith, e)
Step-nearer interrupt i e = ground arith
Step-nearer quit i e = ground arith
Step-nearer sig_locks i e = ground arith
Step-nearer sig_sets i e = ground arith
Step-nearer sig_unlocks i e = (omega arith, refl)
Step-nearer (sig_signals {m}) i e = (omega (arith, wake_left m), refl)

Run-nearer :
    {s : Sys} {n : ℕ} {t : Sys}
    → Run s n t
    → IsSound s
    → IsTold s
    → (n + steps_left t ≤ steps_left s) × IsSound t × IsTold t
Run-nearer stay i e = (omega arith, i, e)
Run-nearer (go r d) i e =
    let (a, j, f) = Run-nearer r i e in
    let (b, h) = Step-nearer d j f in (omega arith, Step-IsSound d j, h)

-- Every step but a wakeup without a signal.
abbrev pub IsOwn : {s t : Sys} → Step s t → Type 0
IsOwn spurious = ⊥
IsOwn main_locks = Unit {0}
IsOwn main_sleeps = Unit {0}
IsOwn main_sees = Unit {0}
IsOwn main_relocks = Unit {0}
IsOwn main_unlocks = Unit {0}
IsOwn main_resets = Unit {0}
IsOwn interrupt = Unit {0}
IsOwn quit = Unit {0}
IsOwn sig_locks = Unit {0}
IsOwn sig_sets = Unit {0}
IsOwn sig_unlocks = Unit {0}
IsOwn sig_signals = Unit {0}

-- Some thread can go on without such a wakeup.
abbrev pub CanGo : Sys → Type 0
CanGo s = (t : Sys) × (d : Step s t) × IsOwn d

at_unlock : (m : Main) (l : Owner) (q : Bool) → is_sig l ≡ true → CanGo (sys m s_unlock l q)
at_unlock m by_sig q e = (sys m s_signal free q, sig_unlocks, tt)
at_unlock m free q e = ground arith
at_unlock m by_main q e = ground arith

-- `thr_fn` has returned: `lock` is free or the main thread's.
at_return :
    (m : Main) (l : Owner) (q : Bool)
    → Sound m s_return l q
    → (m ≡ m_exit) ⊎ CanGo (sys m s_return l q)
at_return m_lock free q i = inr (sys m_test s_return by_main q, main_locks, tt)
at_return m_lock by_main q i = ground (arith, i.main_owns)
at_return m_lock by_sig q i = ground (arith, i.sig_owns)
at_return m_test free q i = ground (arith, i.main_owns)
at_return m_test by_main true i = inr (sys m_unlock s_return by_main true, main_sees, tt)
at_return m_test by_main false i = inr (sys m_wait s_return free false, main_sleeps, tt)
at_return m_test by_sig q i = ground (arith, i.sig_owns)
at_return m_wait l q i = ground (arith, i.awake)
at_return m_woken free q i = inr (sys m_test s_return by_main q, main_relocks, tt)
at_return m_woken by_main q i = ground (arith, i.main_owns)
at_return m_woken by_sig q i = ground (arith, i.sig_owns)
at_return m_unlock free q i = ground (arith, i.main_owns)
at_return m_unlock by_main q i = inr (sys m_reset s_return free q, main_unlocks, tt)
at_return m_unlock by_sig q i = ground (arith, i.sig_owns)
at_return m_reset l q i = inr (sys m_exit s_return l false, main_resets, tt)
at_return m_exit l q i = inl refl

IsTold-goes :
    (m : Main) (g : Sig) (l : Owner) (q : Bool)
    → Sound m g l q
    → has_set g ≡ true
    → (m ≡ m_exit) ⊎ CanGo (sys m g l q)
IsTold-goes m s_unlock l q i e = inr (at_unlock m l q i.sig_owns)
IsTold-goes m s_signal l q i e = inr (sys (wake m) s_return l q, sig_signals, tt)
IsTold-goes m s_return l q i e = at_return m l q i
IsTold-goes m s_wait l q i e = ground arith
IsTold-goes m s_lock l q i e = ground arith
IsTold-goes m s_set l q i e = ground arith

-- The main thread is at its end, or can go on, or waits for a `thr_fn` that can go on.
abbrev pub EndsOrGoes : Sys → Type 0
EndsOrGoes (sys m g l q) = (m ≡ m_exit) ⊎ CanGo (sys m g l q)

Sound-EndsOrGoes : (t : Sys) → IsSound t → IsTold t → EndsOrGoes t
Sound-EndsOrGoes (sys m g l q) i e = IsTold-goes m g l q i e

main_left_max : (m : Main) → main_left m ≤ 5
main_left_max m_lock = omega arith
main_left_max m_test = omega arith
main_left_max m_wait = omega arith
main_left_max m_woken = omega arith
main_left_max m_unlock = omega arith
main_left_max m_reset = omega arith
main_left_max m_exit = omega arith

sig_left_max : (g : Sig) → sig_left g ≤ 2
sig_left_max s_wait = omega arith
sig_left_max s_lock = omega arith
sig_left_max s_set = omega arith
sig_left_max s_unlock = omega arith
sig_left_max s_signal = omega arith
sig_left_max s_return = omega arith

steps_left_max : (s : Sys) → steps_left s ≤ 7
steps_left_max (sys m g l q) = omega (arith, main_left_max m, sig_left_max g)

-- In a state that the two threads come to from the start of `thr_fn`, once `thr_fn` has set `quitflag`
-- there are at most 7 steps more, however the threads take turns and whatever wakeups come without a
-- signal, and after each of them some thread can go on without such a wakeup, until the main thread is at
-- its `exit`.
pub run_ends : {n k : ℕ} {s t : Sys} → Run begin n s → IsTold s → Run s k t → (k ≤ 7) × EndsOrGoes t
run_ends {n} {k} {s} {t} r e h =
    let (a, j, f) = Run-nearer h (Run-IsSound r begin-IsSound) e in
    (omega (arith, a, steps_left_max s), Sound-EndsOrGoes t j f)
