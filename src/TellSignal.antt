-- ===== src/TellSignal.antt =====
-- TELL_WAIT and its kin over signals, my-src/Chapter-10/10-24.c: the process that waits, and what the calls of
-- `kill` by the other process do to it. A step is what happens between two points at which a signal can come in.
pub mod Wait
pub mod Ends
mod Tests
use my_apue.Prelude.{ℕ, zero, suc, ◌≡◌, Option, none, some, Bool, true, false, ◌||◌, if◌then◌else◌}

-- Where the process stands: before WAIT_PARENT or WAIT_CHILD, at the test of its loop, before `sigsuspend`, in
-- it, before `sigflag = 0`, before the last `sigprocmask`, and behind the call.
pub data Place : Type 0 where
  at_call at_test at_suspend suspended at_reset at_restore returned : Place

-- `sigflag`, whether a signal is pending, whether it is blocked, and whether the other has told.
pub data Sys : Type 0 where
  sys : Place → Bool → Bool → Bool → Bool → Sys

abbrev pub is_suspended : Place → Bool
is_suspended at_call = false
is_suspended at_test = false
is_suspended at_suspend = false
is_suspended suspended = true
is_suspended at_reset = false
is_suspended at_restore = false
is_suspended returned = false

-- The state after TELL_WAIT, in which `signal` is called twice and `sigprocmask` once; none is an end by
-- `err_sys`.
abbrev pub tell_wait : Bool → Bool → Bool → Option Sys
tell_wait signal_1 signal_2 blocks =
    if signal_1
    then (if signal_2
        then (if blocks then some (sys at_call false false true false) else none)
        else none)
    else none

-- A step of the process itself. `sigsuspend` opens the mask: it takes a signal that is pending, or sleeps. The
-- mask that is restored does not block the signals, so that one that is pending is taken then.
pub data Step : Sys → Sys → Type 0 where
  calls : {f d b t : Bool} → Step (sys at_call f d b t) (sys at_test f d b t)
  sees_zero : {d b t : Bool} → Step (sys at_test false d b t) (sys at_suspend false d b t)
  sees_flag : {d b t : Bool} → Step (sys at_test true d b t) (sys at_reset true d b t)
  sleeps : {f b t : Bool} → Step (sys at_suspend f false b t) (sys suspended f false b t)
  takes : {f b t : Bool} → Step (sys at_suspend f true b t) (sys at_test true false b t)
  resets : {f d b t : Bool} → Step (sys at_reset f d b t) (sys at_restore false d b t)
  restores : {f d b t : Bool} → Step (sys at_restore f d b t) (sys returned (f || d) false false t)

-- A call of TELL_CHILD or TELL_PARENT by the other: `sig_usr` sets `sigflag` at once in a process whose mask
-- is open, and the signal is pending in another.
pub data Told : Sys → Sys → Type 0 where
  pends :
      {p : Place} {f d t : Bool}
      → is_suspended p ≡ false
      → Told (sys p f d true t) (sys p f true true true)
  comes :
      {p : Place} {f d t : Bool}
      → is_suspended p ≡ false
      → Told (sys p f d false t) (sys p true d false true)
  wakes : {f d b t : Bool} → Told (sys suspended f d b t) (sys at_test true d b true)

-- Runs with a number of steps of the process itself, and calls of the other between them.
pub data Run (s : Sys) : ℕ → Sys → Type 0 where
  stay : Run s 0 s
  go : {n : ℕ} {t u : Sys} → Run s n t → Step t u → Run s (suc n) u
  hear : {n : ℕ} {t u : Sys} → Run s n t → Told t u → Run s n u
