-- ===== src/TellSignal/Tests.antt =====
-- Runs of the calls of my-src/Chapter-10/10-24.c.
use my_apue.Prelude.{◌≤◌, ◌≡◌, refl, ◌⊎◌, true, false, ◌&&◌, not}
use my_apue.TellSignal.{
  Sys, sys, at_call, at_suspend, suspended, returned, calls, sees_zero, sees_flag, sleeps, takes,
  resets, restores, pends, comes, Run, stay, go, hear,
}
use my_apue.TellSignal.Wait.{behind, told, asleep}
use my_apue.TellSignal.Ends.{is_returned, CanGo, waits-tell_wait}

abbrev begin : Sys
begin = sys at_call false false true false

-- The signal comes between the test of `sigflag` and `sigsuspend`, and is not lost.
told_late : Run begin 2 (sys at_suspend false true true true)
told_late = hear (go (go stay calls) sees_zero) (pends refl)

waits-tell_wait_example :
    ((behind (sys at_suspend false true true true)
        && not (told (sys at_suspend false true true true)))
      ≡ false)
    × ((asleep (sys at_suspend false true true true) && told (sys at_suspend false true true true))
        ≡ false)
    × ((told (sys at_suspend false true true true) ≡ false)
        ⊎ ((4 ≤ 6)
            × ((is_returned (sys returned false false false true) ≡ true)
                ⊎ CanGo (sys returned false false false true))))
waits-tell_wait_example =
    waits-tell_wait true true true refl told_late
      (go (go (go (go stay takes) sees_flag) resets) restores)

-- A second wait has the mask open, and can sleep though the other has told: the signal that comes before
-- `sigsuspend` is lost.
second_wait : Run (sys at_call false false false false) 3 (sys suspended true false false true)
second_wait = go (hear (go (go stay calls) sees_zero) (comes refl)) sleeps
