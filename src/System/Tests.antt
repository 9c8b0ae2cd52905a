-- ===== src/System/Tests.antt =====
-- Runs of `mysystem` (my-src/Chapter-10/10-26.c) and of `mysystem2` (10-28.c).
use my_apue.Prelude.{◌≡◌, refl, some, true, false, [], ◌∷◌}
use my_apue.Prelude.Int.{pos, minus_one}
use my_apue.System.{
  default, caught, Signals, exec_signals, exited, interrupted, failed, Calls, returned, waiting,
  wait_1, mysystem, wait_2, mysystem2,
}
use my_apue.System.Runs.{left_by_2, systems_agree}

abbrev caller : Signals
caller = record { sigint = caught 1; sigquit = default; blocked = λ n. false }

abbrev one_interruption : Calls
one_interruption = record {
  ignore_int = true;
  ignore_quit = true;
  block = true;
  fork = true;
  waits = interrupted ∷ exited (pos 256) ∷ [];
  restore_int = true;
  restore_quit = true;
  restore_mask = true;
}

-- An error that stays keeps `mysystem` in its loop, and ends `mysystem2`.
no_child :
    mysystem (record one_interruption { waits = failed ∷ failed ∷ [] }) (some []) caller ≡ waiting
unfolding mysystem wait_1
no_child = refl

no_child_2 :
    mysystem2 (record one_interruption { waits = failed ∷ [] }) (some []) caller
    ≡ returned minus_one (left_by_2 caller) (some (exec_signals caller))
unfolding mysystem2 wait_2
no_child_2 = refl

systems_agree_example :
    (mysystem2 one_interruption (some []) caller
      ≡ returned (pos 256) (left_by_2 caller) (some (exec_signals caller)))
    × (mysystem one_interruption (some []) caller
        ≡ returned minus_one caller (some (exec_signals caller)))
systems_agree_example =
    systems_agree one_interruption [] caller 1 (pos 256) []
      (record {
        ignores_int = refl;
        ignores_quit = refl;
        blocks = refl;
        forks = refl;
        restores_int = refl;
        restores_quit = refl;
        restores_mask = refl;
      })
      refl
