-- ===== src/Quit/Tests.antt =====
-- A run of my-src/Chapter-12/12-16.c: SIGQUIT comes while the main thread waits.
use my_apue.Prelude.{refl, ◌≤◌, true, false}
use my_apue.Quit.{
  m_wait, m_exit, s_unlock, s_return, free, by_sig, sys, main_locks, main_sleeps, main_sees,
  spurious, main_relocks, main_unlocks, main_resets, interrupt, quit, sig_locks, sig_sets,
  sig_unlocks, sig_signals, begin, Run, stay, go,
}
use my_apue.Quit.Safe.{NoneLost, Run-NoneLost}
use my_apue.Quit.Live.{EndsOrGoes, run_ends}

set_run : Run begin 6 (sys m_wait s_unlock by_sig true)
set_run = go (go (go (go (go (go stay main_locks) main_sleeps) interrupt) quit) sig_locks) sig_sets

last_run : Run (sys m_wait s_unlock by_sig true) 7 (sys m_exit s_return free false)
last_run =
    go
      (go (go (go (go (go (go stay sig_unlocks) spurious) main_relocks) main_sees) main_unlocks)
        main_resets)
      sig_signals

Run-NoneLost_example : NoneLost m_wait s_unlock by_sig true
Run-NoneLost_example = Run-NoneLost set_run

run_ends_example : (7 ≤ 7) × EndsOrGoes (sys m_exit s_return free false)
run_ends_example = run_ends set_run refl last_run
