-- ===== src/Quit.antt =====
-- my-src/Chapter-12/12-16.c: the main thread waits on a condition variable for the flag that the
-- signal thread sets at SIGQUIT. A step is what one thread does between two points at which another can
-- come in.
pub mod Places
pub mod Safe
pub mod Live
mod Tests
use my_apue.Prelude.{ℕ, zero, suc, ◌+◌, Bool, true, false, List, [], ◌∷◌}

-- Where the main thread stands: before the lock, at the test of the loop, in `pthread_cond_wait`, woken
-- but without the lock, after the loop, before `quitflag = 0`, and at `exit(0)`.
pub data Main : Type 0 where
  m_lock m_test m_wait m_woken m_unlock m_reset m_exit : Main

-- Where `thr_fn` stands: in `sigwait`, at SIGQUIT before the lock, before and behind the assignment,
-- before `pthread_cond_signal`, and at its return.
pub data Sig : Type 0 where
  s_wait s_lock s_set s_unlock s_signal s_return : Sig

-- Who holds `lock`.
pub data Owner : Type 0 where
  free by_main by_sig : Owner

pub data Sys : Type 0 where
  sys : Main → Sig → Owner → Bool → Sys

-- `pthread_cond_signal` wakes the main thread if it waits.
abbrev pub wake : Main → Main
wake m_lock = m_lock
wake m_test = m_test
wake m_wait = m_woken
wake m_woken = m_woken
wake m_unlock = m_unlock
wake m_reset = m_reset
wake m_exit = m_exit

-- The last component is `quitflag`. `spurious` is a return of `pthread_cond_wait` without a signal.
pub data Step : Sys → Sys → Type 0 where
  main_locks : {g : Sig} {q : Bool} → Step (sys m_lock g free q) (sys m_test g by_main q)
  main_sleeps : {g : Sig} → Step (sys m_test g by_main false) (sys m_wait g free false)
  main_sees : {g : Sig} → Step (sys m_test g by_main true) (sys m_unlock g by_main true)
  spurious : {g : Sig} {l : Owner} {q : Bool} → Step (sys m_wait g l q) (sys m_woken g l q)
  main_relocks : {g : Sig} {q : Bool} → Step (sys m_woken g free q) (sys m_test g by_main q)
  main_unlocks : {g : Sig} {q : Bool} → Step (sys m_unlock g by_main q) (sys m_reset g free q)
  main_resets : {g : Sig} {l : Owner} {q : Bool} → Step (sys m_reset g l q) (sys m_exit g l false)
  interrupt : {m : Main} {l : Owner} {q : Bool} → Step (sys m s_wait l q) (sys m s_wait l q)
  quit : {m : Main} {l : Owner} {q : Bool} → Step (sys m s_wait l q) (sys m s_lock l q)
  sig_locks : {m : Main} {q : Bool} → Step (sys m s_lock free q) (sys m s_set by_sig q)
  sig_sets : {m : Main} {l : Owner} {q : Bool} → Step (sys m s_set l q) (sys m s_unlock l true)
  sig_unlocks : {m : Main} {q : Bool} → Step (sys m s_unlock by_sig q) (sys m s_signal free q)
  sig_signals :
      {m : Main} {l : Owner} {q : Bool} → Step (sys m s_signal l q) (sys (wake m) s_return l q)

-- SIGINT and SIGQUIT are blocked and the thread runs.
abbrev pub begin : Sys
begin = sys m_lock s_wait free false

-- Runs of a number of steps.
pub data Run (s : Sys) : ℕ → Sys → Type 0 where
  stay : Run s 0 s
  go : {n : ℕ} {t u : Sys} → Run s n t → Step t u → Run s (suc n) u
