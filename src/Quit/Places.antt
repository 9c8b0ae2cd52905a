-- ===== src/Quit/Places.antt =====
-- Where the threads of my-src/Chapter-12/12-16.c hold `lock` and what has been done, and the invariant.
use my_apue.Prelude.{◌≡◌, Bool, true, false, ◌&&◌, not}
use my_apue.Quit.{
  Main, m_lock, m_test, m_wait, m_woken, m_unlock, m_reset, m_exit, Sig, s_wait, s_lock, s_set,
  s_unlock, s_signal, s_return, Owner, free, by_main, by_sig, Sys, sys,
}

-- `lock` is held where the code stands.
abbrev pub main_holds : Main → Bool
main_holds m_lock = false
main_holds m_test = true
main_holds m_wait = false
main_holds m_woken = false
main_holds m_unlock = true
main_holds m_reset = false
main_holds m_exit = false

abbrev pub waits : Main → Bool
waits m_lock = false
waits m_test = false
waits m_wait = true
waits m_woken = false
waits m_unlock = false
waits m_reset = false
waits m_exit = false

abbrev pub exits : Main → Bool
exits m_lock = false
exits m_test = false
exits m_wait = false
exits m_woken = false
exits m_unlock = false
exits m_reset = false
exits m_exit = true

-- The main thread is behind its loop.
abbrev pub has_left : Main → Bool
has_left m_lock = false
has_left m_test = false
has_left m_wait = false
has_left m_woken = false
has_left m_unlock = true
has_left m_reset = true
has_left m_exit = true

abbrev pub sig_holds : Sig → Bool
sig_holds s_wait = false
sig_holds s_lock = false
sig_holds s_set = true
sig_holds s_unlock = true
sig_holds s_signal = false
sig_holds s_return = false

-- `thr_fn` is behind its assignment.
abbrev pub has_set : Sig → Bool
has_set s_wait = false
has_set s_lock = false
has_set s_set = false
has_set s_unlock = true
has_set s_signal = true
has_set s_return = true

abbrev pub returned : Sig → Bool
returned s_wait = false
returned s_lock = false
returned s_set = false
returned s_unlock = false
returned s_signal = false
returned s_return = true

abbrev pub is_main : Owner → Bool
is_main free = false
is_main by_main = true
is_main by_sig = false

abbrev pub is_sig : Owner → Bool
is_sig free = false
is_sig by_main = false
is_sig by_sig = true

pub record Sound (m : Main) (g : Sig) (l : Owner) (q : Bool) : Type 0 where
  pub main_owns : is_main l ≡ main_holds m
  pub sig_owns : is_sig l ≡ sig_holds g
  pub flag : q ≡ has_set g && not (exits m)
  pub awake : (waits m && returned g) ≡ false
  pub left : (has_left m && not (has_set g)) ≡ false

abbrev pub IsSound : Sys → Type 0
IsSound (sys m g l q) = Sound m g l q
