-- ===== src/Quit/Safe.antt =====
-- The invariant of the two threads of my-src/Chapter-12/12-16.c.
use my_apue.Prelude.{ℕ, ◌≡◌, refl, Bool, true, false, ◌&&◌, not, arith, sym, ap, ◌∙◌}
use mathlib.Core.Path.{subst}
use my_apue.Quit.{
  Main, m_lock, m_test, m_wait, m_woken, m_unlock, m_reset, m_exit, Sig, s_wait, s_lock, s_set,
  s_unlock, s_signal, s_return, Owner, free, by_main, by_sig, Sys, sys, wake, Step, main_locks,
  main_sleeps, main_sees, spurious, main_relocks, main_unlocks, main_resets, interrupt, quit,
  sig_locks, sig_sets, sig_unlocks, sig_signals, begin, Run, stay, go,
}
use my_apue.Quit.Places.{
  main_holds, waits, exits, has_left, sig_holds, has_set, returned, is_main, is_sig, Sound, IsSound,
}

same_holds : (m : Main) → main_holds (wake m) ≡ main_holds m
same_holds m_lock = refl
same_holds m_test = refl
same_holds m_wait = refl
same_holds m_woken = refl
same_holds m_unlock = refl
same_holds m_reset = refl
same_holds m_exit = refl

same_exits : (m : Main) → exits (wake m) ≡ exits m
same_exits m_lock = refl
same_exits m_test = refl
same_exits m_wait = refl
same_exits m_woken = refl
same_exits m_unlock = refl
same_exits m_reset = refl
same_exits m_exit = refl

same_left : (m : Main) → has_left (wake m) ≡ has_left m
same_left m_lock = refl
same_left m_test = refl
same_left m_wait = refl
same_left m_woken = refl
same_left m_unlock = refl
same_left m_reset = refl
same_left m_exit = refl

wakes : (m : Main) → (waits (wake m) && true) ≡ false
wakes m_lock = refl
wakes m_test = refl
wakes m_wait = refl
wakes m_woken = refl
wakes m_unlock = refl
wakes m_reset = refl
wakes m_exit = refl

exits_left : (m : Main) → (has_left m && true) ≡ false → true ≡ not (exits m)
exits_left m_lock e = refl
exits_left m_test e = refl
exits_left m_wait e = refl
exits_left m_woken e = refl
exits_left m_unlock e = refl
exits_left m_reset e = refl
exits_left m_exit e = e

sleeps : (g : Sig) → false ≡ has_set g && true → returned g ≡ false
sleeps s_wait e = refl
sleeps s_lock e = refl
sleeps s_set e = refl
sleeps s_unlock e = refl
sleeps s_signal e = refl
sleeps s_return e = sym e

and_false : (b : Bool) → b && false ≡ false
and_false true = refl
and_false false = refl

flag-left : (b : Bool) → true ≡ b && true → not b ≡ false
flag-left true e = refl
flag-left false e = e

-- Every step keeps the invariant.
pub Step-IsSound : {s t : Sys} → Step s t → IsSound s → IsSound t
Step-IsSound main_locks i = record {
  main_owns = refl;
  sig_owns = i.sig_owns;
  flag = i.flag;
  awake = refl;
  left = refl;
}
Step-IsSound (main_sleeps {g}) i = record {
  main_owns = refl;
  sig_owns = i.sig_owns;
  flag = i.flag;
  awake = sleeps g i.flag;
  left = refl;
}
Step-IsSound (main_sees {g}) i = record {
  main_owns = i.main_owns;
  sig_owns = i.sig_owns;
  flag = i.flag;
  awake = refl;
  left = flag-left (has_set g) i.flag;
}
Step-IsSound spurious i = record {
  main_owns = i.main_owns;
  sig_owns = i.sig_owns;
  flag = i.flag;
  awake = refl;
  left = i.left;
}
Step-IsSound main_relocks i = record {
  main_owns = refl;
  sig_owns = i.sig_owns;
  flag = i.flag;
  awake = i.awake;
  left = i.left;
}
Step-IsSound main_unlocks i = record {
  main_owns = refl;
  sig_owns = i.sig_owns;
  flag = i.flag;
  awake = i.awake;
  left = i.left;
}
Step-IsSound (main_resets {g}) i = record {
  main_owns = i.main_owns;
  sig_owns = i.sig_owns;
  flag = sym (and_false (has_set g));
  awake = i.awake;
  left = i.left;
}
Step-IsSound interrupt i = i
Step-IsSound quit i = record {
  main_owns = i.main_owns;
  sig_owns = i.sig_owns;
  flag = i.flag;
  awake = i.awake;
  left = i.left;
}
Step-IsSound sig_locks i = record {
  main_owns = i.main_owns;
  sig_owns = refl;
  flag = i.flag;
  awake = i.awake;
  left = i.left;
}
Step-IsSound (sig_sets {m}) i = record {
  main_owns = i.main_owns;
  sig_owns = i.sig_owns;
  flag = exits_left m i.left;
  awake = and_false (waits m);
  left = and_false (has_left m);
}
Step-IsSound sig_unlocks i = record {
  main_owns = i.main_owns;
  sig_owns = refl;
  flag = i.flag;
  awake = i.awake;
  left = i.left;
}
Step-IsSound (sig_signals {m}) i = record {
  main_owns = i.main_owns ∙ sym (same_holds m);
  sig_owns = i.sig_owns;
  flag = i.flag ∙ sym (ap not (same_exits m));
  awake = wakes m;
  left = and_false (has_left (wake m));
}

pub Run-IsSound : {s : Sys} {n : ℕ} {t : Sys} → Run s n t → IsSound s → IsSound t
Run-IsSound stay i = i
Run-IsSound (go r d) i = Step-IsSound d (Run-IsSound r i)

pub begin-IsSound : IsSound begin
begin-IsSound = record { main_owns = refl; sig_owns = refl; flag = refl; awake = refl; left = refl }

and_not : (b : Bool) {c : Bool} → c ≡ false → b && not c ≡ false → b ≡ false
and_not true e f = ground arith
and_not false e f = refl

waits_not : (m : Main) {b : Bool} → m ≡ m_wait → waits m && b ≡ false → b ≡ false
waits_not m {b} e f = subst (λ x. waits x && b ≡ false) e f

-- What holds of every state that the program comes to.
pub reached-Sound :
    {n : ℕ} {m : Main} {g : Sig} {l : Owner} {q : Bool} → Run begin n (sys m g l q) → Sound m g l q
reached-Sound r = Run-IsSound r begin-IsSound

-- A main thread that waits once the flag is set is still to be signalled.
pub data ToSignal : Sig → Type 0 where
  before_unlock : ToSignal s_unlock
  before_signal : ToSignal s_signal

to_signal : (g : Sig) → returned g ≡ false → has_set g ≡ true → ToSignal g
to_signal s_unlock a b = before_unlock
to_signal s_signal a b = before_signal
to_signal s_wait a b = ground arith
to_signal s_lock a b = ground arith
to_signal s_set a b = ground arith
to_signal s_return a b = ground arith

pub record NoneLost (m : Main) (g : Sig) (l : Owner) (q : Bool) : Type 0 where
  pub one_holds : main_holds m && sig_holds g ≡ false
  pub stays : has_set g ≡ false → has_left m ≡ false
  pub woken : m ≡ m_wait → has_set g ≡ true → ToSignal g
  pub told : has_set g ≡ true → exits m ≡ false → q ≡ true

one_owner : (l : Owner) → is_main l && is_sig l ≡ false
one_owner free = refl
one_owner by_main = refl
one_owner by_sig = refl

-- In every state that the two threads come to from the start of `thr_fn`, at most one of them is where
-- `lock` is held; the main thread is behind its loop only after `thr_fn` has set `quitflag`; if it waits
-- though the flag is set, `thr_fn` has its `pthread_cond_signal` before it; and until the main thread
-- resets the flag, the flag that was set stays set.
pub Run-NoneLost :
    {n : ℕ} {m : Main} {g : Sig} {l : Owner} {q : Bool}
    → Run begin n (sys m g l q)
    → NoneLost m g l q
Run-NoneLost {n} {m} {g} {l} {q} r =
    let i = reached-Sound r in
    record {
      one_holds =
          subst (λ x. x && sig_holds g ≡ false) i.main_owns
            (subst (λ x. is_main l && x ≡ false) i.sig_owns (one_owner l));
      stays = λ e. and_not (has_left m) e i.left;
      woken = λ e f. to_signal g (waits_not m e i.awake) f;
      told = λ e f. ground arith;
    }
