-- ===== src/TellSignal/Ends.antt =====
-- The end of WAIT_PARENT and WAIT_CHILD of my-src/Chapter-10/10-24.c once the other process has told.
use my_apue.Prelude.{
  ℕ, suc, ◌+◌, ◌≤◌, ◌≡◌, refl, ◌⊎◌, inl, inr, some, Bool, true, false, ◌||◌, ◌&&◌, not, Bool-cases,
  arith,
}
use my_apue.TellSignal.{
  Place, at_call, at_test, at_suspend, suspended, at_reset, at_restore, returned, Sys, sys,
  tell_wait, Step, calls, sees_zero, sees_flag, sleeps, takes, resets, restores, Told, pends, comes,
  wakes, Run, stay, go, hear,
}
use my_apue.TellSignal.Wait.{
  behind, asleep, sound-Waits, IsSound, told, Step-IsSound, Told-IsSound, Run-IsSound,
  tell_wait-IsSound,
}

-- A bound on the steps before the end of a process that has been told.
abbrev pub place_left : Place → Bool → ℕ
place_left at_call true = 4
place_left at_call false = 6
place_left at_test true = 3
place_left at_test false = 5
place_left at_suspend f = 4
place_left suspended f = 4
place_left at_reset f = 2
place_left at_restore f = 1
place_left returned f = 0

abbrev pub steps_left : Sys → ℕ
steps_left (sys p f d b t) = place_left p f

Step-nearer :
    {s t : Sys}
    → Step s t
    → IsSound s
    → told s ≡ true
    → (suc (steps_left t) ≤ steps_left s) × (told t ≡ true)
Step-nearer (calls {f = true}) i e = (omega arith, e)
Step-nearer (calls {f = false}) i e = (omega arith, e)
Step-nearer sees_zero i e = (omega arith, e)
Step-nearer sees_flag i e = (omega arith, e)
Step-nearer sleeps (blocks, zero_flag, same) e = ground arith
Step-nearer takes i e = (omega arith, e)
Step-nearer resets i e = (omega arith, e)
Step-nearer restores i e = (omega arith, e)

-- A call of the other that comes late brings no more steps.
comes_left : (p : Place) (f : Bool) → place_left p true ≤ place_left p f
comes_left at_call true = omega arith
comes_left at_call false = omega arith
comes_left at_test true = omega arith
comes_left at_test false = omega arith
comes_left at_suspend f = omega arith
comes_left suspended f = omega arith
comes_left at_reset f = omega arith
comes_left at_restore f = omega arith
comes_left returned f = omega arith

Told-nearer : {s t : Sys} → Told s t → (steps_left t ≤ steps_left s) × (told t ≡ true)
Told-nearer (pends e) = (omega arith, refl)
Told-nearer (comes {p} {f} e) = (comes_left p f, refl)
Told-nearer wakes = (omega arith, refl)

Run-nearer :
    {s : Sys} {n : ℕ} {t : Sys}
    → Run s n t
    → IsSound s
    → told s ≡ true
    → (n + steps_left t ≤ steps_left s) × IsSound t × (told t ≡ true)
Run-nearer stay i e = (omega arith, i, e)
Run-nearer (go r d) i e =
    let (a, j, f) = Run-nearer r i e in
    let (b, h) = Step-nearer d j f in (omega arith, Step-IsSound d j, h)
Run-nearer (hear r d) i e =
    let (a, j, f) = Run-nearer r i e in
    let (b, h) = Told-nearer d in (omega arith, Told-IsSound d j, h)

bounded : (s : Sys) → steps_left s ≤ 6
bounded (sys at_call true d b t) = omega arith
bounded (sys at_call false d b t) = omega arith
bounded (sys at_test true d b t) = omega arith
bounded (sys at_test false d b t) = omega arith
bounded (sys at_suspend f d b t) = omega arith
bounded (sys suspended f d b t) = omega arith
bounded (sys at_reset f d b t) = omega arith
bounded (sys at_restore f d b t) = omega arith
bounded (sys returned f d b t) = omega arith

abbrev pub is_returned : Sys → Bool
is_returned (sys at_call f d b t) = false
is_returned (sys at_test f d b t) = false
is_returned (sys at_suspend f d b t) = false
is_returned (sys suspended f d b t) = false
is_returned (sys at_reset f d b t) = false
is_returned (sys at_restore f d b t) = false
is_returned (sys returned f d b t) = true

abbrev pub CanGo : Sys → Type 0
CanGo s = (t : Sys) × Step s t

end_or_go : (s : Sys) → IsSound s → told s ≡ true → (is_returned s ≡ true) ⊎ CanGo s
end_or_go (sys at_call f d b t) i e = inr (sys at_test f d b t, calls)
end_or_go (sys at_test true d b t) i e = inr (sys at_reset true d b t, sees_flag)
end_or_go (sys at_test false d b t) i e = inr (sys at_suspend false d b t, sees_zero)
end_or_go (sys at_suspend f true b t) i e = inr (sys at_test true false b t, takes)
end_or_go (sys at_suspend f false b t) i e = inr (sys suspended f false b t, sleeps)
end_or_go (sys suspended f d b t) (blocks, untold) e = cc
end_or_go (sys at_reset f d b t) i e = inr (sys at_restore false d b t, resets)
end_or_go (sys at_restore f d b t) i e = inr (sys returned (f || d) false false t, restores)
end_or_go (sys returned f d b t) i e = inl refl

wait_ends :
    {u : Sys} {n : ℕ} {t : Sys}
    → IsSound u
    → told u ≡ true
    → Run u n t
    → (n ≤ 6) × ((is_returned t ≡ true) ⊎ CanGo t)
wait_ends {u} {n} {t} sound is_told after =
    let (near, sound', told') = Run-nearer after sound is_told in
    let bound = bounded u in (omega (arith, near, bound), end_or_go t sound' told')

-- In every state that a process comes to after TELL_WAIT, in WAIT_PARENT or WAIT_CHILD, however the signals of
-- the other come in: behind the loop the other has told, and in `sigsuspend` it has not; and once it has told, the
-- process makes at most 6 steps more to the end of the call, and before that end it can always make one.
pub waits-tell_wait :
    (a b c : Bool) {s : Sys} {m : ℕ} {u : Sys} {n : ℕ} {t : Sys}
    → tell_wait a b c ≡ some s
    → Run s m u
    → Run u n t
    → ((behind u && not (told u)) ≡ false)
      × ((asleep u && told u) ≡ false)
      × ((told u ≡ false) ⊎ ((n ≤ 6) × ((is_returned t ≡ true) ⊎ CanGo t)))
waits-tell_wait a b c {s} {m} {u} {n} {t} e before after =
    let sound = Run-IsSound before (tell_wait-IsSound a b c s e) in
    let (early, late) = sound-Waits u sound in
    (
      early,
      late,
      elim (Bool-cases (told u)) [
        | inl is_told ↦ inr (wait_ends sound is_told after)
        | inr untold ↦ inl untold
      ],
    )
