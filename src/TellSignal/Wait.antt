-- ===== src/TellSignal/Wait.antt =====
-- WAIT_PARENT and WAIT_CHILD of my-src/Chapter-10/10-24.c after TELL_WAIT: nobody returns too early or sleeps too long.
use mathlib.Core.Path.{subst}
use my_apue.Prelude.{ℕ, ◌≡◌, refl, sym, ap, some, Bool, true, false, ◌&&◌, ◌||◌, not, arith}
use my_apue.TellSignal.{
  Place, at_call, at_test, at_suspend, suspended, at_reset, at_restore, returned, Sys, sys,
  is_suspended, tell_wait, Step, calls, sees_zero, sees_flag, sleeps, takes, resets, restores, Told,
  pends, comes, wakes, Run, stay, go, hear,
}

-- The process is behind its loop.
abbrev pub has_left : Place → Bool
has_left at_call = false
has_left at_test = false
has_left at_suspend = false
has_left suspended = false
has_left at_reset = true
has_left at_restore = true
has_left returned = true

-- Up to the end of the loop the signals are blocked, and just what has been told is pending or in `sigflag`; a
-- process that sleeps has not been told, and one behind the loop has.
abbrev pub Sound : Place → Bool → Bool → Bool → Bool → Type 0
Sound at_call f d b t = (b ≡ true) × ((f || d) ≡ t)
Sound at_test f d b t = (b ≡ true) × ((f || d) ≡ t)
Sound at_suspend f d b t = (b ≡ true) × (f ≡ false) × (d ≡ t)
Sound suspended f d b t = (b ≡ true) × (t ≡ false)
Sound at_reset f d b t = t ≡ true
Sound at_restore f d b t = t ≡ true
Sound returned f d b t = t ≡ true

abbrev pub IsSound : Sys → Type 0
IsSound (sys p f d b t) = Sound p f d b t

or_true : (f : Bool) → (f || true) ≡ true
or_true true = refl
or_true false = refl

pub Step-IsSound : {s t : Sys} → Step s t → IsSound s → IsSound t
Step-IsSound calls i = i
Step-IsSound sees_zero (blocks, e) = (blocks, refl, e)
Step-IsSound sees_flag (blocks, e) = sym e
Step-IsSound sleeps (blocks, zero_flag, e) = (blocks, sym e)
Step-IsSound takes (blocks, zero_flag, e) = (blocks, e)
Step-IsSound resets i = i
Step-IsSound restores i = i

pends-Sound :
    (p : Place) (f d t : Bool)
    → is_suspended p ≡ false
    → Sound p f d true t
    → Sound p f true true true
pends-Sound at_call f d t e i = (refl, or_true f)
pends-Sound at_test f d t e i = (refl, or_true f)
pends-Sound at_suspend f d t e (blocks, zero_flag, same) = (refl, zero_flag, refl)
pends-Sound suspended f d t e i = ground arith
pends-Sound at_reset f d t e i = refl
pends-Sound at_restore f d t e i = refl
pends-Sound returned f d t e i = refl

comes-Sound :
    (p : Place) (f d t : Bool)
    → is_suspended p ≡ false
    → Sound p f d false t
    → Sound p true d false true
comes-Sound at_call f d t e (blocks, same) = (blocks, refl)
comes-Sound at_test f d t e (blocks, same) = (blocks, refl)
comes-Sound at_suspend f d t e (blocks, zero_flag, same) = ground arith
comes-Sound suspended f d t e i = ground arith
comes-Sound at_reset f d t e i = refl
comes-Sound at_restore f d t e i = refl
comes-Sound returned f d t e i = refl

pub Told-IsSound : {s t : Sys} → Told s t → IsSound s → IsSound t
Told-IsSound (pends {p} {f} {d} {t} e) i = pends-Sound p f d t e i
Told-IsSound (comes {p} {f} {d} {t} e) i = comes-Sound p f d t e i
Told-IsSound wakes (blocks, untold) = (blocks, refl)

pub Run-IsSound : {s : Sys} {n : ℕ} {t : Sys} → Run s n t → IsSound s → IsSound t
Run-IsSound stay i = i
Run-IsSound (go r d) i = Step-IsSound d (Run-IsSound r i)
Run-IsSound (hear r d) i = Told-IsSound d (Run-IsSound r i)

pub tell_wait-IsSound : (a b c : Bool) (s : Sys) → tell_wait a b c ≡ some s → IsSound s
tell_wait-IsSound false b c s e = cc
tell_wait-IsSound true false c s e = cc
tell_wait-IsSound true true false s e = cc
tell_wait-IsSound true true true s e =
    let begin : sys at_call false false true false ≡ s = cc in subst IsSound begin (refl, refl)

abbrev pub told : Sys → Bool
told (sys p f d b t) = t

abbrev pub behind : Sys → Bool
behind (sys p f d b t) = has_left p

abbrev pub asleep : Sys → Bool
asleep (sys p f d b t) = is_suspended p

pub sound-Waits :
    (s : Sys) → IsSound s → ((behind s && not (told s)) ≡ false) × ((asleep s && told s) ≡ false)
sound-Waits (sys at_call f d b t) i = (refl, refl)
sound-Waits (sys at_test f d b t) i = (refl, refl)
sound-Waits (sys at_suspend f d b t) i = (refl, refl)
sound-Waits (sys suspended f d b t) (blocks, untold) = (refl, untold)
sound-Waits (sys at_reset f d b t) i = (ap not i, refl)
sound-Waits (sys at_restore f d b t) i = (ap not i, refl)
sound-Waits (sys returned f d b t) i = (ap not i, refl)
