-- ===== src/Timeout/Tests.antt =====
-- Runs of `timeout` of my-src/Chapter-12/12-8.c.
use my_apue.Prelude.{◌≡◌, refl, true, [], ◌∷◌, arith}
use my_apue.Prelude.Int.{pos}
use my_apue.Timeout.{Timespec, allocated, slept, called, freed, timeout}
use my_apue.Timeout.Waits.{Does, timeout-Does}

abbrev now : Timespec
now = record { tv_sec = 7; tv_nsec = 50000000 }

abbrev time : Timespec
time = record { tv_sec = 9; tv_nsec = 40000000 }

-- A sleep of 1.09 seconds in place of 1.99.
borrowed : timeout true true now time ≡ allocated ∷ slept 1 (pos 90000000) ∷ called ∷ freed ∷ []
unfolding timeout
borrowed = refl

past : timeout true true time now ≡ []
unfolding timeout
past = refl

timeout-Does_example : Does true true now time (timeout true true now time)
timeout-Does_example = timeout-Does now time (omega arith) (omega arith) true true
