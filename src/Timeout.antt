-- ===== src/Timeout.antt =====
-- `timeout` of my-src/Chapter-12/12-8.c, which has a function called by a new thread at a given time.
pub mod Waits
mod Tests
use my_apue.Prelude.{
  ℕ, ◌+◌, ◌-◌, Bool, true, false, ◌&&◌, ◌||◌, List, [], ◌∷◌, ltb, leb, ◌==◌, if◌then◌else◌,
}
use my_apue.Prelude.Int.{ℤ, pos, negsuc}

pub record Timespec : Type 0 where
  pub tv_sec : ℕ
  pub tv_nsec : ℕ

-- `SECTONSEC`, as the file has it.
abbrev pub sectonsec : ℕ
sectonsec = 100000000

-- What the two threads do: the memory for the arguments, a sleep of seconds and nanoseconds, the call of
-- the function, and the release of the memory.
pub data Event : Type 0 where
  allocated : Event
  slept : ℕ → ℤ → Event
  called : Event
  freed : Event

-- The time is still to come.
abbrev pub is_later : Timespec → Timespec → Bool
is_later time now =
    ltb now.tv_sec time.tv_sec || (time.tv_sec == now.tv_sec && ltb now.tv_nsec time.tv_nsec)

-- `a - b` on `long`.
abbrev pub minus : ℕ → ℕ → ℤ
minus a b = if leb b a then pos (a - b) else negsuc (b - a - 1)

-- `tip->to_wait`: seconds and nanoseconds.
abbrev pub to_wait : Timespec → Timespec → ℕ × ℤ
to_wait time now =
    if leb now.tv_nsec time.tv_nsec
    then (time.tv_sec - now.tv_sec, minus time.tv_nsec now.tv_nsec)
    else (time.tv_sec - now.tv_sec - 1, minus (sectonsec + time.tv_nsec) now.tv_nsec)

abbrev pub timeout_helper : ℕ × ℤ → List Event
timeout_helper (sec, nsec) = slept sec nsec ∷ called ∷ freed ∷ []

-- `memory` and `thread` tell whether `malloc` and `makethread` succeed.
unfoldable pub timeout : Bool → Bool → Timespec → Timespec → List Event
timeout memory thread now time =
    if is_later time now
    then (if memory
        then (if thread
            then allocated ∷ timeout_helper (to_wait time now)
            else allocated ∷ freed ∷ [])
        else [])
    else []
