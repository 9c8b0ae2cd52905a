-- ===== src/Popen/Tests.antt =====
-- Runs of my-src/Chapter-15/15-12.c in a process with six descriptors, three of them open, and an
-- earlier stream on the fourth.
use my_apue.Prelude.{ℕ, ◌≡◌, refl, none, some, true, List, [], ◌∷◌, arith, ltb, if◌then◌else◌}
use my_apue.Prelude.Int.{pos}
use my_apue.Popen.{
  Fds, other, Process, stream, my_popen, Wait, reaped, interrupted, returned, my_pclose,
}
use my_apue.Popen.Roundtrip.{type_of, before, serving, my_pclose-my_popen}

abbrev pids : List ℕ
pids = 0 ∷ 0 ∷ 0 ∷ 91 ∷ 0 ∷ 0 ∷ []

abbrev fds : Fds
fds i = if ltb i 4 then some (other i) else none

abbrev waits : ℕ → List Wait
waits pid = interrupted ∷ reaped (pos 256) ∷ []

-- A stream for reading on the pipe 4, 5, whose child has the number 92.
my_pclose-my_popen_example :
    (s1 : Process) × (child : Fds) × (s2 : Process) × (my_popen
        (serving pids 6 0 fds 6 1 91 true true 4 5)
        (type_of true)
        (before pids 6 0 fds 6 1 91 true true 4 5)
      ≡ stream 4 s1 child)
    × (my_pclose true waits 4 s1 ≡ returned (pos 256) s2)
    × (s2.childpid ≡ some pids)
    × ((i : ℕ) → s2.fds i ≡ fds i)
my_pclose-my_popen_example =
    my_pclose-my_popen pids 6 0 fds 6 1 91 true true 4 5 (omega arith) (omega arith) waits (pos 256)
      refl refl refl refl

abbrev six : ℕ
six = 6
