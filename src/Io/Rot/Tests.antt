-- ===== src/Io/Rot/Tests.antt =====
-- my-src/Chapter-14/14-20.c on a file that is read two bytes at a time.
use my_apue.Prelude.{
  ℕ, ◌≤◌, ◌≡◌, refl, sym, ap, Option, none, some, List, [], ◌∷◌, ◌++◌, arith, length, take,
  take-length,
}
use my_apue.Io.Full.Tests.{pipe_source}
use my_apue.Io.Full.Writes.{Sink}
use my_apue.Io.Rot.{translate, rot_main}
use my_apue.Io.Rot.Laws.{MainEnds, rot_main-MainEnds}

-- An output that takes everything.
abbrev file_write : List ℕ → List ℕ → Option ℕ × List ℕ
file_write bytes s = (some (length bytes), s ++ bytes)

file_takes :
    (bytes s s' : List ℕ) (k : ℕ)
    → file_write bytes s ≡ (some k, s')
    → (s' ≡ s ++ take k bytes) × (k ≤ length bytes)
file_takes bytes s s' k e =
    let is : k ≡ length bytes = cc in
    let new : s' ≡ s ++ bytes = cc in
    rw (is, new) (ap (λ x. s ++ x) (sym (take-length bytes)), omega arith)

file_holds : (bytes s s' : List ℕ) → file_write bytes s ≡ (none, s') → s' ≡ s
file_holds bytes s s' e = cc

abbrev file : Sink (List ℕ)
file = record { write = file_write; content = λ s. s; takes = file_takes; keeps = file_holds }

-- "Hello"
abbrev hello : List ℕ
hello = 72 ∷ 101 ∷ 108 ∷ 108 ∷ 111 ∷ []

-- Outside the letters: '@' goes where 'Z' goes.
at_and_capital_z : translate 64 ≡ translate 90
unfolding translate
at_and_capital_z = refl

rot_main-MainEnds_example :
    MainEnds pipe_source file
      (λ bytes s. refl)
      (some hello)
      (some [])
      (rot_main pipe_source.read file_write 6 3 (some hello) (some []))
rot_main-MainEnds_example =
    rot_main-MainEnds pipe_source file (λ bytes s. refl) 6 (some hello) (some [])
      (omega arith, (omega arith, (omega arith, (omega arith, (omega arith, (omega arith, tt))))))

-- One argument too few.
no_output : rot_main pipe_source.read file_write 6 2 (some hello) (some []) ≡ none
unfolding rot_main
no_output = refl
