-- ===== src/Getpass/Tests.antt =====
-- Runs of `getpass` (my-src/Chapter-18/18-17.c).
use my_apue.Prelude.{ℕ, ◌≡◌, refl, Option, true, false, none, some, List, [], ◌∷◌, ◌++◌, arith}
use my_apue.Getpass.{State, read_line, Passed, getpass}
use my_apue.Getpass.Reads.{Line, Quietly, getpass-Quietly}

abbrev terminal : State
terminal = record {
  termios = record { echo = true; echoe = true; echok = true; echonl = false; others = 5 };
  blocked = λ n. false;
  pending = 1 ∷ [];
  screen = 36 ∷ [];
}

abbrev buf : List ℕ
buf = 0 ∷ 0 ∷ 0 ∷ 0 ∷ 0 ∷ 0 ∷ 0 ∷ 0 ∷ 0 ∷ []

-- Ten characters.
abbrev long_line : List ℕ
long_line = 49 ∷ 50 ∷ 51 ∷ 52 ∷ 53 ∷ 54 ∷ 55 ∷ 56 ∷ 57 ∷ 58 ∷ []

long_line-Line : Line long_line
long_line-Line = (
  ground arith,
  ground arith,
  (
    ground arith,
    ground arith,
    (
      ground arith,
      ground arith,
      (
        ground arith,
        ground arith,
        (
          ground arith,
          ground arith,
          (
            ground arith,
            ground arith,
            (
              ground arith,
              ground arith,
              (
                ground arith,
                ground arith,
                (ground arith, ground arith, (ground arith, ground arith, tt)),
              ),
            ),
          ),
        ),
      ),
    ),
  ),
)

no_terminal : getpass false true (62 ∷ []) [] buf terminal ≡ none
unfolding getpass read_line
no_terminal = refl

-- Without a change of the attributes, the terminal shows what is typed.
abbrev shown : Option Passed → List ℕ
shown (some p) = p.after.screen
shown none = []

echo_stays :
    shown (getpass true false (62 ∷ []) (49 ∷ 10 ∷ []) buf (record terminal { pending = [] }))
    ≡ 36 ∷ 62 ∷ 49 ∷ 10 ∷ 10 ∷ []
unfolding getpass read_line
echo_stays = refl

getpass-Quietly_example :
    Quietly terminal
      (62 ∷ [])
      (49 ∷ 50 ∷ 51 ∷ 52 ∷ 53 ∷ 54 ∷ 55 ∷ 56 ∷ [])
      (getpass true true (62 ∷ []) (long_line ++ 10 ∷ 7 ∷ []) buf terminal)
getpass-Quietly_example =
    getpass-Quietly (62 ∷ []) long_line (7 ∷ []) buf terminal long_line-Line refl
