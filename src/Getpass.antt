-- ===== src/Getpass.antt =====
-- `getpass` of my-src/Chapter-18/18-17.c: a password read from the terminal without echo.
pub mod Reads
mod Tests
use my_apue.Prelude.{
  ℕ, zero, suc, ◌+◌, Option, none, some, Bool, true, false, ◌||◌, ◌&&◌, List, [], ◌∷◌, ◌++◌, ltb,
  ◌==◌, if◌then◌else◌, set,
}

-- `MAX_PASS_LEN`
abbrev pub max_pass_len : ℕ
max_pass_len = 8

-- The bits of `c_lflag` that `getpass` clears, and the other attributes of the terminal.
pub record Termios : Type 0 where
  pub echo : Bool
  pub echoe : Bool
  pub echok : Bool
  pub echonl : Bool
  pub others : ℕ

-- The terminal, the signals that are blocked, what has been typed and not read, and what the terminal
-- shows.
pub record State : Type 0 where
  pub termios : Termios
  pub blocked : ℕ → Bool
  pub pending : List ℕ
  pub screen : List ℕ

abbrev pub sigint : ℕ
sigint = 2

abbrev pub sigtstp : ℕ
sigtstp = 20

abbrev pub silent : Termios → Termios
silent t = record t { echo = false; echoe = false; echok = false; echonl = false }

-- What the terminal shows of a character that is typed.
abbrev pub echoed : Termios → ℕ → List ℕ
echoed t c = if t.echo || (c == 10 && t.echonl) then c ∷ [] else []

-- The loop: `k` is `ptr - buf`. The result is `ptr - buf`, `buf`, what is left to read, and the screen.
unfoldable pub read_line : Termios → ℕ → List ℕ → List ℕ → List ℕ → ℕ × List ℕ × List ℕ × List ℕ
read_line t k buf [] screen = (k, buf, [], screen)
read_line t k buf (c ∷ cs) screen =
    let stored = read_line t (suc k) (set buf k c) cs (screen ++ echoed t c) in
    let dropped = read_line t k buf cs (screen ++ echoed t c) in
    if c == 10
    then (k, buf, cs, screen ++ echoed t c)
    else (if ltb k max_pass_len then stored else dropped)

-- The buffer that is returned, the state after the call, and the terminal and the mask while it reads.
pub record Passed : Type 0 where
  pub buf : List ℕ
  pub after : State
  pub termios_reading : Termios
  pub blocked_reading : ℕ → Bool

-- `opens` tells whether the terminal can be opened, `sets` whether `tcsetattr` changes it; what has been
-- typed before a change is then discarded. `typed` comes after the first change, `buf` is the static buffer.
unfoldable pub getpass : Bool → Bool → List ℕ → List ℕ → List ℕ → State → Option Passed
unfolding read_line
getpass opens sets prompt typed buf s =
    let blocked' : ℕ → Bool = λ n. if n == sigint || n == sigtstp then true else s.blocked n in
    let t = if sets then silent s.termios else s.termios in
    let before = if sets then [] else s.pending in
    let (k, buf', rest, screen) = read_line t 0 buf (before ++ typed) (s.screen ++ prompt) in
    if opens
    then some (record {
      buf = set buf' k 0;
      after = record {
        termios = if sets then s.termios else t;
        blocked = s.blocked;
        pending = if sets then [] else rest;
        screen = screen ++ 10 ∷ [];
      };
      termios_reading = t;
      blocked_reading = blocked';
    })
    else none
