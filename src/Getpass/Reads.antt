-- ===== src/Getpass/Reads.antt =====
-- What `getpass` of my-src/Chapter-18/18-17.c reads, and what it leaves.
use mathlib.Core.Path.{subst}
use mathlib.Core.List.{append-nil, append_assoc}
use my_apue.Prelude.{
  ℕ, zero, suc, ◌+◌, ◌≤◌, ◌≡◌, ◌≢◌, refl, sym, ap, ◌∙◌, Option, none, some, true, false, List, [],
  ◌∷◌, ◌++◌, ltb, ◌==◌, set, take, length, length-set, length-append, arith,
}
use my_apue.Prelude.Bytes.{c_string}
use my_apue.Getpass.{
  max_pass_len, Termios, State, sigint, sigtstp, silent, echoed, read_line, Passed, getpass,
}

-- A line of characters, without newlines and null bytes.
abbrev pub Line : List ℕ → Type 0
Line [] = Unit {0}
Line (c ∷ cs) = (c ≢ 10) × (c ≢ 0) × Line cs

set-append :
    (front : List ℕ) (b c : ℕ) (bs : List ℕ)
    → set (front ++ b ∷ bs) (length front) c ≡ (front ++ c ∷ []) ++ bs
set-append [] b c bs = refl
set-append (f ∷ front) b c bs = ap (λ xs. f ∷ xs) (set-append front b c bs)

c_string-Line : (front bs : List ℕ) → Line front → c_string ((front ++ 0 ∷ []) ++ bs) ≡ front
unfolding c_string
c_string-Line [] bs l = refl
c_string-Line (c ∷ cs) bs (_, ne, l) =
    let some_byte : (c == 0) ≡ false = ground arith in
    rw some_byte (ap (λ xs. c ∷ xs) (c_string-Line cs bs l))

Line-append : (cs : List ℕ) (c : ℕ) → Line cs → c ≢ 10 → c ≢ 0 → Line (cs ++ c ∷ [])
Line-append [] c l n z = (n, z, tt)
Line-append (d ∷ cs) c (n', z', l) n z = (n', z', Line-append cs c l n z)

-- The result of a loop that has stored `front` at the front of a buffer of 9 bytes and takes `text` from the line.
abbrev Reads : List ℕ → List ℕ → List ℕ → ℕ × List ℕ × List ℕ × List ℕ → Type 0
Reads text rest screen (k, buf, left, screen') =
    (c_string (set buf k 0) ≡ text) × (length buf ≡ 9) × (left ≡ rest) × (screen' ≡ screen)

module _ (t : Termios) where
  abbrev quiet : Termios
  quiet = silent t

  quiet_lem : (c : ℕ) (screen : List ℕ) → (c == 10) ≡ false → screen ++ echoed quiet c ≡ screen
  quiet_lem c screen other = rw other (append-nil screen)

  read_line-stores :
      (k : ℕ) (buf : List ℕ) (c : ℕ) (cs screen : List ℕ)
      → (c == 10) ≡ false
      → ltb k max_pass_len ≡ true
      → read_line quiet k buf (c ∷ cs) screen ≡ read_line quiet (suc k) (set buf k c) cs screen
  unfolding read_line
  read_line-stores k buf c cs screen other room =
      rw (other, room) (ap (λ xs. read_line quiet (suc k) (set buf k c) cs xs) (append-nil screen))

  read_line-drops :
      (k : ℕ) (buf : List ℕ) (c : ℕ) (cs screen : List ℕ)
      → (c == 10) ≡ false
      → ltb k max_pass_len ≡ false
      → read_line quiet k buf (c ∷ cs) screen ≡ read_line quiet k buf cs screen
  unfolding read_line
  read_line-drops k buf c cs screen other full =
      rw (other, full) (ap (λ xs. read_line quiet k buf cs xs) (append-nil screen))

  read_line-newline :
      (k : ℕ) (buf rest screen : List ℕ)
      → read_line quiet k buf (10 ∷ rest) screen ≡ (k, buf, rest, screen ++ [])
  unfolding read_line
  read_line-newline k buf rest screen = refl

  stop :
      (front back rest screen : List ℕ)
      → Line front
      → length front + length back ≡ 9
      → length front ≤ 8
      → Reads front rest screen (length front, front ++ back, rest, screen ++ [])
  stop front [] rest screen lf size low = absurd (omega arith)
  stop front (b ∷ back) rest screen lf size low = (
    subst (λ xs. c_string xs ≡ front) (sym (set-append front b 0 back))
        (c_string-Line front back lf),
    length-append front (b ∷ back) ∙ size,
    refl,
    append-nil screen,
  )

  read_line-Reads :
      (line front back rest screen : List ℕ) (m : ℕ)
      → Line line
      → Line front
      → length front + length back ≡ 9
      → length front + m ≡ 8
      → Reads
          (front ++ take m line)
          rest
          screen
          (read_line quiet (length front) (front ++ back) (line ++ 10 ∷ rest) screen)
  read_line-Reads [] front back rest screen m l lf size low =
      let none_left : front ++ take m [] ≡ front = elim m as (λ i. front ++ take i [] ≡ front) [
        | zero ↦ append-nil front
        | suc m' ↦ append-nil front
      ] in
      subst
        (λ text.
          Reads text rest screen
            (read_line quiet (length front) (front ++ back) (10 ∷ rest) screen))
        (sym none_left)
        (subst (Reads front rest screen)
          (sym (read_line-newline (length front) (front ++ back) rest screen))
          (stop front back rest screen lf size (omega arith)))
  read_line-Reads (c ∷ line) front [] rest screen m l lf size low = absurd (omega arith)
  read_line-Reads (c ∷ line) front (b ∷ back) rest screen zero (n, z, l) lf size low =
      subst (Reads (front ++ []) rest screen)
        (sym (
          read_line-drops (length front) (front ++ b ∷ back) c (line ++ 10 ∷ rest) screen
            (ground arith) (ground arith)))
        (read_line-Reads line front (b ∷ back) rest screen zero l lf size low)
  read_line-Reads (c ∷ line) front (b ∷ back) rest screen (suc m) (n, z, l) lf size low =
      let grown : length (front ++ c ∷ []) ≡ suc (length front) =
        length-append front (c ∷ []) ∙ omega arith in
      let text : (front ++ c ∷ []) ++ take m line ≡ front ++ c ∷ take m line =
        append_assoc front (c ∷ []) (take m line) in
      subst (Reads (front ++ c ∷ take m line) rest screen)
        (sym (
          read_line-stores (length front) (front ++ b ∷ back) c (line ++ 10 ∷ rest) screen
            (ground arith) (ground arith)))
        (subst
          (λ buf.
            Reads (front ++ c ∷ take m line) rest screen
              (read_line quiet (suc (length front)) buf (line ++ 10 ∷ rest) screen))
          (sym (set-append front b c back))
          (subst
            (λ k.
              Reads (front ++ c ∷ take m line) rest screen
                (read_line quiet k ((front ++ c ∷ []) ++ back) (line ++ 10 ∷ rest) screen))
            grown
            (subst
              (λ xs. Reads xs rest screen (
                read_line quiet (length (front ++ c ∷ [])) ((front ++ c ∷ []) ++ back)
                  (line ++ 10 ∷ rest) screen))
              text
              (read_line-Reads line (front ++ c ∷ []) back rest screen m l
                (Line-append front c lf n z) (omega (arith, size, length-append front (c ∷ [])))
                (omega (arith, grown))))))

-- What a call with a terminal of termios `t0` and mask `blocked0` gives, and leaves.
abbrev pub Quietly : State → List ℕ → List ℕ → Option Passed → Type 0
Quietly s prompt text none = ⊥
Quietly s prompt text (some p) =
    (c_string p.buf ≡ text)
    × (length p.buf ≡ 9)
    × (p.after.screen ≡ (s.screen ++ prompt) ++ 10 ∷ [])
    × (p.after.termios ≡ s.termios)
    × (p.after.blocked ≡ s.blocked)
    × (p.termios_reading.echo ≡ false)
    × (p.blocked_reading sigint ≡ true)
    × (p.blocked_reading sigtstp ≡ true)

-- When the terminal opens and its attributes can be set, `getpass` with a line typed after the prompt
-- gives the first 8 characters of the line, in its buffer of 9 bytes; the terminal shows the prompt and a
-- newline and nothing else. While it reads, echo is off and SIGINT and SIGTSTP are blocked; afterwards the
-- terminal's attributes and the signal mask are as before.
pub getpass-Quietly :
    (prompt line rest buf : List ℕ) (s : State)
    → Line line
    → length buf ≡ 9
    → Quietly s prompt (take max_pass_len line) (getpass true true prompt (line ++ 10 ∷ rest) buf s)
unfolding getpass
getpass-Quietly prompt line rest buf s l size =
    let (text, size', left, shown) =
      read_line-Reads s.termios line [] buf rest (s.screen ++ prompt) 8 l tt (omega (arith, size))
        (omega arith) in
    (text, length-set _ _ _ ∙ size', ap (λ xs. xs ++ 10 ∷ []) shown, refl, refl, refl, refl, refl)
