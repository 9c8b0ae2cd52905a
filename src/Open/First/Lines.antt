-- ===== src/Open/First/Lines.antt =====
-- The lines that the client of my-src/Chapter-17/open-1 gets by `fgets`, and the requests that its server gets
-- by `read`.
use my_apue.Prelude.{
  ℕ, zero, suc, ◌+◌, ◌-◌, ◌≤◌, ◌<◌, ltb, false, ◌≡◌, refl, ap, ◌∙◌, Option, some, List, [], ◌∷◌,
  ◌++◌, ◌==◌, arith, length, length-append, flatten,
}
use mathlib.Core.List.{append_assoc}
use my_apue.Prelude.Int.{pos}
use my_apue.Open.Request.Text.{decimal, digits}
use my_apue.Open.Request.Words.{IsWord, Plain, IsWord-Plain}
use my_apue.Open.Request.{maxline}
use my_apue.Open.First.{read_pieces, read_all, csopen_request, fgets, fgets_lines}

-- The names are words, short enough for a request to come in one read.
abbrev pub Words : List (List ℕ) → Type 0
Words [] = Unit {0}
Words (name ∷ names) = IsWord name × (length name ≤ 4088) × Words names

-- What the server reads: the requests, and the end of the pipe.
abbrev pub requests : List (List ℕ) → List (Option (List ℕ))
requests [] = some [] ∷ []
requests (name ∷ names) = some (csopen_request name (pos 0)) ∷ requests names

abbrev pub input_lines : List (List ℕ) → List (List ℕ)
input_lines [] = []
input_lines (name ∷ names) = (name ++ 10 ∷ []) ∷ input_lines names

read_pieces_short :
    (fuel : ℕ) (bytes : List ℕ) → length bytes ≤ maxline → read_pieces fuel bytes ≡ some bytes ∷ []
unfolding read_pieces
read_pieces_short zero bytes h = refl
read_pieces_short (suc fuel) bytes h =
    let fits : ltb maxline (length bytes) ≡ false = ground arith in rw fits refl

request_length : (name : List ℕ) → length (csopen_request name (pos 0)) ≡ length name + 8
unfolding decimal digits
request_length name = omega (arith, length-append name ((32 ∷ decimal (pos 0)) ++ 0 ∷ []))

pub read_all-requests :
    (names : List (List ℕ)) → Words names → read_all (requests names) ≡ requests names
unfolding read_all
read_all-requests [] ws = refl
read_all-requests (name ∷ names) (w, short, ws) =
    rw
      (read_pieces_short (length (csopen_request name (pos 0))) (csopen_request name (pos 0))
        (omega (arith, request_length name)))
      (ap (λ x. some (csopen_request name (pos 0)) ∷ x) (read_all-requests names ws))

fgets_line :
    (n : ℕ) (name rest : List ℕ)
    → Plain name
    → length name < n
    → fgets n (name ++ 10 ∷ rest) ≡ (name ++ 10 ∷ [], rest)
unfolding fgets
fgets_line zero name rest p h = absurd (omega arith)
fgets_line (suc n) [] rest p h = refl
fgets_line (suc n) (c ∷ cs) rest (black, ne, p) h =
    let same : (c == 10) ≡ false = ground arith in
    rw same (ap (λ x. (c ∷ x.0, x.1)) (fgets_line n cs rest p (omega arith)))

fgets_lines-fgets :
    (fuel : ℕ) (input : List ℕ) {line rest : List ℕ}
    → 0 < length input
    → fgets (maxline - 1) input ≡ (line, rest)
    → fgets_lines (suc fuel) input ≡ line ∷ fgets_lines fuel rest
unfolding fgets_lines
fgets_lines-fgets fuel [] h e = absurd (omega arith)
fgets_lines-fgets fuel (c ∷ cs) h e = rw (fgets_lines, e) refl

no_lines : (fuel : ℕ) → fgets_lines fuel [] ≡ []
unfolding fgets_lines
no_lines zero = refl
no_lines (suc fuel) = refl

pub fgets_lines-input_lines :
    (fuel : ℕ) (names : List (List ℕ))
    → Words names
    → length (flatten (input_lines names)) ≤ fuel
    → fgets_lines fuel (flatten (input_lines names)) ≡ input_lines names
fgets_lines-input_lines fuel [] ws h = no_lines fuel
fgets_lines-input_lines zero (name ∷ names) (w, short, ws) h = absurd (
    omega (
      arith,
      h,
      length-append (name ++ 10 ∷ []) (flatten (input_lines names)),
      length-append name (10 ∷ []),
    ))
fgets_lines-input_lines (suc fuel) (name ∷ names) (w, short, ws) h =
    let rest : List ℕ = flatten (input_lines names) in
    let size = length-append (name ++ 10 ∷ []) rest in
    let size_name = length-append name (10 ∷ []) in
    fgets_lines-fgets fuel ((name ++ 10 ∷ []) ++ rest) (omega (arith, size, size_name)) (
      ap (fgets (maxline - 1)) (append_assoc name (10 ∷ []) rest)
      ∙ fgets_line (maxline - 1) name rest (IsWord-Plain name w) (omega arith))
    ∙ ap (λ x. (name ++ 10 ∷ []) ∷ x)
        (fgets_lines-input_lines fuel names ws (omega (arith, h, size, size_name)))
