-- ===== src/Open/Request/Text.antt =====
-- What the open server and its client use of C's strings: `strtok` over white space, `%d`, `atoi`,
-- `strcmp`, and the string that a buffer holds.
use Prim.Native.Nat.{◌/◌}
use my_apue.Prelude.{
  ℕ, zero, suc, ◌+◌, ◌-◌, ◌*◌, ◌%◌, ◌^◌, Option, none, some, Bool, ◌&&◌, ◌||◌, List, [], ◌∷◌, ◌++◌,
  ltb, leb, ◌==◌, if◌then◌else◌,
}
use my_apue.Prelude.Int.{ℤ, pos, negsuc}

-- `WHITE`, " \t\n"
abbrev pub is_white : ℕ → Bool
is_white c = c == 32 || c == 9 || c == 10

-- The white space at the front, and what follows it.
abbrev pub skip_white : List ℕ → List ℕ × List ℕ
skip_white [] = ([], [])
skip_white (c ∷ cs) =
    let (skipped, rest) = skip_white cs in if is_white c then (c ∷ skipped, rest) else ([], c ∷ cs)

-- The word at the front, and what follows the delimiter after it.
abbrev pub word : List ℕ → List ℕ × List ℕ
word [] = ([], [])
word (c ∷ cs) = let (front, rest) = word cs in if is_white c then ([], cs) else (c ∷ front, rest)

abbrev pub next_word : List ℕ × List ℕ → Option (List ℕ × List ℕ × List ℕ)
next_word (skipped, []) = none
next_word (skipped, c ∷ cs) = let (front, rest) = word (c ∷ cs) in some (skipped, front, rest)

-- One call of `strtok`: the white space it skips, the word, and the string that is left.
unfoldable pub strtok : List ℕ → Option (List ℕ × List ℕ × List ℕ)
strtok cs = next_word (skip_white cs)

-- The decimal digits of `n`; `fuel` above `n` is enough.
unfoldable pub digits : ℕ → ℕ → List ℕ
digits zero n = []
digits (suc fuel) n =
    let front = digits fuel (n / 10) in
    if ltb n 10 then (48 + n) ∷ [] else front ++ (48 + n % 10) ∷ []

-- `%d`
unfoldable pub decimal : ℤ → List ℕ
unfolding digits
decimal (pos n) = digits (suc n) n
decimal (negsuc n) = 45 ∷ digits (suc (suc n)) (suc n)

abbrev pub is_digit : ℕ → Bool
is_digit c = leb 48 c && leb c 57

unfoldable pub atoi_digits : ℕ → List ℕ → ℕ
atoi_digits acc [] = acc
atoi_digits acc (c ∷ cs) =
    let later = atoi_digits (acc * 10 + (c - 48)) cs in if is_digit c then later else acc

abbrev pub negated : ℕ → ℤ
negated zero = pos 0
negated (suc n) = negsuc n

abbrev pub atoi_sign : List ℕ → ℤ
atoi_sign [] = pos 0
atoi_sign (c ∷ cs) =
    if c == 45
    then negated (atoi_digits 0 cs)
    else (if c == 43 then pos (atoi_digits 0 cs) else pos (atoi_digits 0 (c ∷ cs)))

-- `atoi` of a word, as an integer of any size; the calls of `atoi` are defined where `in_int` holds of it.
unfoldable pub atoi : List ℕ → ℤ
unfolding atoi_digits
atoi cs = atoi_sign cs

-- The values of an `int` of 32 bits.
abbrev pub in_int : ℤ → Bool
in_int (pos n) = ltb n (2 ^ 31)
in_int (negsuc n) = ltb n (2 ^ 31)
