-- ===== src/Open/Request/Decimal.antt =====
-- `atoi` reads what `%d` prints.
use Prim.Native.Nat.{◌/◌}
use my_apue.Prelude.{
  ℕ, zero, suc, ◌+◌, ◌-◌, ◌*◌, ◌%◌, ◌<◌, ◌≡◌, refl, ap, ◌∙◌, true, false, List, [], ◌∷◌, ◌++◌, ltb,
  ◌==◌, arith, Bool-cases, inl, inr,
}
use my_apue.Prelude.Int.{ℤ, pos, negsuc}
use my_apue.Open.Request.Text.{digits, decimal, is_digit, atoi_digits, negated, atoi_sign, atoi}
use my_apue.Open.Request.Words.{Plain, Plain-append, IsWord}

-- Digits only.
abbrev AllDigits : List ℕ → Type 0
AllDigits [] = Unit {0}
AllDigits (c ∷ cs) = (is_digit c ≡ true) × AllDigits cs

AllDigits-append : (cs ds : List ℕ) → AllDigits cs → AllDigits ds → AllDigits (cs ++ ds)
AllDigits-append [] ds a b = b
AllDigits-append (c ∷ cs) ds (h, a) b = (h, AllDigits-append cs ds a b)

atoi_digits-append :
    (acc : ℕ) (cs ds : List ℕ)
    → AllDigits cs
    → atoi_digits acc (cs ++ ds) ≡ atoi_digits (atoi_digits acc cs) ds
unfolding atoi_digits
atoi_digits-append acc [] ds a = refl
atoi_digits-append acc (c ∷ cs) ds (h, a) = rw h (atoi_digits-append (acc * 10 + (c - 48)) cs ds a)

digit-IsDigit : (n : ℕ) → n < 10 → is_digit (48 + n) ≡ true
digit-IsDigit n h = ground arith

digits-AllDigits : (fuel n : ℕ) → AllDigits (digits fuel n)
unfolding digits
digits-AllDigits zero n = tt
digits-AllDigits (suc fuel) n = elim (Bool-cases (ltb n 10)) [
  | inl small ↦ rw small (digit-IsDigit n (ground arith), tt)
  | inr large ↦ rw large (
      AllDigits-append _ _ (digits-AllDigits fuel (n / 10))
        (digit-IsDigit (n % 10) (omega arith), tt))
]

atoi_digit : (acc n : ℕ) → n < 10 → atoi_digits acc ((48 + n) ∷ []) ≡ acc * 10 + n
unfolding atoi_digits
atoi_digit acc n h = rw (digit-IsDigit n h) (omega arith)

atoi_digits-digits : (fuel n : ℕ) → n < fuel → atoi_digits 0 (digits fuel n) ≡ n
unfolding digits
atoi_digits-digits zero n h = absurd (omega arith)
atoi_digits-digits (suc fuel) n h = elim (Bool-cases (ltb n 10)) [
  | inl small ↦ rw small (atoi_digit 0 n (ground arith) ∙ omega arith)
  | inr large ↦ rw large (
      atoi_digits-append 0 (digits fuel (n / 10)) _ (digits-AllDigits fuel (n / 10))
      ∙ ap (λ a. atoi_digits a ((48 + n % 10) ∷ []))
          (atoi_digits-digits fuel (n / 10) (ground arith))
      ∙ atoi_digit (n / 10) (n % 10) (omega arith)
      ∙ omega arith)
]

atoi_sign-digits : (cs : List ℕ) → AllDigits cs → atoi_sign cs ≡ pos (atoi_digits 0 cs)
unfolding atoi_digits
atoi_sign-digits [] a = refl
atoi_sign-digits (c ∷ cs) (h, a) =
    let not_minus : (c == 45) ≡ false = ground arith in
    let not_plus : (c == 43) ≡ false = ground arith in rw not_minus (rw not_plus)

-- `atoi` gives back every `int` that `%d` prints.
pub atoi-decimal : (x : ℤ) → atoi (decimal x) ≡ x
unfolding decimal atoi
atoi-decimal (pos n) =
    atoi_sign-digits (digits (suc n) n) (digits-AllDigits (suc n) n)
    ∙ ap pos (atoi_digits-digits (suc n) n (omega arith))
atoi-decimal (negsuc n) = ap negated (atoi_digits-digits (suc (suc n)) (suc n) (omega arith))

AllDigits-Plain : (cs : List ℕ) → AllDigits cs → Plain cs
AllDigits-Plain [] a = tt
AllDigits-Plain (c ∷ cs) (h, a) = (ground arith, ground arith, AllDigits-Plain cs a)

IsWord-append : (cs : List ℕ) (c : ℕ) → Plain cs → Plain (c ∷ []) → IsWord (cs ++ c ∷ [])
IsWord-append [] c p q = q
IsWord-append (d ∷ cs) c (black, ne, p) q = (black, ne, Plain-append cs (c ∷ []) p q)

digits-IsWord : (fuel n : ℕ) → IsWord (digits (suc fuel) n)
unfolding digits
digits-IsWord fuel n = elim (Bool-cases (ltb n 10)) [
  | inl small ↦ rw small (AllDigits-Plain ((48 + n) ∷ []) (digit-IsDigit n (ground arith), tt))
  | inr large ↦ rw large (
      IsWord-append (digits fuel (n / 10)) _ (AllDigits-Plain _ (digits-AllDigits fuel (n / 10)))
        (AllDigits-Plain ((48 + n % 10) ∷ []) (digit-IsDigit (n % 10) (omega arith), tt)))
]

pub decimal-IsWord : (x : ℤ) → IsWord (decimal x)
unfolding decimal
decimal-IsWord (pos n) = digits-IsWord n n
decimal-IsWord (negsuc n) =
    (refl, omega arith, AllDigits-Plain _ (digits-AllDigits (suc (suc n)) (suc n)))
