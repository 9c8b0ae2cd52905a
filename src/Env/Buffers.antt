-- ===== src/Env/Buffers.antt =====
-- What `strncpy` and `strcpy` leave in the buffers of my-src/Chapter-12/12-11.c, 12-12.c and 12-13.c.
use my_apue.Prelude.{
  ℕ, zero, suc, ◌≡◌, ◌≤◌, ◌<◌, refl, sym, ap, ◌∙◌, ◌≢◌, true, false, List, [], ◌∷◌, ◌++◌, arith,
  ◌==◌, length, drop, take, ltb, Bool-cases, inl, inr,
}
use my_apue.Prelude.Bytes.{byte_at, c_string}
use my_apue.Env.{strncpy, strcpy}

-- A string has no null byte.
abbrev pub Plain : List ℕ → Type 0
Plain [] = Unit {0}
Plain (c ∷ cs) = (c ≢ 0) × Plain cs

pub length-strncpy : (n : ℕ) (v buf : List ℕ) → length (strncpy n v buf) ≡ length buf
unfolding strncpy
length-strncpy zero v buf = refl
length-strncpy (suc n) v [] = refl
length-strncpy (suc n) [] (b ∷ bs) = ap suc (length-strncpy n [] bs)
length-strncpy (suc n) (c ∷ cs) (b ∷ bs) = ap suc (length-strncpy n cs bs)

-- The byte behind those that are written stays.
pub byte_at-strncpy : (n : ℕ) (v buf : List ℕ) → byte_at (strncpy n v buf) n ≡ byte_at buf n
unfolding strncpy
byte_at-strncpy zero v buf = refl
byte_at-strncpy (suc n) v [] = refl
byte_at-strncpy (suc n) [] (b ∷ bs) = byte_at-strncpy n [] bs
byte_at-strncpy (suc n) (c ∷ cs) (b ∷ bs) = byte_at-strncpy n cs bs

c_string_plain : (c : ℕ) (cs : List ℕ) → c ≢ 0 → c_string (c ∷ cs) ≡ c ∷ c_string cs
unfolding c_string
c_string_plain c cs ne = let other : (c == 0) ≡ false = ground arith in rw other refl

-- What `strncpy` writes, with what is behind it when no null byte was written.
pub c_string-strncpy_short :
    (n : ℕ) (v buf : List ℕ)
    → Plain v
    → length v < n
    → n ≤ length buf
    → c_string (strncpy n v buf) ≡ v
unfolding strncpy c_string
c_string-strncpy_short zero v buf p h k = absurd (omega arith)
c_string-strncpy_short (suc n) v [] p h k = absurd (omega arith)
c_string-strncpy_short (suc n) [] (b ∷ bs) p h k = refl
c_string-strncpy_short (suc n) (c ∷ cs) (b ∷ bs) (ne, p) h k =
    c_string_plain c (strncpy n cs bs) ne
    ∙ ap (λ xs. c ∷ xs) (c_string-strncpy_short n cs bs p (omega arith) (omega arith))

pub c_string-strncpy_long :
    (n : ℕ) (v buf : List ℕ)
    → Plain v
    → n ≤ length v
    → n ≤ length buf
    → c_string (strncpy n v buf) ≡ take n v ++ c_string (drop n buf)
unfolding strncpy
c_string-strncpy_long zero v buf p h k = refl
c_string-strncpy_long (suc n) v [] p h k = absurd (omega arith)
c_string-strncpy_long (suc n) [] (b ∷ bs) p h k = absurd (omega arith)
c_string-strncpy_long (suc n) (c ∷ cs) (b ∷ bs) (ne, p) h k =
    c_string_plain c (strncpy n cs bs) ne
    ∙ ap (λ xs. c ∷ xs) (c_string-strncpy_long n cs bs p (omega arith) (omega arith))

pub c_string-strcpy :
    (v buf : List ℕ) → Plain v → length v < length buf → c_string (strcpy v buf) ≡ v
unfolding strcpy c_string
c_string-strcpy v [] p h = absurd (omega arith)
c_string-strcpy [] (b ∷ bs) p h = refl
c_string-strcpy (c ∷ cs) (b ∷ bs) (ne, p) h =
    c_string_plain c (strcpy cs bs) ne ∙ ap (λ xs. c ∷ xs) (c_string-strcpy cs bs p (omega arith))

pub length-strcpy : (v buf : List ℕ) → length (strcpy v buf) ≡ length buf
unfolding strcpy
length-strcpy v [] = refl
length-strcpy [] (b ∷ bs) = refl
length-strcpy (c ∷ cs) (b ∷ bs) = ap suc (length-strcpy cs bs)

c_string-end : (n : ℕ) (buf : List ℕ) → byte_at buf n ≡ 0 → c_string (drop n buf) ≡ []
unfolding c_string
c_string-end zero [] e = refl
c_string-end zero (b ∷ bs) e = let null : (b == 0) ≡ true = ground arith in rw null refl
c_string-end (suc n) [] e = refl
c_string-end (suc n) (b ∷ bs) e = c_string-end n bs e

take_all : (n : ℕ) (v : List ℕ) → length v ≤ n → take n v ≡ v
take_all zero [] h = refl
take_all zero (c ∷ cs) h = absurd (omega arith)
take_all (suc n) [] h = refl
take_all (suc n) (c ∷ cs) h = ap (λ xs. c ∷ xs) (take_all n cs (omega arith))

append_nil : (v : List ℕ) → v ++ [] ≡ v
append_nil [] = refl
append_nil (c ∷ cs) = ap (λ xs. c ∷ xs) (append_nil cs)

-- In a buffer with a null byte behind what is written there is always a string.
pub c_string-strncpy :
    (n : ℕ) (v buf : List ℕ)
    → Plain v
    → byte_at buf n ≡ 0
    → n ≤ length buf
    → c_string (strncpy n v buf) ≡ take n v
c_string-strncpy n v buf p e k = elim (Bool-cases (ltb (length v) n)) [
  | inl short ↦
      c_string-strncpy_short n v buf p (ground arith) k ∙ sym (take_all n v (ground arith))
  | inr long ↦
      c_string-strncpy_long n v buf p (ground arith) k
      ∙ (ap (λ xs. take n v ++ xs) (c_string-end n buf e) ∙ append_nil (take n v))
]
