-- ===== src/Open/Request/Words.antt =====
-- `strtok` on the words of a request, and the string in a buffer.
use mathlib.Core.List.{append-nil, append_assoc}
use my_apue.Prelude.Bytes.{c_string}
use my_apue.Prelude.{ℕ, ◌≡◌, refl, ap, ◌∙◌, ◌≢◌, some, false, List, [], ◌∷◌, ◌++◌, ◌==◌, arith}
use my_apue.Open.Request.Text.{is_white, word, strtok}

-- A word of a string: no white space and no null byte in it.
abbrev pub Plain : List ℕ → Type 0
Plain [] = Unit {0}
Plain (c ∷ cs) = (is_white c ≡ false) × (c ≢ 0) × Plain cs

word-append : (cs rest : List ℕ) → Plain cs → word (cs ++ 32 ∷ rest) ≡ (cs, rest)
word-append [] rest p = refl
word-append (c ∷ cs) rest (black, ne, p) = rw black (rw (word-append cs rest p))

word_all : (cs : List ℕ) → Plain cs → word cs ≡ (cs, [])
word_all [] p = refl
word_all (c ∷ cs) (black, ne, p) = rw black (rw (word_all cs p))

pub strtok_word :
    (c : ℕ) (cs rest : List ℕ)
    → Plain (c ∷ cs)
    → strtok ((c ∷ cs) ++ 32 ∷ rest) ≡ some ([], c ∷ cs, rest)
unfolding strtok
strtok_word c cs rest (black, ne, p) = rw black (rw black (rw (word-append cs rest p)))

pub strtok_last : (c : ℕ) (cs : List ℕ) → Plain (c ∷ cs) → strtok (c ∷ cs) ≡ some ([], c ∷ cs, [])
unfolding strtok
strtok_last c cs (black, ne, p) = rw black (rw black (rw (word_all cs p)))

pub Plain-append : (cs ds : List ℕ) → Plain cs → Plain ds → Plain (cs ++ ds)
Plain-append [] ds p q = q
Plain-append (c ∷ cs) ds (black, ne, p) q = (black, ne, Plain-append cs ds p q)

-- A word that is there.
abbrev pub IsWord : List ℕ → Type 0
IsWord [] = ⊥
IsWord (c ∷ cs) = Plain (c ∷ cs)

pub strtok-append : (w rest : List ℕ) → IsWord w → strtok (w ++ 32 ∷ rest) ≡ some ([], w, rest)
strtok-append [] rest h = absurd h
strtok-append (c ∷ cs) rest h = strtok_word c cs rest h

pub strtok_alone : (w : List ℕ) → IsWord w → strtok w ≡ some ([], w, [])
strtok_alone [] h = absurd h
strtok_alone (c ∷ cs) h = strtok_last c cs h

pub IsWord-Plain : (w : List ℕ) → IsWord w → Plain w
IsWord-Plain [] h = absurd h
IsWord-Plain (c ∷ cs) h = h

c_string-append : (cs rest : List ℕ) → Plain cs → c_string (cs ++ rest) ≡ cs ++ c_string rest
unfolding c_string
c_string-append [] rest p = refl
c_string-append (c ∷ cs) rest (black, ne, p) =
    let not_null : (c == 0) ≡ false = ground arith in
    rw not_null (ap (λ x. c ∷ x) (c_string-append cs rest p))

-- Three words with a blank between them, and the null byte after the last.
pub c_string_request :
    (a b c : List ℕ)
    → Plain a
    → Plain b
    → Plain c
    → c_string ((a ++ 32 ∷ []) ++ (b ++ ((32 ∷ c) ++ 0 ∷ []))) ≡ a ++ (32 ∷ (b ++ (32 ∷ c)))
unfolding c_string
c_string_request a b c pa pb pc =
    ap c_string (append_assoc a (32 ∷ []) (b ++ ((32 ∷ c) ++ 0 ∷ [])))
    ∙ c_string-append a _ pa
    ∙ ap (λ x. a ++ (32 ∷ x))
        (c_string-append b _ pb ∙ ap (λ x. b ++ (32 ∷ x)) (c_string-append c _ pc ∙ append-nil c))
