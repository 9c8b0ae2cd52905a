-- ===== src/Env/Lookup.antt =====
-- What the search in `environ` of my-src/Chapter-12/12-11.c, 12-12.c and 12-13.c finds.
use mathlib.Core.Path.{subst}
use my_apue.Prelude.{
  ℕ, suc, ◌≡◌, refl, sym, ap, ◌∙◌, ◌≢◌, Option, none, some, true, List, [], ◌∷◌, ◌++◌, arith, ◌==◌,
  length, drop, Bool-cases, inl, inr,
}
use my_apue.Env.{is_entry, scan_environ}

-- The first entry of the name has the value.
pub data Defines (name v : List ℕ) : List (List ℕ) → Type 0 where
  first : {es : List (List ℕ)} → Defines name v ((name ++ 61 ∷ v) ∷ es)
  later :
      {e : List ℕ} {es : List (List ℕ)}
      → ((w : List ℕ) → e ≢ name ++ 61 ∷ w)
      → Defines name v es
      → Defines name v (e ∷ es)

-- No entry is of the name.
pub data Undefined (name : List ℕ) : List (List ℕ) → Type 0 where
  over : Undefined name []
  other :
      {e : List ℕ} {es : List (List ℕ)}
      → ((w : List ℕ) → e ≢ name ++ 61 ∷ w)
      → Undefined name es
      → Undefined name (e ∷ es)

abbrev pub Looked : List ℕ → List (List ℕ) → Option (List ℕ) → Type 0
Looked name environ none = Undefined name environ
Looked name environ (some v) = Defines name v environ

is_entry_splits :
    (name e : List ℕ) → is_entry name e ≡ true → e ≡ name ++ 61 ∷ drop (suc (length name)) e
is_entry_splits [] [] h = cc
is_entry_splits [] (d ∷ ds) h = let p : d ≡ 61 = ground arith in ap (λ x. x ∷ ds) p
is_entry_splits (c ∷ cs) [] h = cc
is_entry_splits (c ∷ cs) (d ∷ ds) h =
    let p : c ≡ d = ground arith in
    let rest : is_entry cs ds ≡ true = ground arith in
    ap (λ x. x ∷ ds) (sym p) ∙ ap (λ xs. c ∷ xs) (is_entry_splits cs ds rest)

entry_is_entry : (name v : List ℕ) → is_entry name (name ++ 61 ∷ v) ≡ true
entry_is_entry [] v = refl
entry_is_entry (c ∷ cs) v =
    let same : (c == c) ≡ true = ground arith in rw same (entry_is_entry cs v)

skip-Looked :
    (name e : List ℕ) (es : List (List ℕ)) (r : Option (List ℕ))
    → ((w : List ℕ) → e ≢ name ++ 61 ∷ w)
    → Looked name es r
    → Looked name (e ∷ es) r
skip-Looked name e es none ne l = other ne l
skip-Looked name e es (some v) ne l = later ne l

pub scan_environ-Looked :
    (name : List ℕ) (environ : List (List ℕ)) → Looked name environ (scan_environ name environ)
unfolding scan_environ
scan_environ-Looked name [] = over
scan_environ-Looked name (e ∷ es) = elim (Bool-cases (is_entry name e)) [
  | inl here ↦
      let split = is_entry_splits name e here in
      rw here (subst (λ x. Defines name (drop (suc (length name)) e) (x ∷ es)) (sym split) first)
  | inr not_here ↦ rw not_here (
      skip-Looked name e es (scan_environ name es)
        (λ w p. let h = ap (is_entry name) p ∙ entry_is_entry name w in cc)
        (scan_environ-Looked name es))
]
