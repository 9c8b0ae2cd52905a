-- ===== src/Foo/Chain.antt =====
-- The chain of a bucket of my-src/Chapter-11/11-11.c as the list of its objects' addresses.
use mathlib.Core.Path.{subst}
use mathlib.Core.Bool.{false≢true}
use my_apue.Prelude.{
  ℕ, ◌≡◌, refl, sym, ◌∙◌, ◌≢◌, Bool, true, false, ◌||◌, Option, none, some, List, [], ◌∷◌, arith,
  ◌==◌, if◌then◌else◌, ◌⊎◌, Bool-cases, inl, inr,
}
use my_apue.Prelude.Int.{ℤ, ◌==ℤ◌, ==ℤ→eq, ==ℤ_refl}
use my_apue.Machine.{Ptr, null, Memory, write}
use my_apue.Foo.Table.{Foo, hash}

abbrev pub has : Ptr → List Ptr → Bool
has a [] = false
has a (p ∷ ps) = (a == p) || has a ps

-- The list without `p`.
abbrev pub remove : Ptr → List Ptr → List Ptr
remove p [] = []
remove p (q ∷ ps) = if p == q then ps else q ∷ remove p ps

-- From `p` the `f_next` pointers lead through the distinct objects `ps` of bucket `i` to NULL.
pub data Chain (i : ℕ) (h : Memory Foo) : Ptr → List Ptr → Type 0 where
  end : {p : Ptr} → p ≡ null → Chain i h p []
  link :
      {p : Ptr} {f : Foo} {ps : List Ptr}
      → p ≢ null
      → h p ≡ some f
      → hash f.f_id ≡ i
      → has p ps ≡ false
      → Chain i h f.f_next ps
      → Chain i h p (p ∷ ps)

pub has-remove : (p q : Ptr) (ps : List Ptr) → has q ps ≡ false → has q (remove p ps) ≡ false
has-remove p q [] out = refl
has-remove p q (r ∷ ps) out = ground (arith, has-remove p q ps)

-- `g` holds an object like that of `h`: the same identifier and successor.
abbrev pub Like : Memory Foo → Memory Foo → Ptr → Type 0
Like h g q =
    (f : Foo)
    → h q ≡ some f
    → (f' : Foo) × (g q ≡ some f') × (f'.f_next ≡ f.f_next) × (f'.f_id ≡ f.f_id)

module _ {i : ℕ} {h : Memory Foo} where
  pub Chain-Like :
      {g : Memory Foo} {p : Ptr} {ps : List Ptr}
      → Chain i h p ps
      → ((q : Ptr) → has q ps ≡ true → Like h g q)
      → Chain i g p ps
  Chain-Like (end e) like = end e
  Chain-Like {g} (link {p} {f} {ps} ne e b out c) like =
      let (f', e', n, d) = like p (ground arith) f e in
      link ne e' (rw d b) out (rw n (Chain-Like c λ q m. like q (ground arith)))

  pub Chain-frame :
      {g : Memory Foo} {p : Ptr} {ps : List Ptr}
      → Chain i h p ps
      → ((q : Ptr) → has q ps ≡ true → g q ≡ h q)
      → Chain i g p ps
  Chain-frame c same = Chain-Like c λ q m f e. (f, rw (same q m) e, refl, refl)

  pub Chain-write :
      {p : Ptr} {ps : List Ptr} (a : Ptr) (x : Option Foo)
      → Chain i h p ps
      → has a ps ≡ false
      → Chain i (write h a x) p ps
  unfolding write
  Chain-write a x c out = Chain-frame c λ q m. elim (Bool-cases (a == q)) [
    | inl here ↦ let same : a ≡ q = ground arith in absurd (false≢true (sym out ∙ rw same m))
    | inr there ↦ rw there
  ]

  -- What a member of a chain is.
  pub Chain-mem :
      {p : Ptr} {ps : List Ptr} (q : Ptr)
      → Chain i h p ps
      → has q ps ≡ true
      → (q ≢ null) × (f : Foo) × (h q ≡ some f) × (hash f.f_id ≡ i)
  Chain-mem q (end e) m = cc
  Chain-mem q (link {p} {f} ne e b out c) m = elim (Bool-cases (q == p)) [
    | inl here ↦ let same : q ≡ p = ground arith in rw same (ne, f, e, b)
    | inr there ↦ Chain-mem q c (ground arith)
  ]

  pub Chain-head : {p : Ptr} {ps : List Ptr} → Chain i h p ps → p ≢ null → has p ps ≡ true
  Chain-head (end e) ne = absurd (ne e)
  Chain-head (link ne e b out c) ne' = ground arith

-- Addresses in a chain are distinct: after its removal an object is not there any more.
pub not-mem-remove :
    {i : ℕ} {h : Memory Foo} {p : Ptr} {ps : List Ptr} (q : Ptr)
    → Chain i h p ps
    → has q (remove q ps) ≡ false
not-mem-remove q (end e) = refl
not-mem-remove q (link ne e b out c) = ground (arith, not-mem-remove q c)

pub mem_of_mem-remove : (p q : Ptr) (ps : List Ptr) → has q (remove p ps) ≡ true → has q ps ≡ true
mem_of_mem-remove p q [] m = m
mem_of_mem-remove p q (r ∷ ps) m = ground (arith, mem_of_mem-remove p q ps)

-- The first object of a list that has the identifier `id`, NULL if there is none.
abbrev pub first_match : Memory Foo → ℤ → List Ptr → Ptr
first_match h id [] = null
first_match h id (p ∷ ps) = elim (h p) [
  | none ↦ first_match h id ps
  | some f ↦ if f.f_id ==ℤ id then p else first_match h id ps
]

pub first_match-cons :
    (h : Memory Foo) (id : ℤ) (p : Ptr) {f : Foo} (ps : List Ptr)
    → h p ≡ some f
    → first_match h id (p ∷ ps) ≡ (if f.f_id ==ℤ id then p else first_match h id ps)
first_match-cons h id p ps e = rw (e, first_match)

abbrev pub Matched : Memory Foo → ℤ → List Ptr → Ptr → Type 0
Matched h id ps q =
    (q ≡ null) × ((r : Ptr) (f : Foo) → has r ps ≡ true → h r ≡ some f → f.f_id ≢ id)
    ⊎ (q ≢ null) × (has q ps ≡ true) × (f : Foo) × (h q ≡ some f) × (f.f_id ≡ id)

Matched-cons :
    {h : Memory Foo} {id : ℤ} (p : Ptr) {q : Ptr} {f : Foo} (ps : List Ptr)
    → h p ≡ some f
    → (f.f_id ==ℤ id) ≡ false
    → Matched h id ps q
    → Matched h id (p ∷ ps) q
Matched-cons {id} p ps e miss (inl (z, none_there)) = inl (
  z,
  λ r f m e'. elim (Bool-cases (r == p)) [
    | inl here ↦ λ d. ground (arith, ==ℤ_refl id)
    | inr there ↦ none_there r f (ground arith) e'
  ],
)
Matched-cons p ps e miss (inr (ne, m, f, e', d)) = inr (ne, ground arith, f, e', d)

-- `first_match` tells whether the identifier is in the chain.
pub first_match-Matched :
    {i : ℕ} {h : Memory Foo} {p : Ptr} {ps : List Ptr} (id : ℤ)
    → Chain i h p ps
    → Matched h id ps (first_match h id ps)
first_match-Matched id (end e) = inl (refl, λ r f m. cc)
first_match-Matched {h} id (link {p} {f} {ps} ne e b out c) =
    let first = first_match-cons h id p ps e in
    elim (Bool-cases (f.f_id ==ℤ id)) [
      | inl hit ↦
          let at_p : first_match h id (p ∷ ps) ≡ p = first ∙ rw hit in
          subst (Matched h id (p ∷ ps)) (sym at_p) (inr (ne, ground arith, f, e, ==ℤ→eq _ _ hit))
      | inr miss ↦
          let later : first_match h id (p ∷ ps) ≡ first_match h id ps = first ∙ rw miss in
          subst (Matched h id (p ∷ ps)) (sym later)
            (Matched-cons p ps e miss (first_match-Matched id c))
    ]
