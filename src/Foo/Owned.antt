-- ===== src/Foo/Owned.antt =====
-- Counts and references of the objects of my-src/Chapter-11/11-11.c, and what the locked sections do to them.
use mathlib.Core.Path.{subst}
use my_apue.Prelude.{
  ℕ, suc, ◌≡◌, ◌≢◌, refl, sym, ap, ◌∙◌, ◌⊎◌, inl, inr, none, some, true, List, [], ◌∷◌, ◌==◌, arith,
  Bool-cases, Option-cases,
}
use my_apue.Prelude.Int.{ℤ, pos}
use my_apue.Machine.{Ptr, null, write_self, write_ne}
use my_apue.Foo.Table.{Foo, Table, hash}
use my_apue.Foo.Steps.{at, released, counted}
use my_apue.Foo.Chain.{has, remove, Chain-mem}
use my_apue.Foo.Inv.{hash-lt}
use my_apue.Foo.Release.{Freed, drop_bucket}
use my_apue.Foo.Alloc.{fresh_foo, pushed, push_bucket}
use my_apue.Foo.Counts.{IsObject}

-- An address without references is free, and one with references is an object in its bucket with as many on
-- its count.
abbrev pub Counted : (ℕ → List Ptr) → Table → Ptr → ℕ → Type 0
Counted b s q r =
    ((r ≡ 0) × (s.heap q ≡ none)) ⊎ ((f : Foo) × (n : ℕ) × (r ≡ suc n) × IsObject b s q f n)

abbrev pub Owned : (ℕ → List Ptr) → Table → (Ptr → ℕ) → Type 0
Owned b s r = (q : Ptr) → Counted b s q (r q)

==_refl : (n : ℕ) → (n == n) ≡ true
==_refl n = ground arith

has-remove_other :
    (p q : Ptr) (ps : List Ptr) → p ≢ q → has q ps ≡ true → has q (remove p ps) ≡ true
has-remove_other p q [] ne m = m
has-remove_other p q (x ∷ ps) ne m = elim (Bool-cases (p == x)) [
  | inl here ↦ rw here (let same : p ≡ x = ground arith in ground arith)
  | inr there ↦ rw there (elim (Bool-cases (q == x)) [
    | inl at_q ↦ rw at_q refl
    | inr later ↦ rw later (has-remove_other p q ps ne (ground arith))
  ])
]

has-drop_bucket :
    (b : ℕ → List Ptr) (i : ℕ) (p q : Ptr) (j : ℕ)
    → p ≢ q
    → has q (b j) ≡ true
    → has q (drop_bucket b i p j) ≡ true
has-drop_bucket b i p q j ne m = elim (Bool-cases (i == j)) [
  | inl here ↦ rw here (has-remove_other p q (b j) ne m)
  | inr there ↦ rw there m
]

has-push_bucket :
    (b : ℕ → List Ptr) (id : ℤ) (p q : Ptr) (j : ℕ)
    → has q (b j) ≡ true
    → has q (push_bucket b id p j) ≡ true
has-push_bucket b id p q j m = elim (Bool-cases (hash id == j)) [
  | inl here ↦ rw here (ground arith)
  | inr there ↦ rw there m
]

has-pushed : (b : ℕ → List Ptr) (id : ℤ) (p : Ptr) → has p (push_bucket b id p (hash id)) ≡ true
has-pushed b id p =
    let same : (hash id == hash id) ≡ true = ==_refl (hash id) in
    let first : (p == p) ≡ true = ==_refl p in rw (same, first)

unowned :
    {b : ℕ → List Ptr} {s : Table} (p : Ptr) {r : ℕ} → s.heap p ≡ none → Counted b s p r → r ≡ 0
unowned p unused (inl (z, free)) = z
unowned p unused (inr (f, n, c, obj)) = let hit = obj.here in cc

module _ {b : ℕ → List Ptr} {s : Table} {r r' : Ptr → ℕ} {p : Ptr}
    (others : (q : Ptr) → p ≢ q → r' q ≡ r q) (o : Owned b s r) where
  -- By whether the address is `p`.
  at_or_else :
      {b' : ℕ → List Ptr} {s' : Table}
      → Counted b' s' p (r' p)
      → ((q : Ptr) → p ≢ q → Counted b' s' q (r q))
      → Owned b' s' r'
  at_or_else {b'} {s'} here there q = elim (Bool-cases (p == q)) [
    | inl same ↦ (let at_q : p ≡ q = ground arith in subst (λ x. Counted b' s' x (r' x)) at_q here)
    | inr differs ↦
        (let ne : p ≢ q = ground arith in subst (Counted b' s' q) (sym (others q ne)) (there q ne))
  ]

  pub Owned-counted :
      {f : Foo} {m : ℕ} (n : ℕ)
      → IsObject b s p f m
      → r' p ≡ suc n
      → Owned b (at s p (some (released (counted f (pos (suc n)))))) r'
  Owned-counted {f} n obj e =
      at_or_else
        (inr (
          released (counted f (pos (suc n))),
          n,
          e,
          record {
            ne_null = obj.ne_null;
            here = write_self s.heap p _;
            member = obj.member;
            count = refl;
          },
        ))
        (λ q ne. elim (o q) [
          | inl (z, free) ↦ inl (z, write_ne s.heap p _ ne ∙ free)
          | inr (g, k, c, obj_q) ↦ inr (
            g,
            k,
            c,
            record {
              ne_null = obj_q.ne_null;
              here = write_ne s.heap p _ ne ∙ obj_q.here;
              member = obj_q.member;
              count = obj_q.count;
            },
          )
        ])

  still :
      {i : ℕ} {s' : Table}
      → Freed b i p s s'
      → (q : Ptr) → p ≢ q
      → Counted b s q (r q)
      → Counted (drop_bucket b i p) s' q (r q)
  still {i} {s'} fr q ne (inl (z, free)) = elim (Option-cases (s'.heap q)) [
    | inl gone ↦ inl (z, gone)
    | inr (g, here) ↦ (let (g0, was, _) = fr.others q g here in cc)
  ]
  still {i} {s'} fr q ne (inr (g, n, c, obj)) =
      let m : has q (drop_bucket b i p (hash g.f_id)) ≡ true =
        has-drop_bucket b i p q (hash g.f_id) ne obj.member in
      let (_, g', here, _) = Chain-mem q (fr.table.chains (hash g.f_id) (hash-lt g.f_id)) m in
      let (g0, was, kept) = fr.others q g' here in
      let hit = obj.here in
      let same : g0 ≡ g = cc in
      let same_id : g'.f_id ≡ g.f_id =
        ap (λ (x : Foo). x.f_id) kept ∙ ap (λ (x : Foo). x.f_id) same in
      let same_count : g'.f_count ≡ g.f_count =
        ap (λ (x : Foo). x.f_count) kept ∙ ap (λ (x : Foo). x.f_count) same in
      inr (
        g',
        n,
        c,
        record {
          ne_null = obj.ne_null;
          here = here;
          member = subst (λ x. has q (drop_bucket b i p (hash x)) ≡ true) (sym same_id) m;
          count = same_count ∙ obj.count;
        },
      )

  pub Owned-Freed :
      (f : Foo) {s' : Table}
      → Freed b (hash f.f_id) p s s'
      → r' p ≡ 0
      → Owned (drop_bucket b (hash f.f_id) p) s' r'
  Owned-Freed f {s'} fr e = at_or_else (inl (e, fr.gone)) (λ q ne. still fr q ne (o q))

  pub Owned-pushed :
      (id : ℤ)
      → p ≢ null
      → s.heap p ≡ none
      → r' p ≡ suc (r p)
      → Owned (push_bucket b id p) (pushed s p id) r'
  Owned-pushed id ne_null unused e =
      let no_references : r p ≡ 0 = unowned p unused (o p) in
      at_or_else
        (inr (
          fresh_foo s id,
          0,
          e ∙ ap suc no_references,
          record {
            ne_null = ne_null;
            here = write_self s.heap p _;
            member = has-pushed b id p;
            count = refl;
          },
        ))
        (λ q ne. elim (o q) [
          | inl (z, free) ↦ inl (z, write_ne s.heap p _ ne ∙ free)
          | inr (g, k, c, obj_q) ↦ inr (
            g,
            k,
            c,
            record {
              ne_null = obj_q.ne_null;
              here = write_ne s.heap p _ ne ∙ obj_q.here;
              member = has-push_bucket b id p q (hash g.f_id) obj_q.member;
              count = obj_q.count;
            },
          )
        ])
