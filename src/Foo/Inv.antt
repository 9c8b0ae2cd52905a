-- ===== src/Foo/Inv.antt =====
-- The invariant of the table of my-src/Chapter-11/11-11.c while no thread is inside an operation.
use my_apue.Prelude.{
  ℕ, ◌<◌, ◌≡◌, refl, ◌≢◌, sym, ap, ◌∙◌, true, false, some, List, [], arith, ◌==◌, Bool-cases, inl,
  inr,
}
use my_apue.Prelude.Int.{ℤ, pos, negsuc}
use my_apue.Machine.{Ptr, write}
use my_apue.Foo.Table.{Foo, Table, hash, nhash, start}
use my_apue.Foo.Steps.{at, counted, released}
use my_apue.Foo.Chain.{Chain, end, has, Chain-Like, Like, Chain-mem}

-- `b i` lists the objects of bucket `i`; they are all unlocked, and so is the table.
pub record IsTable (b : ℕ → List Ptr) (s : Table) : Type 0 where
  pub chains : (i : ℕ) → i < nhash → Chain i s.heap (s.fh i) (b i)
  pub idle :
      (i : ℕ) (q : Ptr) (f : Foo)
      → i < nhash
      → has q (b i) ≡ true
      → s.heap q ≡ some f
      → f.f_lock ≡ false
  pub open_table : s.hashlock ≡ false

pub hash-lt : (id : ℤ) → hash id < nhash
hash-lt (pos n) = omega arith
hash-lt (negsuc n) = omega arith

pub IsTable-start : IsTable (λ _. []) start
IsTable-start = record { chains = λ i h. end refl; idle = λ i q f h m. cc; open_table = refl }

-- An object with the same identifier and successor at the same place.
pub Like-at :
    (s : Table) (p : Ptr) {f : Foo} (f' : Foo)
    → s.heap p ≡ some f
    → f'.f_next ≡ f.f_next
    → f'.f_id ≡ f.f_id
    → (q : Ptr) → Like s.heap (at s p (some f')).heap q
unfolding write
Like-at s p {f} f' e nx d q g e' = elim (Bool-cases (p == q)) [
  | inl here ↦
      let same : p ≡ q = ground arith in
      let g_is_f : g ≡ f = ground arith in (f', ground arith, rw g_is_f nx, rw g_is_f d)
  | inr there ↦ (g, ground arith, refl, refl)
]

pub IsTable-counted :
    {b : ℕ → List Ptr} {s : Table} (p : Ptr) {f : Foo} (c : ℤ)
    → IsTable b s
    → s.heap p ≡ some f
    → IsTable b (at s p (some (released (counted f c))))
unfolding write
IsTable-counted {s} p c t e = record {
  chains = λ i h. Chain-Like (t.chains i h) λ q m. Like-at s p _ e refl refl q;
  idle = λ i q f h m e'. ground (arith, t.idle i q f h m);
  open_table = t.open_table;
}

-- No object is in two buckets.
pub IsTable-apart :
    {b : ℕ → List Ptr} {s : Table} (i j : ℕ) (q : Ptr)
    → IsTable b s
    → i < nhash
    → j < nhash
    → i ≢ j
    → has q (b i) ≡ true
    → has q (b j) ≡ false
IsTable-apart {b} i j q t hi hj d m = elim (Bool-cases (has q (b j))) [
  | inl m' ↦
      let (_, f, e, at_i) = Chain-mem q (t.chains _ hi) m in
      let (_, g, e', at_j) = Chain-mem q (t.chains _ hj) m' in
      let same : f ≡ g = ground arith in
      absurd (d (sym at_i ∙ ap (λ (x : Foo). hash x.f_id) same ∙ at_j))
  | inr out ↦ out
]
