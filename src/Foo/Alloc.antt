-- ===== src/Foo/Alloc.antt =====
-- `foo_alloc` of my-src/Chapter-11/11-11.c: the new object at the head of its bucket, or no change.
use mathlib.Core.Path.{subst}
use my_apue.Prelude.{
  ℕ, ◌<◌, ◌≡◌, refl, ◌≢◌, sym, true, false, some, none, List, ◌∷◌, arith, ◌==◌, Bool, Bool-cases,
  inl, inr, if◌then◌else◌,
}
use my_apue.Prelude.Int.{ℤ, pos}
use my_apue.Machine.{Ptr, null, ok, write, write_self, write_ne, write-write, write_same}
use my_apue.Foo.Table.{Foo, Table, hash, nhash, lock_hash, unlock_hash, foo_alloc}
use my_apue.Foo.Steps.{at, held, load-at, lock_lem, unlock-at, free-at}
use my_apue.Foo.Chain.{Chain, link, has, Chain-write, Chain-mem}
use my_apue.Foo.Inv.{IsTable}

-- The object that `foo_alloc` links in, and the table with it at the head of its bucket.
abbrev pub fresh_foo : Table → ℤ → Foo
fresh_foo s id = record { f_count = pos 1; f_lock = false; f_id = id; f_next = s.fh (hash id) }

abbrev pub pushed : Table → Ptr → ℤ → Table
pushed s p id = record s {
  heap = write s.heap p (some (fresh_foo s id));
  fh = λ i. if hash id == i then p else s.fh i;
}

abbrev pub push_bucket : (ℕ → List Ptr) → ℤ → Ptr → ℕ → List Ptr
push_bucket b id p i = if hash id == i then p ∷ b i else b i

module _ {b : ℕ → List Ptr} {s : Table} (t : IsTable b s) (p : Ptr) (junk : Foo) (id : ℤ)
    (ne : p ≢ null) (unused : s.heap p ≡ none) where
  foo_alloc_runs : foo_alloc p junk true id s ≡ ok p (pushed s p id)
  unfolding foo_alloc lock_hash unlock_hash
  foo_alloc_runs =
      let ne' : (p == null) ≡ false = ground arith in
      let f1 : Foo = record junk { f_count = pos 1; f_id = id } in
      let f2 : Foo = record f1 { f_lock = false } in
      let s1 : Table = record s { hashlock = true } in
      let s2 : Table = record s { hashlock = true; fh = λ i. if hash id == i then p else s.fh i } in
      let s3 : Table = record s2 { hashlock = false } in
      let f3 : Foo = fresh_foo s id in
      rw (ne', load-at ne s f1, write-write, t.open_table, load-at ne s1 f2, write-write)
        (rw (lock_lem ne (at s2 p (some f3)) (write_self s.heap p _) refl, write-write)
          (rw (unlock-at ne s3 (held f3) refl)))

  -- A free address is in no chain, so a write there leaves the chains.
  unused_not_mem : (i : ℕ) → i < nhash → has p (b i) ≡ false
  unused_not_mem i h = elim (Bool-cases (has p (b i))) [
    | inl m ↦ let (_, f, e, _) = Chain-mem p (t.chains i h) m in cc
    | inr out ↦ out
  ]

  old-Chain : (i : ℕ) → i < nhash → Chain i (pushed s p id).heap (s.fh i) (b i)
  old-Chain i h = Chain-write p _ (t.chains i h) (unused_not_mem i h)

  pushed_idle :
      (i : ℕ) (q : Ptr) (f : Foo)
      → i < nhash
      → has q (push_bucket b id p i) ≡ true
      → (pushed s p id).heap q ≡ some f
      → f.f_lock ≡ false
  unfolding write
  pushed_idle i q f h m e = ground (arith, t.idle i q f h)

  pushed-IsTable : IsTable (push_bucket b id p) (pushed s p id)
  pushed-IsTable = record {
    chains = λ i h. elim (Bool-cases (hash id == i)) [
      | inl here ↦
          let same : hash id ≡ i = ground arith in
          rw here (
            link ne (write_self s.heap p _) same (unused_not_mem i h)
              (subst (λ j. Chain i (pushed s p id).heap (s.fh j) (b i)) (sym same) (old-Chain i h)))
      | inr there ↦ rw there (old-Chain i h)
    ];
    idle = pushed_idle;
    open_table = t.open_table;
  }

  -- In a well-formed table, `foo_alloc` with memory and a mutex to be had puts a new object, of
  -- count one and unlocked, at the head of the bucket of its identifier; every other object stays
  -- as it is.
  pub foo_alloc-IsTable :
      (foo_alloc p junk true id s ≡ ok p (pushed s p id))
      × IsTable (push_bucket b id p) (pushed s p id)
      × ((q : Ptr) → p ≢ q → (pushed s p id).heap q ≡ s.heap q)
  foo_alloc-IsTable = (foo_alloc_runs, pushed-IsTable, λ q d. write_ne s.heap p _ d)

  -- Without a mutex the memory is given back, and the table is as before.
  pub foo_alloc_no_mutex : foo_alloc p junk false id s ≡ ok null s
  unfolding foo_alloc
  foo_alloc_no_mutex =
      let ne' : (p == null) ≡ false = ground arith in
      rw (
        ne',
        free-at ne s (record junk { f_count = pos 1; f_id = id }),
        ← unused,
        write_same s.heap p,
      )

-- When `malloc` fails, `foo_alloc` returns NULL and changes nothing.
pub foo_alloc-null :
    (junk : Foo) (init_ok : Bool) (id : ℤ) (s : Table)
    → foo_alloc null junk init_ok id s ≡ ok null s
unfolding foo_alloc
foo_alloc-null junk init_ok id s = refl
