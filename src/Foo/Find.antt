-- ===== src/Foo/Find.antt =====
-- `foo_find` of my-src/Chapter-11/11-11.c: it returns the first match of the bucket, held once more.
use my_apue.Prelude.{
  ℕ, zero, suc, ◌<◌, ◌≡◌, ◌≢◌, ◌⊎◌, ap, sym, true, false, some, List, arith, ◌==◌, Bool-cases,
  Option-cases, none, inl, inr, if◌then◌else◌, length,
}
use my_apue.Prelude.Int.{ℤ, int_suc, ◌==ℤ◌}
use my_apue.Machine.{Ptr, null, ok, Cmd, pure, ◌>>◌, and_then}
use my_apue.Foo.Table.{Foo, Table, hash, lock_hash, unlock_hash, foo_hold, find_loop, foo_find}
use my_apue.Foo.Steps.{at, counted, released, load_lem, foo_hold_lem}
use my_apue.Foo.Chain.{Chain, end, link, has, first_match, first_match-cons, first_match-Matched}
use my_apue.Foo.Inv.{IsTable, hash-lt, IsTable-counted}

abbrev hold_found : Ptr → Cmd Table Ptr
hold_found q = if q == null then pure null else foo_hold q >> pure q

find_loop-first :
    (k : ℕ) {i : ℕ} {p : Ptr} {ps : List Ptr} (id : ℤ) (s : Table)
    → Chain i s.heap p ps
    → length ps < k
    → find_loop k id p s ≡ hold_found (first_match s.heap id ps) s
unfolding find_loop
find_loop-first zero id s c fuel = absurd (omega arith)
find_loop-first (suc k) id s (end e) fuel = rw e
find_loop-first (suc k) id s (link {p} {f} {ps} ne e b out c) fuel =
    let ne' : (p == null) ≡ false = ground arith in
    rw (ne', load_lem ne s e, first_match-cons s.heap id p ps e)
      (elim (Bool-cases (f.f_id ==ℤ id)) [
        | inl hit ↦ rw (hit, ne')
        | inr miss ↦ rw miss (find_loop-first k id s c (omega arith))
      ])

module _ {b : ℕ → List Ptr} {s : Table} (t : IsTable b s) (fuel : ℕ) (id : ℤ)
    (enough : length (b (hash id)) < fuel) where
  abbrev hit : Ptr
  hit = first_match s.heap id (b (hash id))

  find_runs :
      foo_find fuel id s
      ≡ and_then (hold_found hit (record s { hashlock = true })) (λ p. unlock_hash >> pure p)
  unfolding foo_find lock_hash
  find_runs = rw t.open_table (
      rw (
        find_loop-first fuel id (record s { hashlock = true }) (t.chains (hash id) (hash-lt id))
          enough))

  foo_find_none : hit ≡ null → foo_find fuel id s ≡ ok null s
  unfolding unlock_hash
  foo_find_none z =
      rw find_runs (rw z (ap (λ x. ok null (record s { hashlock = x })) (sym t.open_table)))

  foo_find-some :
      (f : Foo) {c : ℤ}
      → hit ≢ null
      → has hit (b (hash id)) ≡ true
      → s.heap hit ≡ some f
      → int_suc f.f_count ≡ some c
      → foo_find fuel id s ≡ ok hit (at s hit (some (released (counted f c))))
  unfolding unlock_hash
  foo_find-some f {c} ne m e inc =
      let ne' : (hit == null) ≡ false = ground arith in
      let idle : f.f_lock ≡ false = t.idle (hash id) hit f (hash-lt id) m e in
      rw find_runs (
        rw (ne', foo_hold_lem ne (record s { hashlock = true }) e idle inc)
          (ap (λ x. ok hit (record (at s hit (some (released (counted f c)))) { hashlock = x }))
            (sym t.open_table)))

-- What `foo_find` promises: NULL and no change if no object of the bucket has the identifier; else
-- an object with the identifier, whose count is one more, if it can be, with nothing else changed.
abbrev pub FindsOrNot : (ℕ → List Ptr) → Table → ℕ → ℤ → Type 0
FindsOrNot b s fuel id =
    ((r : Ptr) (f : Foo) → has r (b (hash id)) ≡ true → s.heap r ≡ some f → f.f_id ≢ id)
      × (foo_find fuel id s ≡ ok null s)
    ⊎ (q : Ptr) × (f : Foo) × (has q (b (hash id)) ≡ true)
      × (s.heap q ≡ some f)
      × (f.f_id ≡ id)
      × ((int_suc f.f_count ≡ none)
          ⊎ (c : ℤ) × (int_suc f.f_count ≡ some c)
            × (foo_find fuel id s ≡ ok q (at s q (some (released (counted f c)))))
            × IsTable b (at s q (some (released (counted f c)))))

-- In a well-formed table and with fuel above the length of the bucket, `foo_find` returns NULL and
-- changes nothing if no object of the bucket has the identifier. Else there is one that has it, and
-- unless its count is the largest `int`, `foo_find` returns one such object, its count one higher,
-- and the table is well-formed.
pub foo_find-FindsOrNot :
    {b : ℕ → List Ptr} (s : Table) (fuel : ℕ) (id : ℤ)
    → IsTable b s
    → length (b (hash id)) < fuel
    → FindsOrNot b s fuel id
foo_find-FindsOrNot {b} s fuel id t enough =
    elim (first_match-Matched id (t.chains (hash id) (hash-lt id))) [
      | inl (z, none_there) ↦ inl (none_there, foo_find_none t fuel id enough z)
      | inr (ne, m, f, e, d) ↦ inr (
        first_match s.heap id (b (hash id)),
        f,
        m,
        e,
        d,
        elim (Option-cases (int_suc f.f_count)) [
          | inl largest ↦ inl largest
          | inr (c, inc) ↦
              inr (c, inc, foo_find-some t fuel id enough f ne m e inc, IsTable-counted _ c t e)
        ],
      )
    ]
