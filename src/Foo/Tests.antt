-- ===== src/Foo/Tests.antt =====
-- Runs of the reference-counted table of my-src/Chapter-11/11-11.c, its `main` first.
use my_apue.Prelude.{ℕ, ◌≡◌, refl, ◌≢◌, true, none, some, List, [], arith}
use my_apue.Prelude.Int.{pos, minus_one}
use my_apue.Machine.{Ptr, ok, ◌>>◌, pure, Returns, returns, write, write_self}
use my_apue.Foo.Table.{
  Foo, Table, load, lock, unlock, lock_hash, unlock_hash, destroy, free, foo_alloc, foo_hold,
  find_loop, foo_find, unlink_loop, unlink, drop_count, release_last, foo_release,
  foo_release_coarse, thr_fn, junk, start, main,
}
use my_apue.Foo.Steps.{at, counted, released, foo_hold_lem}
use my_apue.Foo.Inv.{IsTable, IsTable-start, IsTable-counted}
use my_apue.Foo.Alloc.{fresh_foo, pushed, push_bucket, foo_alloc-IsTable}
use my_apue.Foo.Find.{FindsOrNot, foo_find-FindsOrNot}
use my_apue.Foo.Counts.{IsObject, InRange}
use my_apue.Foo.Unlocked.{foo_hold_around, foo_release_around}
use my_apue.Foo.Unlocked.Races.{with_count, counts_race}

main_result : Returns (λ r s. (r ≡ minus_one) × (s.fh 2 ≡ 3) × (s.fh 7 ≡ 4)) (main start)
unfolding main thr_fn write load lock unlock lock_hash unlock_hash destroy free foo_alloc foo_hold
    find_loop foo_find unlink_loop unlink drop_count release_last foo_release
main_result = returns (refl, refl, refl)

-- The table after one `foo_alloc(7)`.
abbrev one : Table
one = pushed start 5 (pos 7)

abbrev buckets : ℕ → List Ptr
buckets = push_bucket (λ _. []) (pos 7) 5

abbrev seven : Foo
seven = fresh_foo start (pos 7)

-- The same object held twice.
abbrev seven_twice : Foo
seven_twice = released (counted seven (pos 2))

abbrev two : Table
two = at one 5 (some seven_twice)

alloc_one :
    (foo_alloc 5 junk true (pos 7) start ≡ ok 5 one)
    × IsTable buckets one
    × ((q : Ptr) → 5 ≢ q → one.heap q ≡ start.heap q)
alloc_one = foo_alloc-IsTable IsTable-start 5 junk (pos 7) (omega arith) refl

one-IsTable : IsTable buckets one
one-IsTable = alloc_one.1

two-IsTable : IsTable buckets two
two-IsTable = IsTable-counted 5 (pos 2) one-IsTable (write_self start.heap 5 _)

one-IsObject : IsObject buckets one 5 seven 0
one-IsObject = record {
  ne_null = omega arith;
  here = write_self start.heap 5 _;
  member = refl;
  count = refl;
}

two-IsObject : IsObject buckets two 5 seven_twice 1
two-IsObject = record {
  ne_null = omega arith;
  here = write_self one.heap 5 _;
  member = refl;
  count = refl;
}

foo_find-FindsOrNot_example : FindsOrNot buckets one 3 (pos 7)
foo_find-FindsOrNot_example = foo_find-FindsOrNot one 3 (pos 7) one-IsTable (omega arith)

-- Another thread takes a reference in the gap.
hold_five : foo_hold 5 one ≡ ok tt two
hold_five = foo_hold_lem one-IsObject.ne_null one one-IsObject.here refl refl

one-InRange : InRange buckets one 7
unfolding write
one-InRange r f m e = (0, ground arith, omega arith)

counts_race_example :
    ((foo_hold 5 >> foo_release_coarse 3 5) two ≡ ok tt (with_count two 5 seven_twice 2))
    × (foo_hold_around (foo_release_coarse 3 5) 5 two ≡ ok tt (with_count two 5 seven_twice 3))
    × (foo_release_around 3 (foo_hold 5) 5 two ≡ ok tt (with_count two 5 seven_twice 1))
    × (foo_hold_around (pure tt) 5 two ≡ foo_hold 5 two)
    × (foo_release_around 3 (pure tt) 5 two ≡ foo_release_coarse 3 5 two)
counts_race_example = counts_race two-IsTable 3 0 two-IsObject (omega arith)

-- The threads hold two references, then three, then two: one `foo_release` more frees the object, although a
-- reference is left.
freed_early :
    Returns
      (λ _ s. s.heap 5 ≡ none)
      ((foo_release_around 3 (foo_hold 5) 5 >> foo_release_coarse 3 5) two)
unfolding write load lock unlock lock_hash unlock_hash destroy free foo_hold unlink_loop unlink
    drop_count foo_release_coarse foo_release_around
freed_early = returns refl
