-- ===== src/Foo/Threads/Tests.antt =====
-- Two threads of my-src/Chapter-11/11-11.c and one object.
use my_apue.Prelude.{◌≡◌, ◌≢◌, refl, true, false, arith}
use my_apue.Prelude.Int.{pos}
use my_apue.Machine.{null, ok, fault, blocked, out_of_fuel, Run, write}
use my_apue.Foo.Table.{Foo, Table, load, lock, unlock, start}
use my_apue.Foo.Alloc.{pushed, foo_alloc-IsTable}
use my_apue.Foo.Inv.{IsTable-start}
use my_apue.Foo.Threads.{
  release_first, World, allocs, sees_one, Reached, at_start, after, InRange, up, down,
}
use my_apue.Foo.Safe.{Safe, reached-Safe}

abbrev junk : Foo
junk = record { f_count = pos 0; f_lock = false; f_id = pos 0; f_next = null }

-- An object of identifier 7 at address 5.
abbrev one : Table
one = pushed start 5 (pos 7)

abbrev allocated : World
allocated = record { table = one; size = 1; holds = up 5 (λ p. 0); sees = λ p. 0 }

not_null : 5 ≢ null
not_null = ground arith

allocated-Reached : Reached allocated
allocated-Reached = after at_start (
    allocs 5 junk (pos 7) not_null refl
      (foo_alloc-IsTable IsTable-start 5 junk (pos 7) not_null refl).0)

abbrev table_after : {A : Type 0} → Run Table A → Table
table_after (ok a s) = s
table_after fault = start
table_after blocked = start
table_after out_of_fuel = start

-- Its thread is between the two sections of `foo_release`.
abbrev between : World
between = record {
  table = table_after (release_first 5 one);
  size = 1;
  holds = down 5 (up 5 (λ p. 0));
  sees = up 5 (λ p. 0);
}

sees_it : release_first 5 one ≡ ok true (table_after (release_first 5 one))
unfolding release_first lock load unlock write
sees_it = refl

between-Reached : Reached between
between-Reached = after allocated-Reached (sees_one 5 (omega arith) sees_it)

between-InRange : InRange between
between-InRange p = ground arith

reached-Safe_example : Safe between 5 (pos 7)
reached-Safe_example = reached-Safe between 5 (pos 7) between-Reached between-InRange
