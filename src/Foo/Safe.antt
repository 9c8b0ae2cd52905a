-- ===== src/Foo/Safe.antt =====
-- The threads of my-src/Chapter-11/11-11.c, in whatever order their sections come: no section goes wrong.
use my_apue.Prelude.{ℕ, zero, suc, ◌≡◌, sym, ap, ◌∙◌, ◌⊎◌, inl, inr, none, some, true, false, arith}
use my_apue.Prelude.Int.{ℤ, pos}
use my_apue.Machine.{Ptr, null, ok, Run, Returns-run}
use my_apue.Foo.Table.{Foo, Table, hash, foo_hold, foo_find}
use my_apue.Foo.Counts.{IsObject}
use my_apue.Foo.Owned.{Counted}
use my_apue.Foo.Sections.{
  release_first-last, release_first-drops, release_second-Outcome, foo_hold-more,
}
use my_apue.Foo.Threads.{release_first, release_second, World, Reached, InRange}
use my_apue.Foo.Interleaved.{refs, Sound}
use my_apue.Foo.Kept.{enough, find_runs, Reached-Sound}

-- A section returns.
abbrev pub Goes : {A : Type 0} → Run Table A → Type 0
Goes {A} r = (a : A) × (s : Table) × (r ≡ ok a s)

-- The count of an object is the number of its references, and what has none is free; and the sections that the
-- threads are at return: `foo_hold` and the first of `foo_release` on a reference that is held, the second on one
-- of which the first has seen a count of one, and `foo_find`.
abbrev pub Safe : World → Ptr → ℤ → Type 0
Safe w p id =
    (((refs w p ≡ 0) × (w.table.heap p ≡ none))
      ⊎ ((f : Foo) × (w.table.heap p ≡ some f) × (f.f_count ≡ pos (refs w p))))
    × ((w.holds p ≡ 0) ⊎ (Goes (foo_hold p w.table) × Goes (release_first p w.table)))
    × ((w.sees p ≡ 0) ⊎ Goes (release_second (suc w.size) p w.table))
    × Goes (foo_find (suc w.size) id w.table)

first-Goes :
    {w : World} (i : Sound w) (p : Ptr) (f : Foo) (n : ℕ)
    → IsObject i.buckets w.table p f n
    → Goes (release_first p w.table)
first-Goes {w} i p f zero o = (true, w.table, release_first-last i.table o)
first-Goes i p f (suc n) o = (false, _, release_first-drops i.table n o)

object-Safe :
    {w : World} (i : Sound w) (p : Ptr)
    → InRange w
    → Counted i.buckets w.table p (refs w p)
    → (((refs w p ≡ 0) × (w.table.heap p ≡ none))
        ⊎ ((f : Foo) × (w.table.heap p ≡ some f) × (f.f_count ≡ pos (refs w p))))
      × ((w.holds p ≡ 0) ⊎ (Goes (foo_hold p w.table) × Goes (release_first p w.table)))
      × ((w.sees p ≡ 0) ⊎ Goes (release_second (suc w.size) p w.table))
object-Safe i p range (inl (z, free)) =
    (inl (z, free), inl (omega (arith, z)), inl (omega (arith, z)))
object-Safe {w} i p range (inr (f, n, c, o)) =
    let small = range p in
    let (r, s, run, _) =
      Returns-run (release_second-Outcome i.table (suc w.size) n o (enough i (hash f.f_id))) in
    (
      inr (f, o.here, o.count ∙ ap pos (sym c)),
      inr ((tt, _, foo_hold-more i.table n o (omega (arith, small, c))), first-Goes i p f n o),
      inr (r, s, run),
    )

find-Goes : {w : World} (i : Sound w) (id : ℤ) → InRange w → Goes (foo_find (suc w.size) id w.table)
find-Goes {w} i id range = elim (find_runs i id range) [
  | inl run ↦ (null, w.table, run)
  | inr (q, f, n, c, o, run) ↦ (q, _, run)
]

-- In whatever order the threads come to their sections, from an empty table on and while no object has as many
-- references as the largest `int`: the count of every object is the number of references that the threads have
-- to it, and an object without references has been freed; and every section that a thread is at, `foo_find`,
-- `foo_hold`, or the first or second of `foo_release`, returns: none uses freed memory or waits for itself.
pub reached-Safe : (w : World) (p : Ptr) (id : ℤ) → Reached w → InRange w → Safe w p id
reached-Safe w p id r range =
    let i = Reached-Sound r in
    let (counts, held, seen) = object-Safe i p range (i.owned p) in
    (counts, held, seen, find-Goes i id range)
