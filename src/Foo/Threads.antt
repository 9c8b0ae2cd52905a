-- ===== src/Foo/Threads.antt =====
-- The threads of my-src/Chapter-11/11-11.c, interleaved at the sections that they run under a lock.
mod Tests
use my_apue.Prelude.{
  ℕ, zero, suc, ◌+◌, ◌-◌, ◌<◌, ◌≡◌, ◌≢◌, none, some, Bool, true, false, ◌==◌, if◌then◌else◌,
}
use my_apue.Prelude.Int.{ℤ, pos, ◌==ℤ◌, int_max}
use my_apue.Machine.{Ptr, null, ok, Cmd, pure, ◌>>=◌, ◌>>◌}
use my_apue.Foo.Table.{
  Foo, Table, load, lock, unlock, lock_hash, drop_count, release_last, foo_alloc, foo_hold,
  foo_find, start,
}

-- The first section of `foo_release`: whether it has seen a count of one, and so goes on with the second.
unfoldable pub release_first : Ptr → Cmd Table Bool
release_first p = do
  lock p
  f ← load p
  if f.f_count ==ℤ pos 1 then (unlock p >> pure true) else (do drop_count p; unlock p; pure false)

-- The second section, under both locks.
unfoldable pub release_second : ℕ → Ptr → Cmd Table ℤ
release_second fuel p = do lock_hash; lock p; release_last fuel p

abbrev pub up : Ptr → (ℕ → ℕ) → ℕ → ℕ
up p n q = if p == q then suc (n q) else n q

abbrev pub down : Ptr → (ℕ → ℕ) → ℕ → ℕ
down p n q = if p == q then n q - 1 else n q

-- The table, the number of objects ever allocated, and for each object how many references the threads hold and
-- how many threads stand between the two sections of a `foo_release` of it.
pub record World : Type 0 where
  pub table : Table
  pub size : ℕ
  pub holds : Ptr → ℕ
  pub sees : Ptr → ℕ

-- No object has as many references as the largest `int`.
abbrev pub InRange : World → Type 0
InRange w = (p : Ptr) → w.holds p + w.sees p < int_max

-- One section of some thread. A thread calls `foo_hold` and `foo_release` only on a reference that it holds. The
-- loops have fuel for every object ever allocated.
pub data Step : World → World → Type 0 where
  finds :
      {w : World} (id : ℤ) (p : Ptr) {s : Table}
      → InRange w
      → foo_find (suc w.size) id w.table ≡ ok p s
      → p ≢ null
      → Step w (record w { table = s; holds = up p w.holds })
  misses :
      {w : World} (id : ℤ) {s : Table}
      → foo_find (suc w.size) id w.table ≡ ok null s
      → InRange w
      → Step w (record w { table = s })
  holds_more :
      {w : World} (p : Ptr) {s : Table}
      → InRange w
      → 0 < w.holds p
      → foo_hold p w.table ≡ ok tt s
      → Step w (record w { table = s; holds = up p w.holds })
  gives_up :
      {w : World} (p : Ptr) {s : Table}
      → 0 < w.holds p
      → release_first p w.table ≡ ok false s
      → Step w (record w { table = s; holds = down p w.holds })
  sees_one :
      {w : World} (p : Ptr) {s : Table}
      → 0 < w.holds p
      → release_first p w.table ≡ ok true s
      → Step w (record w { table = s; holds = down p w.holds; sees = up p w.sees })
  releases :
      {w : World} (p : Ptr) (r : ℤ) {s : Table}
      → 0 < w.sees p
      → release_second (suc w.size) p w.table ≡ ok r s
      → Step w (record w { table = s; sees = down p w.sees })
  allocs :
      {w : World} (p : Ptr) (junk : Foo) (id : ℤ) {s : Table}
      → p ≢ null
      → w.table.heap p ≡ none
      → foo_alloc p junk true id w.table ≡ ok p s
      → Step w (record w { table = s; size = suc w.size; holds = up p w.holds })

abbrev pub begin : World
begin = record { table = start; size = 0; holds = λ p. 0; sees = λ p. 0 }

pub data Reached : World → Type 0 where
  at_start : Reached begin
  after : {w w' : World} → Reached w → Step w w' → Reached w'
