-- ===== src/Foo/Unlocked.antt =====
-- `foo_hold` and `foo_release` of my-src/Chapter-11/11-12.c with what another thread does between the reading and
-- the writing of the count. The one holds the object's lock there and the other the table's, so that neither
-- keeps the other out.
pub mod Races
use my_apue.Prelude.{ℕ, some, if◌then◌else◌}
use my_apue.Prelude.Int.{pos, int_suc, int_pred, ◌==ℤ◌}
use my_apue.Machine.{Ptr, Cmd, ◌>>=◌, ◌>>◌, defined}
use my_apue.Foo.Table.{
  Table, load, store, lock, unlock, lock_hash, unlock_hash, destroy, free, unlink,
}

unfoldable pub foo_hold_around : Cmd Table (Unit {0}) → Ptr → Cmd Table (Unit {0})
foo_hold_around others p = do
  lock p
  f ← load p
  c ← defined (int_suc f.f_count)
  others
  g ← load p
  store p (some (record g { f_count = c }))
  unlock p

unfoldable pub foo_release_around : ℕ → Cmd Table (Unit {0}) → Ptr → Cmd Table (Unit {0})
foo_release_around fuel others p = do
  lock_hash
  f ← load p
  c ← defined (int_pred f.f_count)
  others
  g ← load p
  store p (some (record g { f_count = c }))
  if c ==ℤ pos 0 then (do unlink fuel p; unlock_hash; destroy p; free p) else unlock_hash
