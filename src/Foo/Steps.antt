-- ===== src/Foo/Steps.antt =====
-- What the locked sections of my-src/Chapter-11/11-11.c do to an object that is allocated and free.
use my_apue.Prelude.{◌≡◌, refl, ◌≢◌, true, false, Option, none, some, arith, ◌==◌}
use my_apue.Prelude.Int.{ℤ, int_suc, int_pred}
use my_apue.Machine.{Ptr, null, ok, write, write_self, write-write}
use my_apue.Foo.Table.{Foo, Table, load, lock, unlock, destroy, free, foo_hold, drop_count}

-- The table with another object at `p`.
abbrev pub at : Table → Ptr → Option Foo → Table
at s p c = record s { heap = write s.heap p c }

abbrev pub held : Foo → Foo
held f = record f { f_lock = true }

abbrev pub released : Foo → Foo
released f = record f { f_lock = false }

abbrev pub counted : Foo → ℤ → Foo
counted f c = record f { f_count = c }

module _ {p : Ptr} (ne : p ≢ null) where
  pub load_lem : (s : Table) {f : Foo} → s.heap p ≡ some f → load p s ≡ ok f s
  unfolding load
  load_lem s e = let ne' : (p == null) ≡ false = ground arith in rw (ne', e)

  pub load-at : (s : Table) (f : Foo) → load p (at s p (some f)) ≡ ok f (at s p (some f))
  load-at s f = load_lem _ (write_self s.heap p (some f))

  pub lock_lem :
      (s : Table) {f : Foo}
      → s.heap p ≡ some f
      → f.f_lock ≡ false
      → lock p s ≡ ok tt (at s p (some (held f)))
  unfolding lock
  lock_lem s e idle = rw (load_lem s e, idle)

  pub unlock_lem :
      (s : Table) {f : Foo}
      → s.heap p ≡ some f
      → f.f_lock ≡ true
      → unlock p s ≡ ok tt (at s p (some (released f)))
  unfolding unlock
  unlock_lem s e own = rw (load_lem s e, own)

  pub unlock-at :
      (s : Table) (f : Foo)
      → f.f_lock ≡ true
      → unlock p (at s p (some f)) ≡ ok tt (at s p (some (released f)))
  unlock-at s f own =
      rw (unlock_lem (at s p (some f)) {f = f} (write_self s.heap p (some f)) own, write-write)

  pub destroy_lem :
      (s : Table) {f : Foo} → s.heap p ≡ some f → f.f_lock ≡ false → destroy p s ≡ ok tt s
  unfolding destroy
  destroy_lem s e own = rw (load_lem s e, own)

  pub destroy-at :
      (s : Table) (f : Foo)
      → f.f_lock ≡ false
      → destroy p (at s p (some f)) ≡ ok tt (at s p (some f))
  destroy-at s f own = destroy_lem (at s p (some f)) (write_self s.heap p (some f)) own

  pub free_lem : (s : Table) {f : Foo} → s.heap p ≡ some f → free p s ≡ ok tt (at s p none)
  unfolding free
  free_lem s e = rw (load_lem s e)

  pub free-at : (s : Table) (f : Foo) → free p (at s p (some f)) ≡ ok tt (at s p none)
  free-at s f = rw (free_lem (at s p (some f)) {f = f} (write_self s.heap p (some f)), write-write)

  pub drop_count_lem :
      (s : Table) {f : Foo} {c : ℤ}
      → s.heap p ≡ some f
      → int_pred f.f_count ≡ some c
      → drop_count p s ≡ ok tt (at s p (some (counted f c)))
  unfolding drop_count
  drop_count_lem s e dec = rw (load_lem s e, dec)

  pub drop_count-at :
      (s : Table) (f : Foo) {c : ℤ}
      → int_pred f.f_count ≡ some c
      → drop_count p (at s p (some f)) ≡ ok tt (at s p (some (counted f c)))
  drop_count-at s f {c} e = rw (
    drop_count_lem (at s p (some f)) {f = f} {c = c} (write_self s.heap p (some f)) e,
    write-write,
  )

  -- `foo_hold` of a free object adds one to its count and leaves it free.
  pub foo_hold_lem :
      (s : Table) {f : Foo} {c : ℤ}
      → s.heap p ≡ some f
      → f.f_lock ≡ false
      → int_suc f.f_count ≡ some c
      → foo_hold p s ≡ ok tt (at s p (some (released (counted f c))))
  unfolding foo_hold
  foo_hold_lem s {f} {c} e idle inc = rw (
    lock_lem s e idle,
    load-at s (held f),
    inc,
    write-write,
    unlock-at s (held (counted f c)) refl,
  )
