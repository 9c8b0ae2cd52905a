-- ===== src/Foo/Sections.antt =====
-- What the sections of my-src/Chapter-11/11-11.c return on an object that other threads do not hold locked.
use my_apue.Prelude.{
  ℕ, suc, ◌<◌, ◌≡◌, refl, ap, Bool, true, false, some, List, length, if◌then◌else◌,
}
use my_apue.Prelude.Int.{ℤ, pos, minus_one, ◌==ℤ◌, int_max}
use my_apue.Machine.{
  Ptr, ok, fault, blocked, out_of_fuel, Run, Cmd, pure, ◌>>=◌, ◌>>◌, and_then, Returns,
}
use my_apue.Foo.Table.{Foo, Table, hash, lock, load, unlock, drop_count, foo_hold, foo_release}
use my_apue.Foo.Steps.{
  at, held, released, counted, load-at, lock_lem, unlock-at, drop_count-at, foo_hold_lem,
}
use my_apue.Foo.Inv.{IsTable}
use my_apue.Foo.Counts.{
  IsObject, Outcome, idle, lock_hash_lem, last, not_last, one_less, one_more, relock,
  release_last-Outcome,
}
use my_apue.Foo.Threads.{release_first, release_second}

module _ {b : ℕ → List Ptr} {s : Table} (t : IsTable b s) {p : Ptr} {f : Foo} where
  pub release_first-last : IsObject b s p f 0 → release_first p s ≡ ok true s
  unfolding release_first
  release_first-last o = rw (lock_lem o.ne_null s o.here (idle t o)) (
      rw (load-at o.ne_null s (held f))
        (rw (last o.count) (rw (unlock-at o.ne_null s (held f) refl) (ap (ok true) (relock t o)))))

  pub release_first-drops :
      (n : ℕ)
      → IsObject b s p f (suc n)
      → release_first p s ≡ ok false (at s p (some (released (counted f (pos (suc n))))))
  unfolding release_first
  release_first-drops n o = rw (lock_lem o.ne_null s o.here (idle t o)) (
      rw (load-at o.ne_null s (held f)) (
        rw (not_last o.count) (
          rw (drop_count-at o.ne_null s (held f) {c = pos (suc n)} (one_less o.count))
            (rw (unlock-at o.ne_null s (held (counted f (pos (suc n)))) refl) refl))))

  pub release_second-Outcome :
      (fuel n : ℕ)
      → IsObject b s p f n
      → length (b (hash f.f_id)) < fuel
      → Returns (Outcome b s p f n) (release_second fuel p s)
  unfolding release_second
  release_second-Outcome fuel n o enough = rw (lock_hash_lem s t.open_table) (
      rw (lock_lem o.ne_null (record s { hashlock = true }) o.here (idle t o))
        (release_last-Outcome t fuel n o enough))

  pub foo_hold-more :
      (n : ℕ)
      → IsObject b s p f n
      → suc n < int_max
      → foo_hold p s ≡ ok tt (at s p (some (released (counted f (pos (suc (suc n)))))))
  foo_hold-more n o small = foo_hold_lem o.ne_null s o.here (idle t o) (one_more o.count small)

-- `foo_release` is its first section, and after a count of one, what the others do and the second.
module _ (fuel : ℕ) (others : Cmd Table (Unit {0})) (p : Ptr) where
  abbrev rest : Bool → Cmd Table ℤ
  rest seen = if seen then (others >> release_second fuel p) else pure minus_one

  abbrev count_test : {A : Type 0} → (Bool → Cmd Table A) → Foo → Cmd Table A
  count_test next f =
      if f.f_count ==ℤ pos 1
      then (unlock p >> next true)
      else (drop_count p >> (unlock p >> next false))

  unlocked :
      (r : Run Table (Unit {0})) (seen : Bool)
      → and_then r (λ _. rest seen) ≡ and_then (and_then r (λ _. pure seen)) rest
  unlocked (ok _ s) seen = refl
  unlocked fault seen = refl
  unlocked blocked seen = refl
  unlocked out_of_fuel seen = refl

  dropped :
      (r : Run Table (Unit {0}))
      → and_then r (λ _. unlock p >> rest false)
        ≡ and_then (and_then r (λ _. unlock p >> pure false)) rest
  dropped (ok _ s) = unlocked (unlock p s) false
  dropped fault = refl
  dropped blocked = refl
  dropped out_of_fuel = refl

  tested :
      (one : Bool) (s : Table)
      → (if one then (unlock p >> rest true) else (drop_count p >> (unlock p >> rest false))) s
        ≡ and_then
            ((if one then (unlock p >> pure true) else (drop_count p >> (unlock p >> pure false)))
              s)
            rest
  tested true s = unlocked (unlock p s) true
  tested false s = dropped (drop_count p s)

  loaded :
      (r : Run Table Foo)
      → and_then r (count_test rest) ≡ and_then (and_then r (count_test pure)) rest
  loaded (ok f s) = tested (f.f_count ==ℤ pos 1) s
  loaded fault = refl
  loaded blocked = refl
  loaded out_of_fuel = refl

  locked :
      (r : Run Table (Unit {0}))
      → and_then r (λ _. load p >>= count_test rest)
        ≡ and_then (and_then r (λ _. load p >>= count_test pure)) rest
  locked (ok _ s) = loaded (load p s)
  locked fault = refl
  locked blocked = refl
  locked out_of_fuel = refl

  pub foo_release-sections :
      (s : Table) → foo_release fuel others p s ≡ (release_first p >>= rest) s
  unfolding foo_release release_first release_second
  foo_release-sections s = locked (lock p s)
