-- ===== src/Foo/Unlocked/Races.antt =====
-- Two threads at one count, my-src/Chapter-11/11-12.c.
use my_apue.Prelude.{ℕ, suc, ◌<◌, ◌≡◌, refl, ◌≢◌, ap, sym, true, false, some, List, arith}
use my_apue.Prelude.Int.{pos, ◌==ℤ◌, int_max}
use my_apue.Machine.{Ptr, null, ok, pure, ◌>>◌, write_self, write-write}
use my_apue.Foo.Table.{Foo, Table, unlock_hash, foo_hold, foo_release_coarse}
use my_apue.Foo.Steps.{
  at, counted, held, released, load_lem, load-at, lock_lem, unlock-at, drop_count_lem, foo_hold_lem,
}
use my_apue.Foo.Inv.{IsTable}
use my_apue.Foo.Counts.{IsObject, idle, lock_hash_lem, one_less, one_more}
use my_apue.Foo.Unlocked.{foo_hold_around, foo_release_around}

-- The table with the object free and a count of `n`.
abbrev pub with_count : Table → Ptr → Foo → ℕ → Table
with_count s p f n = at s p (some (released (counted f (pos n))))

module _ {p : Ptr} (ne : p ≢ null) (fuel : ℕ) where
  -- A release that is not the last, whoever holds the object's lock.
  release-drops :
      (s : Table) (g : Foo) (n : ℕ)
      → s.hashlock ≡ false
      → s.heap p ≡ some g
      → g.f_count ≡ pos (suc (suc n))
      → foo_release_coarse fuel p s ≡ ok tt (at s p (some (counted g (pos (suc n)))))
  unfolding foo_release_coarse unlock_hash
  release-drops s g n open_table here count =
      let s1 : Table = record s { hashlock = true } in
      let less : Foo = counted g (pos (suc n)) in
      let left : (pos (suc n) ==ℤ pos 0) ≡ false = ground arith in
      rw (lock_hash_lem s open_table) (
        rw (drop_count_lem ne s1 {f = g} {c = pos (suc n)} here (one_less count)) (
          rw (load-at ne s1 less) (
            rw left
              (ap (λ x. ok tt (record (at s p (some less)) { hashlock = x })) (sym open_table)))))

module _ {b : ℕ → List Ptr} {s : Table} (t : IsTable b s) {p : Ptr} {f : Foo} (fuel n : ℕ)
    (o : IsObject b s p f (suc n)) (small : suc (suc n) < int_max) where
  in_turn : (foo_hold p >> foo_release_coarse fuel p) s ≡ ok tt (with_count s p f (suc (suc n)))
  in_turn =
      let more : Foo = released (counted f (pos (suc (suc (suc n))))) in
      rw
        (foo_hold_lem o.ne_null s {c = pos (suc (suc (suc n)))} o.here (idle t o)
          (one_more o.count small))
        (rw
          (release-drops o.ne_null fuel (at s p (some more)) more (suc n) t.open_table
            (write_self s.heap p (some more)) refl)
          (rw write-write refl))

  release_inside :
      foo_hold_around (foo_release_coarse fuel p) p s ≡ ok tt (with_count s p f (suc (suc (suc n))))
  unfolding foo_hold_around
  release_inside =
      let less : Foo = counted (held f) (pos (suc n)) in
      rw (lock_lem o.ne_null s o.here (idle t o)) (
        rw (load-at o.ne_null s (held f)) (
          rw (one_more o.count small) (
            rw
              (release-drops o.ne_null fuel (at s p (some (held f))) (held f) n t.open_table
                (write_self s.heap p (some (held f))) o.count)
              (rw write-write (
                rw (load-at o.ne_null s less) (
                  rw write-write (
                    rw (unlock-at o.ne_null s (counted (held f) (pos (suc (suc (suc n))))) refl)
                      refl)))))))

  hold_inside : foo_release_around fuel (foo_hold p) p s ≡ ok tt (with_count s p f (suc n))
  unfolding foo_release_around unlock_hash
  hold_inside =
      let s1 : Table = record s { hashlock = true } in
      let more : Foo = released (counted f (pos (suc (suc (suc n))))) in
      let less : Foo = released (counted f (pos (suc n))) in
      let left : (pos (suc n) ==ℤ pos 0) ≡ false = ground arith in
      rw (lock_hash_lem s t.open_table) (
        rw (load_lem o.ne_null s1 {f = f} o.here) (
          rw (one_less o.count) (
            rw
              (foo_hold_lem o.ne_null s1 {f = f} {c = pos (suc (suc (suc n)))} o.here (idle t o)
                (one_more o.count small))
              (rw (load-at o.ne_null s1 more) (
                rw write-write (
                  rw left (
                    ap (λ x. ok tt (record (at s p (some less)) { hashlock = x }))
                      (sym t.open_table))))))))

  hold_alone : foo_hold_around (pure tt) p s ≡ foo_hold p s
  unfolding foo_hold_around foo_hold
  hold_alone = rw (lock_lem o.ne_null s o.here (idle t o)) (
      rw (load-at o.ne_null s (held f))
        (rw (one_more o.count small) (rw (load-at o.ne_null s (held f)) refl)))

  release_alone : foo_release_around fuel (pure tt) p s ≡ foo_release_coarse fuel p s
  unfolding foo_release_around unlock_hash
  release_alone =
      let s1 : Table = record s { hashlock = true } in
      let left : (pos (suc n) ==ℤ pos 0) ≡ false = ground arith in
      rw (release-drops o.ne_null fuel s f n t.open_table o.here o.count) (
        rw (lock_hash_lem s t.open_table) (
          rw (load_lem o.ne_null s1 {f = f} o.here) (
            rw (one_less o.count) (
              rw (load_lem o.ne_null s1 {f = f} o.here) (
                rw left (
                  ap
                    (λ x. ok tt (record (at s p (some (counted f (pos (suc n))))) { hashlock = x }))
                    (sym t.open_table)))))))

  -- In a well-formed table, for an object with two references or more, and a count that can still grow,
  -- `foo_hold` and `foo_release` of 11-12.c in turn leave the count as it was; but a `foo_release` between
  -- the reading and the writing of the count in `foo_hold` is lost, and leaves it one too high, and a
  -- `foo_hold` there in `foo_release` is lost, and leaves it one too low. With nothing between, the two are
  -- `foo_hold` and `foo_release`.
  pub counts_race :
      ((foo_hold p >> foo_release_coarse fuel p) s ≡ ok tt (with_count s p f (suc (suc n))))
      × (foo_hold_around (foo_release_coarse fuel p) p s
          ≡ ok tt (with_count s p f (suc (suc (suc n)))))
      × (foo_release_around fuel (foo_hold p) p s ≡ ok tt (with_count s p f (suc n)))
      × (foo_hold_around (pure tt) p s ≡ foo_hold p s)
      × (foo_release_around fuel (pure tt) p s ≡ foo_release_coarse fuel p s)
  counts_race = (in_turn, release_inside, hold_inside, hold_alone, release_alone)
