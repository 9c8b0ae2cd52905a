-- ===== src/Foo/Coarse.antt =====
-- `foo_release` of my-src/Chapter-11/11-12.c, where the table's lock guards the counts.
use my_apue.Prelude.{
  ℕ, zero, suc, ◌<◌, ◌≡◌, refl, ap, sym, ◌∙◌, true, false, some, List, length, arith,
}
use my_apue.Prelude.Int.{pos, ◌==ℤ◌}
use my_apue.Machine.{Ptr, pure, Returns, returns, Returns-bind, Returns-mono, write_self}
use my_apue.Foo.Table.{Foo, Table, hash, unlock_hash, foo_release, foo_release_coarse}
use my_apue.Foo.Steps.{at, counted, released, load-at, drop_count_lem, destroy_lem, free_lem}
use my_apue.Foo.Inv.{IsTable}
use my_apue.Foo.Unlink.{unlink-Unlinked}
use my_apue.Foo.Release.{Freed, Chain-at, final-Freed}
use my_apue.Foo.Counts.{
  IsObject, idle, lock_hash_lem, one_less, foo_release-raced, foo_release-drops,
}

-- The table that both versions of `foo_release` leave, with `n` references besides the one given up.
abbrev pub Left : (ℕ → List Ptr) → Table → Ptr → Foo → ℕ → Table → Type 0
Left b s p f zero s' = Freed b (hash f.f_id) p s s'
Left b s p f (suc n) s' = s' ≡ at s p (some (released (counted f (pos (suc n)))))

module _ {b : ℕ → List Ptr} {s : Table} (t : IsTable b s) {p : Ptr} {f : Foo} where
  coarse :
      (fuel n : ℕ)
      → IsObject b s p f n
      → length (b (hash f.f_id)) < fuel
      → Returns (λ _ s'. Left b s p f n s') (foo_release_coarse fuel p s)
  unfolding foo_release_coarse unlock_hash
  coarse fuel zero o enough =
      let s1 : Table = record s { hashlock = true } in
      let none_left : Foo = counted f (pos 0) in
      let now : (at s1 p (some none_left)).heap p ≡ some none_left = write_self s.heap p _ in
      rw (lock_hash_lem s t.open_table) (
        rw (drop_count_lem o.ne_null s1 {f = f} {c = pos 0} o.here (rw o.count)) (
          rw (load-at o.ne_null s1 none_left) (
            Returns-bind
              (unlink-Unlinked o.ne_null now refl fuel
                (Chain-at t o.ne_null o.here o.member none_left refl refl) o.member enough)
              λ _ s' u.
                let s'' : Table = record s' { hashlock = false } in
                rw u.same_lock (
                  rw (destroy_lem o.ne_null s'' {f = none_left} (u.kept ∙ now) (idle t o)) (
                    rw (free_lem o.ne_null s'' {f = none_left} (u.kept ∙ now))
                      (returns (final-Freed t o.ne_null o.here o.member none_left u)))))))
  coarse fuel (suc n) o enough =
      let s1 : Table = record s { hashlock = true } in
      let less : Foo = counted f (pos (suc n)) in
      let left : (pos (suc n) ==ℤ pos 0) ≡ false = ground arith in
      let same : less ≡ released less = ap (λ x. record less { f_lock = x }) (idle t o) in
      rw (lock_hash_lem s t.open_table) (
        rw (drop_count_lem o.ne_null s1 {f = f} {c = pos (suc n)} o.here (one_less o.count)) (
          rw (load-at o.ne_null s1 less) (
            rw left (
              returns (
                ap (λ x. record (at s p (some less)) { hashlock = x }) (sym t.open_table)
                ∙ ap (λ x. at s p (some x)) same)))))

  fine :
      (fuel n : ℕ)
      → IsObject b s p f n
      → length (b (hash f.f_id)) < fuel
      → Returns (λ _ s'. Left b s p f n s') (foo_release fuel (pure tt) p s)
  fine fuel zero o enough =
      Returns-mono (foo_release-raced fuel (pure tt) zero t o refl t o enough) λ _ _ out. out.1
  fine fuel (suc n) o enough =
      Returns-mono (foo_release-drops fuel (pure tt) n t o) λ _ _ out. out.1

-- In a well-formed table, with fuel enough and no other thread about, the two versions of
-- `foo_release` return and leave the same table: the object freed and out of its bucket if the
-- reference was the last, one less on its count if not.
pub releases_agree :
    {b : ℕ → List Ptr} {s : Table} {p : Ptr} {f : Foo} (fuel n : ℕ)
    → IsTable b s
    → IsObject b s p f n
    → length (b (hash f.f_id)) < fuel
    → Returns (λ _ s'. Left b s p f n s') (foo_release_coarse fuel p s)
      × Returns (λ _ s'. Left b s p f n s') (foo_release fuel (pure tt) p s)
releases_agree fuel n t o enough = (coarse t fuel n o enough, fine t fuel n o enough)
