-- ===== src/Foo/Counts.antt =====
-- `foo_release` of my-src/Chapter-11/11-11.c and of 11-12.c, by the number of references left.
use mathlib.Core.Path.{subst}
use my_apue.Prelude.{
  ℕ, zero, suc, ◌<◌, ◌≡◌, refl, ◌≢◌, ap, sym, ◌∙◌, true, false, some, none, Option, List, arith,
  length, inl, inr,
}
use my_apue.Prelude.Int.{ℤ, pos, minus_one, int_pred, ◌==ℤ◌, int_max, int_suc}
use my_apue.Machine.{
  Ptr, null, ok, fault, Cmd, ◌>>=◌, Returns, returns, Returns-run, write_self, write-write,
  write_same,
}
use my_apue.Foo.Table.{
  Foo, Table, hash, lock_hash, lock, load, release_last, foo_release, foo_find, thr_fn,
}
use my_apue.Foo.Steps.{at, held, released, counted, load-at, lock_lem, unlock-at, drop_count-at}
use my_apue.Foo.Chain.{has, Chain-mem}
use my_apue.Foo.Inv.{IsTable, hash-lt, IsTable-counted}
use my_apue.Foo.Find.{foo_find-FindsOrNot}
use my_apue.Foo.Release.{Freed, release_last_drops, release_last_frees}

-- The outcome for an object `f` at `p` with `n` references besides the one that is given up.
abbrev pub Outcome : (ℕ → List Ptr) → Table → Ptr → Foo → ℕ → ℤ → Table → Type 0
Outcome b s p f zero r s' = (r ≡ pos 0) × Freed b (hash f.f_id) p s s'
Outcome b s p f (suc n) r s' =
    (r ≡ minus_one) × (s' ≡ at s p (some (released (counted f (pos (suc n)))))) × IsTable b s'

-- An object at `p`, in its bucket, with a count of `n + 1`.
pub record IsObject (b : ℕ → List Ptr) (s : Table) (p : Ptr) (f : Foo) (n : ℕ) : Type 0 where
  pub ne_null : p ≢ null
  pub here : s.heap p ≡ some f
  pub member : has p (b (hash f.f_id)) ≡ true
  pub count : f.f_count ≡ pos (suc n)

pub lock_hash_lem :
    (s : Table) → s.hashlock ≡ false → lock_hash s ≡ ok tt (record s { hashlock = true })
unfolding lock_hash
lock_hash_lem s e = rw e

pub last : {c : ℤ} → c ≡ pos 1 → (c ==ℤ pos 1) ≡ true
last e = ap (λ c. c ==ℤ pos 1) e

pub not_last : {c : ℤ} {n : ℕ} → c ≡ pos (suc (suc n)) → (c ==ℤ pos 1) ≡ false
not_last e = ground arith

pub one_less : {c : ℤ} {n : ℕ} → c ≡ pos (suc (suc n)) → int_pred c ≡ some (pos (suc n))
one_less e = rw e

pub one_more :
    {c : ℤ} {n : ℕ} → c ≡ pos (suc n) → suc n < int_max → int_suc c ≡ some (pos (suc (suc n)))
one_more e small = rw e (ground arith)

module _ {b : ℕ → List Ptr} {s : Table} (t : IsTable b s) {p : Ptr} {f : Foo} where
  pub idle : {n : ℕ} → IsObject b s p f n → f.f_lock ≡ false
  idle o = t.idle (hash f.f_id) p f (hash-lt f.f_id) o.member o.here

  -- Taking and giving back the object's lock is no change.
  pub relock : {n : ℕ} → IsObject b s p f n → at s p (some (released (held f))) ≡ s
  relock o =
      let same : released (held f) ≡ f = ap (λ x. record f { f_lock = x }) (sym (idle o)) in
      ap (λ x. at s p (some x)) same
      ∙ ap (λ h. record s { heap = h }) (rw (← o.here) (write_same s.heap p))

  -- With both locks held.
  pub release_last-Outcome :
      (fuel n : ℕ)
      → IsObject b s p f n
      → length (b (hash f.f_id)) < fuel
      → Returns
          (Outcome b s p f n)
          (release_last fuel p (at (record s { hashlock = true }) p (some (held f))))
  release_last-Outcome fuel zero o enough =
      release_last_frees t o.ne_null o.here o.member fuel (last o.count) enough
  release_last-Outcome fuel (suc n) o enough =
      rw
        (release_last_drops t o.ne_null o.here o.member fuel {c = pos (suc n)} (not_last o.count)
          (one_less o.count))
        (returns (refl, refl, IsTable-counted p _ t o.here))

-- In a well-formed table, while an object has other references, `foo_release` takes one off the
-- count, and returns -1.
pub foo_release-drops :
    {b : ℕ → List Ptr} {s : Table} (fuel : ℕ) (others : Cmd Table (Unit {0})) (n : ℕ) {p : Ptr}
    {f : Foo}
    → IsTable b s
    → IsObject b s p f (suc n)
    → Returns (Outcome b s p f (suc n)) (foo_release fuel others p s)
unfolding foo_release
foo_release-drops {s} fuel others n {p} {f} t o = rw (lock_lem o.ne_null s o.here (idle t o)) (
    rw (load-at o.ne_null s (held f)) (
      rw (not_last o.count) (
        rw (drop_count-at o.ne_null s (held f) {c = pos (suc n)} (one_less o.count)) (
          rw (unlock-at o.ne_null s (held (counted f (pos (suc n)))) refl)
            (returns (refl, refl, IsTable-counted p _ t o.here))))))

-- A release that sees a count of one lets both locks go before it takes them in the other order. If
-- the table is well-formed and the other threads then leave a well-formed table, in which the
-- object has `n` references besides, the release returns, given enough fuel for the bucket, and
-- ends as it must there: it frees the object only if `n` is 0.
pub foo_release-raced :
    {b b₁ : ℕ → List Ptr} {s s₁ : Table} (fuel : ℕ) (others : Cmd Table (Unit {0})) (n : ℕ)
    {p : Ptr} {f f₁ : Foo}
    → IsTable b s
    → IsObject b s p f 0
    → others s ≡ ok tt s₁
    → IsTable b₁ s₁
    → IsObject b₁ s₁ p f₁ n
    → length (b₁ (hash f₁.f_id)) < fuel
    → Returns (Outcome b₁ s₁ p f₁ n) (foo_release fuel others p s)
unfolding foo_release
foo_release-raced {s} {s₁} fuel others n {p} {f} {f₁} t o run t₁ o₁ enough =
    rw (lock_lem o.ne_null s o.here (idle t o)) (
      rw (load-at o.ne_null s (held f)) (
        rw (last o.count) (
          rw (unlock-at o.ne_null s (held f) refl) (
            rw (relock t o) (
              rw run (
                rw (lock_hash_lem s₁ t₁.open_table) (
                  rw (lock_lem o₁.ne_null (record s₁ { hashlock = true }) o₁.here (idle t₁ o₁))
                    (release_last-Outcome t₁ fuel n o₁ enough))))))))

-- Every object of a bucket has a count that can still grow.
abbrev pub InRange : (ℕ → List Ptr) → Table → ℕ → Type 0
InRange b s i =
    (r : Ptr) (f : Foo)
    → has r (b i) ≡ true
    → s.heap r ≡ some f
    → (n : ℕ) × (f.f_count ≡ pos (suc n)) × (suc n < int_max)

module _ {b : ℕ → List Ptr} {s : Table} (t : IsTable b s) {q : Ptr} {f : Foo} where
  found_IsObject :
      (n : ℕ)
      → IsObject b s q f n
      → IsObject b
          (at s q (some (released (counted f (pos (suc (suc n)))))))
          q
          (released (counted f (pos (suc (suc n)))))
          (suc n)
  found_IsObject n o = record {
    ne_null = o.ne_null;
    here = write_self s.heap q _;
    member = o.member;
    count = refl;
  }

  -- One up and one down.
  recount :
      (n : ℕ)
      → IsObject b s q f n
      → let f' : Foo = released (counted f (pos (suc (suc n)))) in
        at (at s q (some f')) q (some (released (counted f' (pos (suc n))))) ≡ s
  recount n o =
      let same : released (counted f (pos (suc n))) ≡ f =
        ap (λ c. record f { f_lock = false; f_count = c }) (sym o.count)
        ∙ ap (λ x. record f { f_lock = x }) (sym (idle t o)) in
      rw write-write (
        ap (λ x. at s q (some x)) same
        ∙ ap (λ h. record s { heap = h }) (rw (← o.here) (write_same s.heap q)))

release_found :
    {b : ℕ → List Ptr} {s : Table} (fuel : ℕ) (others : Cmd Table (Unit {0})) {q : Ptr} {f : Foo}
    (n : ℕ)
    → IsTable b s
    → IsObject b s q f n
    → foo_release fuel others q (at s q (some (released (counted f (pos (suc (suc n)))))))
      ≡ ok minus_one s
release_found fuel others {q} n t o =
    let (r, s', run, (is_less, now, _)) =
      Returns-run
        (foo_release-drops fuel others n (IsTable-counted q _ t o.here) (found_IsObject t n o)) in
    run ∙ ap (λ x. ok x s') is_less ∙ ap (ok minus_one) (now ∙ recount t n o)

no_overflow : {x : Option ℤ} {c : ℤ} → x ≡ some c → x ≡ none → ⊥
no_overflow e e' = cc

same_value : {x : Option ℤ} {c d : ℤ} → x ≡ some c → x ≡ some d → c ≡ d
same_value e e' = cc

-- In a well-formed table with fuel enough, and with all counts of the bucket in the range of `int`,
-- `foo_find` of an identifier that is there, and `foo_release` of what it found: the result is -1 and
-- the table is as before, whatever the other threads would do at a last reference.
pub find-release :
    {b : ℕ → List Ptr} (s : Table) (fuel : ℕ) (others : Cmd Table (Unit {0})) (id : ℤ) (r : Ptr)
    (g : Foo)
    → IsTable b s
    → InRange b s (hash id)
    → has r (b (hash id)) ≡ true
    → s.heap r ≡ some g
    → g.f_id ≡ id
    → length (b (hash id)) < fuel
    → (foo_find fuel id >>= foo_release fuel others) s ≡ ok minus_one s
find-release {b} s fuel others id r g t ranges m e d enough =
    elim (foo_find-FindsOrNot s fuel id t enough) [
      | inl (none_there, _) ↦ absurd (none_there r g m e d)
      | inr (q, f, m', e', d', found) ↦
          let (n, count, small) = ranges q f m' e' in
          let o : IsObject _ s q f n = record {
            ne_null = (Chain-mem q (t.chains (hash id) (hash-lt id)) m').0;
            here = e';
            member = subst (λ i. has q (b i) ≡ true) (ap hash (sym d')) m';
            count = count;
          } in
          let runs : foo_find fuel id s
              ≡ ok q (at s q (some (released (counted f (pos (suc (suc n))))))) =
            elim found [
              | inl largest ↦ absurd (no_overflow (one_more count small) largest)
              | inr (c, inc, run, _) ↦
                  run
                  ∙ ap (λ c. ok q (at s q (some (released (counted f c)))))
                      (same_value inc (one_more count small))
            ] in
          rw runs (release_found fuel others n t o)
    ]

-- `foo_release` of NULL reads through it.
foo_release-null :
    (fuel : ℕ) (others : Cmd Table (Unit {0})) (s : Table) → foo_release fuel others null s ≡ fault
unfolding foo_release lock load
foo_release-null fuel others s = refl

-- The threads of 11-11.c release what `foo_find` returns even when that is NULL: in a well-formed
-- table with no object of identifier 7 in its bucket, and with fuel enough, the thread is undefined
-- behaviour.
pub thr_fn_not_found :
    {b : ℕ → List Ptr} (s : Table) (fuel : ℕ) (others : Cmd Table (Unit {0}))
    → IsTable b s
    → ((r : Ptr) (f : Foo) → has r (b 7) ≡ true → s.heap r ≡ some f → f.f_id ≢ pos 7)
    → length (b 7) < fuel
    → thr_fn fuel others s ≡ fault
unfolding thr_fn
thr_fn_not_found s fuel others t none_there enough =
    elim (foo_find-FindsOrNot s fuel (pos 7) t enough) [
      | inl (_, run) ↦ rw run (foo_release-null fuel others s)
      | inr (q, f, m, e, d, _) ↦ absurd (none_there q f m e d)
    ]
