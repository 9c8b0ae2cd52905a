-- ===== src/Foo/Interleaved.antt =====
-- The threads of my-src/Chapter-11/11-11.c, in whatever order their sections come: the invariant of the references.
use mathlib.Core.Path.{subst}
use my_apue.Prelude.{
  ℕ, zero, suc, ◌+◌, ◌-◌, ◌≤◌, ◌<◌, ◌≡◌, ◌≢◌, refl, sym, ap, inl, inr, some, true, false, List,
  ◌==◌, length, arith, Bool-cases,
}
use my_apue.Prelude.Int.{pos}
use my_apue.Machine.{Ptr, ok, Run}
use my_apue.Foo.Table.{Foo, Table, foo_hold}
use my_apue.Foo.Steps.{at, released, counted}
use my_apue.Foo.Inv.{IsTable, IsTable-counted}
use my_apue.Foo.Counts.{IsObject}
use my_apue.Foo.Owned.{Counted, Owned, Owned-counted}
use my_apue.Foo.Sections.{release_first-last, release_first-drops, foo_hold-more}
use my_apue.Foo.Threads.{release_first, up, down, World, InRange}

abbrev pub refs : World → Ptr → ℕ
refs w p = w.holds p + w.sees p

-- The table is well-formed, with no more objects in a bucket than were ever allocated; every object has as many
-- on its count as there are references to it, and what has no references is free.
pub record Sound (w : World) : Type 0 where
  pub buckets : ℕ → List Ptr
  pub table : IsTable buckets w.table
  pub owned : Owned buckets w.table (refs w)
  pub short : (i : ℕ) → length (buckets i) ≤ w.size

pub up_at : (p : Ptr) (n : ℕ → ℕ) → up p n p ≡ suc (n p)
up_at p n = let same : (p == p) ≡ true = ground arith in rw same refl

pub up_else : (p q : Ptr) (n : ℕ → ℕ) → p ≢ q → up p n q ≡ n q
up_else p q n ne = let differs : (p == q) ≡ false = ground arith in rw differs refl

pub down_at : (p : Ptr) (n : ℕ → ℕ) → down p n p ≡ n p - 1
down_at p n = let same : (p == p) ≡ true = ground arith in rw same refl

pub down_else : (p q : Ptr) (n : ℕ → ℕ) → p ≢ q → down p n q ≡ n q
down_else p q n ne = let differs : (p == q) ≡ false = ground arith in rw differs refl

-- A reference is to an object in its bucket.
pub object :
    {w : World} (i : Sound w) (p : Ptr)
    → 0 < refs w p
    → (f : Foo) × (n : ℕ) × (refs w p ≡ suc n) × IsObject i.buckets w.table p f n
object i p some_ref = elim (i.owned p) [ inl (z, _) ↦ absurd (omega arith) | inr o ↦ o ]

-- The table after a section, from what is known of the section.
pub same_run :
    {A : Type 0} {r : Run Table A} {a a' : A} {s s' : Table}
    → r ≡ ok a s
    → r ≡ ok a' s'
    → (a ≡ a') × (s ≡ s')
same_run e e' = (cc, cc)

module _ {w : World} (i : Sound w) where
  -- A new count of an object, for as many references as there are.
  pub recounted :
      {w' : World} (p : Ptr) {f : Foo} {m : ℕ} (n : ℕ)
      → IsObject i.buckets w.table p f m
      → at w.table p (some (released (counted f (pos (suc n))))) ≡ w'.table
      → w'.size ≡ w.size
      → refs w' p ≡ suc n
      → ((q : Ptr) → p ≢ q → refs w' q ≡ refs w q)
      → Sound w'
  recounted {w'} p {f} n o now size here there = record {
    buckets = i.buckets;
    table = subst (IsTable i.buckets) now (IsTable-counted p _ i.table o.here);
    owned = subst (λ s. Owned i.buckets s (refs w')) now (Owned-counted there i.owned n o here);
    short = λ j. subst (λ k. length (i.buckets j) ≤ k) (sym size) (i.short j);
  }

  -- The same table and the same number of references to each object.
  pub regrouped :
      {w' : World}
      → w.table ≡ w'.table
      → w'.size ≡ w.size
      → ((q : Ptr) → refs w q ≡ refs w' q)
      → Sound w'
  regrouped {w'} now size same = record {
    buckets = i.buckets;
    table = subst (IsTable i.buckets) now i.table;
    owned = λ q.
        subst (λ s. Counted i.buckets s q (refs w' q)) now
          (subst (Counted i.buckets w.table q) (same q) (i.owned q));
    short = λ j. subst (λ k. length (i.buckets j) ≤ k) (sym size) (i.short j);
  }

  pub found :
      (q : Ptr) (f : Foo)
      → w.table.heap q ≡ some f
      → (n : ℕ) × (refs w q ≡ suc n) × IsObject i.buckets w.table q f n
  found q f here = elim (i.owned q) [
    | inl (_, free) ↦ cc
    | inr (g, n, c, o) ↦
        (let hit = o.here in
          let same : g ≡ f = cc in (n, c, subst (λ x. IsObject i.buckets w.table q x n) same o))
  ]

  pub gives_up-Sound :
      (p : Ptr) {s : Table} (f : Foo) (n : ℕ)
      → refs w p ≡ suc n
      → IsObject i.buckets w.table p f n
      → 0 < w.holds p
      → release_first p w.table ≡ ok false s
      → Sound (record w { table = s; holds = down p w.holds })
  gives_up-Sound p f zero c o some_held run = let other = release_first-last i.table o in cc
  gives_up-Sound p {s} f (suc n) c o some_held run =
      recounted p n o (same_run (release_first-drops i.table n o) run).1 refl
        (let less = down_at p w.holds in omega (arith, less, c, some_held))
        (λ q ne. ap (λ k. k + w.sees q) (down_else p q w.holds ne))

  moved : (p q : Ptr) → 0 < w.holds p → refs w q ≡ down p w.holds q + up p w.sees q
  moved p q some_held = elim (Bool-cases (p == q)) [
    | inl here ↦
        (let same : p ≡ q = ground arith in
          rw here (let held = subst (λ x. 0 < w.holds x) same some_held in omega (arith, held)))
    | inr there ↦ rw there refl
  ]

  pub sees_one-Sound :
      (p : Ptr) {s : Table} (f : Foo) (n : ℕ)
      → IsObject i.buckets w.table p f n
      → 0 < w.holds p
      → release_first p w.table ≡ ok true s
      → Sound (record w { table = s; holds = down p w.holds; sees = up p w.sees })
  sees_one-Sound p {s} f zero o some_held run =
      regrouped (same_run (release_first-last i.table o) run).1 refl (λ q. moved p q some_held)
  sees_one-Sound p {s} f (suc n) o some_held run = let other = release_first-drops i.table n o in cc

  pub holds_more-Sound :
      (p : Ptr) {s : Table} (f : Foo) (n : ℕ)
      → refs w p ≡ suc n
      → IsObject i.buckets w.table p f n
      → InRange w
      → foo_hold p w.table ≡ ok tt s
      → Sound (record w { table = s; holds = up p w.holds })
  holds_more-Sound p {s} f n c o range run =
      let small = range p in
      recounted p (suc n) o (same_run (foo_hold-more i.table n o (omega (arith, small, c))) run).1
        refl (let more = up_at p w.holds in omega (arith, more, c))
        (λ q ne. ap (λ k. k + w.sees q) (up_else p q w.holds ne))
