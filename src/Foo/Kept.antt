-- ===== src/Foo/Kept.antt =====
-- The threads of my-src/Chapter-11/11-11.c, in whatever order their sections come: every section keeps the invariant.
use mathlib.Core.Path.{subst}
use my_apue.Prelude.{
  ℕ, zero, suc, ◌+◌, ◌≤◌, ◌<◌, ◌≡◌, ◌≢◌, refl, sym, ap, ◌∙◌, ◌⊎◌, inl, inr, none, some, true, List,
  [], ◌∷◌, ◌==◌, length, arith, Bool-cases,
}
use my_apue.Prelude.Int.{ℤ, pos, int_suc}
use my_apue.Machine.{Ptr, null, ok, Returns-run}
use my_apue.Foo.Table.{Foo, Table, hash, foo_alloc, foo_find}
use my_apue.Foo.Steps.{at, released, counted}
use my_apue.Foo.Chain.{remove}
use my_apue.Foo.Inv.{IsTable, IsTable-start}
use my_apue.Foo.Release.{Freed, drop_bucket}
use my_apue.Foo.Alloc.{pushed, push_bucket, foo_alloc-IsTable}
use my_apue.Foo.Find.{foo_find-FindsOrNot}
use my_apue.Foo.Counts.{IsObject, one_more}
use my_apue.Foo.Owned.{Owned, Owned-Freed, Owned-pushed}
use my_apue.Foo.Sections.{release_second-Outcome}
use my_apue.Foo.Threads.{
  release_second, up, down, World, Step, finds, misses, holds_more, gives_up, sees_one, releases,
  allocs, begin, Reached, at_start, after, InRange,
}
use my_apue.Foo.Interleaved.{
  refs, Sound, up_at, up_else, down_at, down_else, object, same_run, recounted, regrouped, found,
  gives_up-Sound, sees_one-Sound, holds_more-Sound,
}

length-remove : (p : Ptr) (ps : List Ptr) → length (remove p ps) ≤ length ps
length-remove p [] = omega arith
length-remove p (q ∷ ps) = elim (Bool-cases (p == q)) [
  | inl here ↦ rw here (omega arith)
  | inr there ↦ rw there (omega (arith, length-remove p ps))
]

length-drop_bucket :
    (b : ℕ → List Ptr) (i : ℕ) (p : Ptr) (j : ℕ) → length (drop_bucket b i p j) ≤ length (b j)
length-drop_bucket b i p j = elim (Bool-cases (i == j)) [
  | inl here ↦ rw here (length-remove p (b j))
  | inr there ↦ rw there (omega arith)
]

length-push_bucket :
    (b : ℕ → List Ptr) (id : ℤ) (p : Ptr) (j : ℕ)
    → length (push_bucket b id p j) ≤ suc (length (b j))
length-push_bucket b id p j = elim (Bool-cases (hash id == j)) [
  | inl here ↦ rw here (omega arith)
  | inr there ↦ rw there (omega arith)
]

module _ {w : World} (i : Sound w) where
  pub enough : (j : ℕ) → length (i.buckets j) < suc w.size
  enough j = let few = i.short j in omega (arith, few)

  releases-Sound :
      (p : Ptr) (r : ℤ) {s : Table} (f : Foo) (n : ℕ)
      → refs w p ≡ suc n
      → IsObject i.buckets w.table p f n
      → 0 < w.sees p
      → release_second (suc w.size) p w.table ≡ ok r s
      → Sound (record w { table = s; sees = down p w.sees })
  releases-Sound p r {s} f zero c o some_seen run =
      let (r', s', run', (_, freed)) =
        Returns-run (release_second-Outcome i.table (suc w.size) zero o (enough (hash f.f_id))) in
      let now : s' ≡ s = (same_run run' run).1 in
      let fr : Freed i.buckets (hash f.f_id) p w.table s =
        subst (Freed i.buckets (hash f.f_id) p w.table) now freed in
      let less = down_at p w.sees in
      record {
        buckets = drop_bucket i.buckets (hash f.f_id) p;
        table = fr.table;
        owned =
            Owned-Freed (λ q ne. ap (λ k. w.holds q + k) (down_else p q w.sees ne)) i.owned f fr
              (omega (arith, less, c, some_seen));
        short = λ j.
            (let few = i.short j in
              let fewer = length-drop_bucket i.buckets (hash f.f_id) p j in
              omega (arith, few, fewer));
      }
  releases-Sound p r {s} f (suc n) c o some_seen run =
      let (r', s', run', (_, counts, _)) =
        Returns-run
          (release_second-Outcome i.table (suc w.size) (suc n) o (enough (hash f.f_id))) in
      let less = down_at p w.sees in
      recounted i p n o (sym counts ∙ (same_run run' run).1) refl
        (omega (arith, less, c, some_seen))
        (λ q ne. ap (λ k. w.holds q + k) (down_else p q w.sees ne))

  allocs-Sound :
      (p : Ptr) (junk : Foo) (id : ℤ) {s : Table}
      → p ≢ null
      → w.table.heap p ≡ none
      → foo_alloc p junk true id w.table ≡ ok p s
      → Sound (record w { table = s; size = suc w.size; holds = up p w.holds })
  allocs-Sound p junk id {s} ne unused run =
      let (run', table', _) = foo_alloc-IsTable i.table p junk id ne unused in
      let now : pushed w.table p id ≡ s = (same_run run' run).1 in
      let more = up_at p w.holds in
      let r' : Ptr → ℕ = λ q. up p w.holds q + w.sees q in
      record {
        buckets = push_bucket i.buckets id p;
        table = subst (IsTable (push_bucket i.buckets id p)) now table';
        owned =
            subst (λ t. Owned (push_bucket i.buckets id p) t r') now
              (Owned-pushed (λ q differs. ap (λ k. k + w.sees q) (up_else p q w.holds differs))
                i.owned id ne unused (omega (arith, more)));
        short = λ j.
            (let few = i.short j in
              let more_few = length-push_bucket i.buckets id p j in omega (arith, few, more_few));
      }

  found_run :
      (id : ℤ) (q : Ptr) (f : Foo) (n : ℕ)
      → int_suc f.f_count ≡ some (pos (suc (suc n)))
      → (int_suc f.f_count ≡ none)
        ⊎ ((c : ℤ) × (int_suc f.f_count ≡ some c)
            × (foo_find (suc w.size) id w.table
                ≡ ok q (at w.table q (some (released (counted f c)))))
            × IsTable i.buckets (at w.table q (some (released (counted f c)))))
      → foo_find (suc w.size) id w.table
        ≡ ok q (at w.table q (some (released (counted f (pos (suc (suc n)))))))
  found_run id q f n grows (inl largest) = cc
  found_run id q f n grows (inr (c, inc, run, _)) =
      let same : c ≡ pos (suc (suc n)) = cc in
      run ∙ ap (λ x. ok q (at w.table q (some (released (counted f x))))) same

  -- What `foo_find` does, while no object has the largest number of references.
  pub find_runs :
      (id : ℤ)
      → InRange w
      → (foo_find (suc w.size) id w.table ≡ ok null w.table)
        ⊎ ((q : Ptr) × (f : Foo) × (n : ℕ) × (refs w q ≡ suc n)
            × IsObject i.buckets w.table q f n
            × (foo_find (suc w.size) id w.table
                ≡ ok q (at w.table q (some (released (counted f (pos (suc (suc n)))))))))
  find_runs id range =
      elim (foo_find-FindsOrNot w.table (suc w.size) id i.table (enough (hash id))) [
        | inl (_, run) ↦ inl run
        | inr (q, f, m, here, d, run) ↦
            (let (n, c, o) = found i q f here in
              let small = range q in
              let grows : int_suc f.f_count ≡ some (pos (suc (suc n))) =
                one_more o.count (omega (arith, small, c)) in
              inr (q, f, n, c, o, found_run id q f n grows run))
      ]

  finds-Sound :
      (id : ℤ) (p : Ptr) {s : Table}
      → InRange w
      → foo_find (suc w.size) id w.table ≡ ok p s
      → p ≢ null
      → Sound (record w { table = s; holds = up p w.holds })
  finds-Sound id p {s} range run ne = elim (find_runs id range) [
    | inl none_there ↦ absurd (ne (same_run run none_there).0)
    | inr (q, f, n, c, o, run') ↦
        (let same : q ≡ p = (same_run run' run).0 in
          let sound : Sound (record w { table = s; holds = up q w.holds }) =
            recounted i q (suc n) o (same_run run' run).1 refl
              (let more = up_at q w.holds in omega (arith, more, c))
              (λ x differs. ap (λ k. k + w.sees x) (up_else q x w.holds differs)) in
          subst (λ x. Sound (record w { table = s; holds = up x w.holds })) same sound)
  ]

  misses-Sound :
      (id : ℤ) {s : Table}
      → foo_find (suc w.size) id w.table ≡ ok null s
      → InRange w
      → Sound (record w { table = s })
  misses-Sound id {s} run range = elim (find_runs id range) [
    | inl none_there ↦ regrouped i (same_run none_there run).1 refl (λ q. refl)
    | inr (q, f, n, c, o, run') ↦ absurd (o.ne_null (same_run run' run).0)
  ]

pub Step-Sound : {w w' : World} → Step w w' → Sound w → Sound w'
Step-Sound (finds id p range run ne) i = finds-Sound i id p range run ne
Step-Sound (misses id run range) i = misses-Sound i id run range
Step-Sound (holds_more {w} p range some_held run) i =
    let (f, n, c, o) = object i p (omega (arith, some_held)) in
    holds_more-Sound i p f n c o range run
Step-Sound (gives_up {w} p some_held run) i =
    let (f, n, c, o) = object i p (omega (arith, some_held)) in
    gives_up-Sound i p f n c o some_held run
Step-Sound (sees_one {w} p some_held run) i =
    let (f, n, c, o) = object i p (omega (arith, some_held)) in
    sees_one-Sound i p f n o some_held run
Step-Sound (releases {w} p r some_seen run) i =
    let (f, n, c, o) = object i p (omega (arith, some_seen)) in
    releases-Sound i p r f n c o some_seen run
Step-Sound (allocs p junk id ne unused run) i = allocs-Sound i p junk id ne unused run

begin-Sound : Sound begin
begin-Sound = record {
  buckets = λ i. [];
  table = IsTable-start;
  owned = λ q. inl (refl, refl);
  short = λ i. omega arith;
}

pub Reached-Sound : {w : World} → Reached w → Sound w
Reached-Sound at_start = begin-Sound
Reached-Sound (after r d) = Step-Sound d (Reached-Sound r)
