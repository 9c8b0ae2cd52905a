-- ===== src/Foo/Unlink.antt =====
-- The search for the predecessor in `foo_release` of my-src/Chapter-11/11-11.c and 11-12.c.
use mathlib.Core.Path.{subst}
use mathlib.Core.Bool.{false≢true}
use my_apue.Prelude.{
  ℕ, zero, suc, ◌<◌, ◌≡◌, refl, ◌≢◌, sym, ◌∙◌, true, false, some, List, ◌∷◌, arith, ◌==◌,
  Bool-cases, inl, inr, length,
}
use my_apue.Machine.{Ptr, null, Memory, ok, Returns, returns, write, write_self, write_ne}
use my_apue.Foo.Table.{Foo, Table, hash, unlink_loop, unlink}
use my_apue.Foo.Steps.{at, load_lem}
use my_apue.Foo.Chain.{Chain, end, link, has, remove, has-remove, Chain-write}

abbrev skipping : Foo → Foo → Foo
skipping g f = record g { f_next = f.f_next }

module _ (i : ℕ) (p : Ptr) (f : Foo) (s : Table) where
  -- The walk from `t`, behind which `ps` hangs, ends at the predecessor of `p`, and skips `p`.
  record Cut (k : ℕ) (t : Ptr) (ps : List Ptr) : Type 0 where
    prev : Ptr
    before : Foo
    at_prev : s.heap prev ≡ some before
    is_mem : has prev (t ∷ ps) ≡ true
    ne_p : prev ≢ p
    runs : unlink_loop k t p s ≡ ok tt (at s prev (some (skipping before f)))
    chain : Chain i (write s.heap prev (some (skipping before f))) t (t ∷ remove p ps)

  -- An object that does not precede `p` is stepped over, and stays.
  step_over :
      {k : ℕ} {t n : Ptr} {g : Foo} {ps : List Ptr}
      → t ≢ null
      → s.heap t ≡ some g
      → hash g.f_id ≡ i
      → g.f_next ≡ n
      → has t (n ∷ ps) ≡ false
      → n ≢ p
      → Cut k n ps
      → Cut (suc k) t (n ∷ ps)
  unfolding unlink_loop
  step_over {t} {n} {g} {ps} ne_t e b nx out d rest =
      let on : (g.f_next == p) ≡ false = ground arith in
      let stays : (p == n) ≡ false = ground arith in
      let apart : rest.prev ≢ t =
        λ same. false≢true (sym out ∙ subst (λ a. has a (n ∷ ps) ≡ true) same rest.is_mem) in
      let out_n : has t (n ∷ remove p ps) ≡ false = ground (arith, has-remove p t ps) in
      record {
        prev = rest.prev;
        before = rest.before;
        at_prev = rest.at_prev;
        is_mem = ground (arith, rest.is_mem);
        ne_p = rest.ne_p;
        runs = rw (load_lem ne_t s e) (rw on (rw nx rest.runs));
        chain =
            rw stays (
              link {f = g} ne_t (write_ne s.heap rest.prev _ apart ∙ e) b out_n (rw nx rest.chain));
      }

  module _ (ne : p ≢ null) (here : s.heap p ≡ some f) where
    cut :
        (k : ℕ) {t n : Ptr} {g : Foo} {ps : List Ptr}
        → t ≢ null
        → t ≢ p
        → s.heap t ≡ some g
        → hash g.f_id ≡ i
        → g.f_next ≡ n
        → has t ps ≡ false
        → has p ps ≡ true
        → Chain i s.heap n ps
        → length ps < k
        → Cut k t ps
    unfolding unlink_loop
    cut zero ne_t d e b nx out m c enough = absurd (omega arith)
    cut (suc k) ne_t d e b nx out m (end z) enough = cc
    cut (suc k) {t} {g} ne_t d e b nx out m (link {p = n} {f = f'} {ps} ne_n e' b' out' c) enough =
        elim (Bool-cases (n == p)) [
          | inl hit ↦
              let same : n ≡ p = ground arith in
              let f'_is_f : f' ≡ f = ground arith in
              let gone : (p == n) ≡ true = ground arith in
              let found : (g.f_next == p) ≡ true = ground arith in
              record {
                prev = t;
                before = g;
                at_prev = e;
                is_mem = ground arith;
                ne_p = d;
                runs = rw (load_lem ne_t s e) (rw found (rw (load_lem ne s here)));
                chain = rw gone (
                    link ne_t (write_self s.heap t _) b (ground arith)
                      (Chain-write t _ (rw f'_is_f at c) (ground arith)));
              }
          | inr miss ↦
              step_over ne_t e b nx out (ground arith)
                (cut k ne_n (ground arith) e' b' refl out' (ground arith) c (omega arith))
        ]

-- A write that skips changes the successor of one object.
skip_inside :
    (h : Memory Foo) (r : Ptr) {g : Foo} (f : Foo)
    → h r ≡ some g
    → (q : Ptr) (g' : Foo) → write h r (some (skipping g f)) q ≡ some g'
    → (g₀ : Foo) × (h q ≡ some g₀) × (g' ≡ record g₀ { f_next = g'.f_next })
unfolding write
skip_inside h r {g} f e q g' e' = elim (Bool-cases (r == q)) [
  | inl here ↦ (g, ground arith, ground arith)
  | inr there ↦ (g', ground arith, refl)
]

-- `p` is out of the chain of bucket `i`, and nothing but successors and one head has changed.
pub record Unlinked (i : ℕ) (p : Ptr) (ps : List Ptr) (s s' : Table) : Type 0 where
  pub chain : Chain i s'.heap (s'.fh i) (remove p ps)
  pub kept : s'.heap p ≡ s.heap p
  pub outside : (q : Ptr) → has q ps ≡ false → s'.heap q ≡ s.heap q
  pub inside :
      (q : Ptr) (g : Foo)
      → s'.heap q ≡ some g
      → (g₀ : Foo) × (s.heap q ≡ some g₀) × (g ≡ record g₀ { f_next = g.f_next })
  pub other : (j : ℕ) → i ≢ j → s'.fh j ≡ s.fh j
  pub same_lock : s'.hashlock ≡ s.hashlock

module _ {i : ℕ} {p : Ptr} {f : Foo} {s : Table} (ne : p ≢ null) (here : s.heap p ≡ some f)
    (bucket : hash f.f_id ≡ i) where
  unlink-Cut :
      {n : Ptr} {ps : List Ptr} {fuel : ℕ}
      → s.fh i ≡ n
      → (p == n) ≡ false
      → Cut i p f s fuel n ps
      → Returns (λ _ s'. Unlinked i p (n ∷ ps) s s') (unlink_loop fuel n p s)
  unfolding write
  unlink-Cut at_n stays t = rw t.runs (
      returns (record {
        chain = rw at_n (rw stays t.chain);
        kept = ground (arith, t.ne_p);
        outside = λ q o. ground (arith, t.is_mem);
        inside = skip_inside s.heap t.prev f t.at_prev;
        other = λ j d. refl;
        same_lock = refl;
      }))

  unlink_from :
      {n : Ptr} {ps : List Ptr} (fuel : ℕ)
      → s.fh i ≡ n
      → Chain i s.heap n ps
      → has p ps ≡ true
      → length ps < fuel
      → Returns (λ _ s'. Unlinked i p ps s s') (unlink fuel p s)
  unfolding unlink write
  unlink_from fuel at_n (end z) m enough = cc
  unlink_from fuel at_n (link {p = n} {f = g} {ps} ne_n e b out c) m enough =
      rw (load_lem ne s here) (
        rw (bucket, at_n)
          (elim (Bool-cases (n == p)) [
            | inl hit ↦
                let same : n ≡ p = ground arith in
                let g_is_f : g ≡ f = ground arith in
                let gone : (p == n) ≡ true = ground arith in
                let refl_i : (i == i) ≡ true = ground arith in
                rw hit (
                  returns (record {
                    chain = rw refl_i (rw gone (rw g_is_f at c));
                    kept = refl;
                    outside = λ q o. refl;
                    inside = λ q g' e'. (g', e', refl);
                    other = λ j d. ground arith;
                    same_lock = refl;
                  }))
            | inr miss ↦ rw miss (
                unlink-Cut at_n (ground arith) (
                  cut i p f s ne here fuel ne_n (ground arith) e b refl out (ground arith) c
                    (omega arith)))
          ]))

  -- `unlink` takes a member out of its chain; the walk ends within the length of the chain.
  pub unlink-Unlinked :
      {ps : List Ptr} (fuel : ℕ)
      → Chain i s.heap (s.fh i) ps
      → has p ps ≡ true
      → length ps < fuel
      → Returns (λ _ s'. Unlinked i p ps s s') (unlink fuel p s)
  unlink-Unlinked fuel c m enough = unlink_from fuel refl c m enough
