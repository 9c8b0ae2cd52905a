-- ===== src/Foo/Release.antt =====
-- `foo_release` of my-src/Chapter-11/11-11.c, with other threads between its two critical sections.
use mathlib.Core.Path.{subst}
use mathlib.Core.Bool.{false≢true}
use my_apue.Prelude.{
  ℕ, ◌<◌, ◌≡◌, refl, ◌≢◌, ap, sym, ◌∙◌, true, false, some, none, List, arith, ◌==◌, Bool-cases, inl,
  inr, if◌then◌else◌, length,
}
use my_apue.Prelude.Int.{ℤ, pos, minus_one, int_pred, ◌==ℤ◌}
use my_apue.Machine.{Ptr, null, ok, Returns, returns, Returns-bind, write, write_self, write_ne}
use my_apue.Foo.Table.{Foo, Table, hash, nhash, unlock_hash, release_last}
use my_apue.Foo.Steps.{
  at, held, released, counted, load-at, unlock_lem, unlock-at, drop_count-at, destroy-at, free-at,
}
use my_apue.Foo.Chain.{
  Chain, has, remove, not-mem-remove, mem_of_mem-remove, Chain-write, Chain-frame, Chain-Like,
}
use my_apue.Foo.Inv.{IsTable, hash-lt, Like-at, IsTable-apart}
use my_apue.Foo.Unlink.{Unlinked, unlink-Unlinked}

-- Bucket `i` without `p`.
abbrev pub drop_bucket : (ℕ → List Ptr) → ℕ → Ptr → ℕ → List Ptr
drop_bucket b i p j = if i == j then remove p (b j) else b j

-- The object is gone: not in memory, not in its bucket; every other object keeps all but its
-- successor, and the invariant holds.
pub record Freed (b : ℕ → List Ptr) (i : ℕ) (p : Ptr) (s s' : Table) : Type 0 where
  pub table : IsTable (drop_bucket b i p) s'
  pub gone : s'.heap p ≡ none
  pub others :
      (q : Ptr) (g : Foo)
      → s'.heap q ≡ some g
      → (g₀ : Foo) × (s.heap q ≡ some g₀) × (g ≡ record g₀ { f_next = g.f_next })

module _ {b : ℕ → List Ptr} {s : Table} (t : IsTable b s) {p : Ptr} {f : Foo} (ne : p ≢ null)
    (here : s.heap p ≡ some f) (m : has p (b (hash f.f_id)) ≡ true) where
  -- Both locks held.
  abbrev pub locked : Table
  locked = at (record s { hashlock = true }) p (some (held f))

  idle_here : f.f_lock ≡ false
  idle_here = t.idle (hash f.f_id) p f (hash-lt f.f_id) m here

  pub release_last_drops :
      (fuel : ℕ) {c : ℤ}
      → (f.f_count ==ℤ pos 1) ≡ false
      → int_pred f.f_count ≡ some c
      → release_last fuel p locked ≡ ok minus_one (at s p (some (released (counted f c))))
  unfolding release_last unlock_hash
  release_last_drops fuel {c} more dec =
      let s1 : Table = record s { hashlock = true } in
      rw (load-at ne s1 (held f)) (
        rw more (
          rw (drop_count-at ne s1 (held f) dec) (
            rw (unlock-at ne s1 (held (counted f c)) refl) (
              ap
                (λ x.
                  ok minus_one (record (at s p (some (released (counted f c)))) { hashlock = x }))
                (sym t.open_table)))))

  -- The chain does not see what `p` holds besides its identifier and successor.
  pub Chain-at :
      (f' : Foo)
      → f'.f_next ≡ f.f_next
      → f'.f_id ≡ f.f_id
      → Chain (hash f.f_id) (write s.heap p (some f')) (s.fh (hash f.f_id)) (b (hash f.f_id))
  Chain-at f' nx d =
      Chain-Like (t.chains (hash f.f_id) (hash-lt f.f_id)) λ q _. Like-at s p f' here nx d q

  -- The state after the unlinking, with `p` freed and the locks let go.
  module _ (f' : Foo) {s' : Table}
      (u : Unlinked
        (hash f.f_id)
        p
        (b (hash f.f_id))
        (at (record s { hashlock = true }) p (some f'))
        s') where
    abbrev pub final : Table
    final = at (record s' { hashlock = false }) p none

    final_others :
        (q : Ptr) (g : Foo)
        → final.heap q ≡ some g
        → (g₀ : Foo) × (s.heap q ≡ some g₀) × (g ≡ record g₀ { f_next = g.f_next })
    unfolding write
    final_others q g e =
        let (g₀, e₀, like) = u.inside q g (ground arith) in (g₀, ground arith, like)

    stayed : (j : ℕ) (q : Ptr) → has q (drop_bucket b (hash f.f_id) p j) ≡ true → has q (b j) ≡ true
    stayed j q m' = elim (Bool-cases (hash f.f_id == j)) [
      | inl same ↦ mem_of_mem-remove p q (b j) (rw same at m')
      | inr apart ↦ rw apart at m'
    ]

    own-Chain : Chain (hash f.f_id) final.heap (final.fh (hash f.f_id)) (remove p (b (hash f.f_id)))
    own-Chain =
        Chain-write p none u.chain (not-mem-remove p (t.chains (hash f.f_id) (hash-lt f.f_id)))

    other-Chain : (j : ℕ) → j < nhash → hash f.f_id ≢ j → Chain j final.heap (final.fh j) (b j)
    other-Chain j h d =
        let out : has p (b j) ≡ false = IsTable-apart (hash f.f_id) j p t (hash-lt f.f_id) h d m in
        let before : Chain j s'.heap (s.fh j) (b j) = Chain-frame (t.chains j h) (λ q mq.
          let apart : p ≢ q =
            λ same. false≢true (sym out ∙ subst (λ a. has a (b j) ≡ true) (sym same) mq) in
          let off : has q (b (hash f.f_id)) ≡ false =
            IsTable-apart j (hash f.f_id) q t h (hash-lt f.f_id) (λ e. d (sym e)) mq in
          u.outside q off ∙ write_ne s.heap p _ apart) in
        Chain-write p none (rw (u.other j d) before) out

    final_idle :
        (j : ℕ) (q : Ptr) (g : Foo)
        → j < nhash
        → has q (drop_bucket b (hash f.f_id) p j) ≡ true
        → final.heap q ≡ some g
        → g.f_lock ≡ false
    final_idle j q g h m' e =
        let (g₀, e₀, like) = final_others q g e in
        ap (λ (x : Foo). x.f_lock) like ∙ t.idle j q g₀ h (stayed j q m') e₀

    final-Chain :
        (j : ℕ) → j < nhash → Chain j final.heap (final.fh j) (drop_bucket b (hash f.f_id) p j)
    final-Chain j h = elim (Bool-cases (hash f.f_id == j)) [
      | inl same ↦
          rw same
            (subst (λ k. Chain k final.heap (final.fh k) (remove p (b k))) (ground arith) own-Chain)
      | inr apart ↦ rw apart (other-Chain j h (ground arith))
    ]

    pub final-Freed : Freed b (hash f.f_id) p s final
    final-Freed = record {
      table = record { chains = final-Chain; idle = final_idle; open_table = refl };
      gone = write_self s'.heap p none;
      others = final_others;
    }

  pub release_last_frees :
      (fuel : ℕ)
      → (f.f_count ==ℤ pos 1) ≡ true
      → length (b (hash f.f_id)) < fuel
      → Returns (λ r s'. (r ≡ pos 0) × Freed b (hash f.f_id) p s s') (release_last fuel p locked)
  unfolding release_last unlock_hash
  release_last_frees fuel last enough =
      let f_held : locked.heap p ≡ some (held f) = write_self s.heap p (some (held f)) in
      rw (load-at ne (record s { hashlock = true }) (held f)) (
        rw last (
          Returns-bind (unlink-Unlinked ne f_held refl fuel (Chain-at (held f) refl refl) m enough)
            λ _ s' u.
              let s'' : Table = record s' { hashlock = false } in
              rw u.same_lock (
                rw (unlock_lem ne s'' {f = held f} (u.kept ∙ f_held) refl) (
                  rw (destroy-at ne s'' (released (held f)) refl) (
                    rw (free-at ne s'' (released (held f)))
                      (returns (refl, final-Freed (held f) u)))))))
