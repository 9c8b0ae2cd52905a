-- ===== src/Retry/Waits.antt =====
-- The attempts and the waits of `connect_retry`, my-src/Chapter-16/16-10.c.
use my_apue.Prelude.{
  ℕ, zero, suc, ◌+◌, ◌*◌, ◌≤◌, ◌<◌, ◌≡◌, refl, ap, ◌∙◌, ◌⊎◌, inl, inr, Bool, true, false, List, [],
  ◌∷◌, ltb, leb, arith, Bool-cases,
}
use my_apue.Prelude.Int.{pos, minus_one}
use my_apue.Retry.{maxsleep, Retried, returned, after_sleep, retry_loop, connect_retry}

-- Two to a power.
abbrev pub pow_2 : ℕ → ℕ
pow_2 zero = 1
pow_2 (suc k) = pow_2 k * 2

-- The waits of `n` attempts that fail, from number `k` on.
abbrev pub doubling : ℕ → ℕ → List ℕ
doubling k zero = []
doubling k (suc n) = pow_2 k ∷ doubling (suc k) n

-- Attempt `k + i` is the first that connects, from number `k` on.
abbrev pub FirstAt : (ℕ → Bool) → ℕ → ℕ → Type 0
FirstAt connects k i = ((h : ℕ) → h < i → connects (k + h) ≡ false) × (connects (k + i) ≡ true)

-- What comes of the attempts from number `k` on, `j` of them at most.
abbrev pub Retries : (ℕ → Bool) → ℕ → ℕ → Retried → Type 0
Retries connects k j r =
    ((i : ℕ) × (i < j) × FirstAt connects k i × (r ≡ returned (pos 0) (doubling k i)))
    ⊎ (((h : ℕ) → h < j → connects (k + h) ≡ false) × (r ≡ returned minus_one (doubling k j)))

pub pow_2_small : (k j : ℕ) → k + suc j ≡ 7 → pow_2 k ≤ 64
pow_2_small zero j e = omega arith
pow_2_small (suc zero) j e = omega arith
pow_2_small (suc (suc zero)) j e = omega arith
pow_2_small (suc (suc (suc zero))) j e = omega arith
pow_2_small (suc (suc (suc (suc zero)))) j e = omega arith
pow_2_small (suc (suc (suc (suc (suc zero))))) j e = omega arith
pow_2_small (suc (suc (suc (suc (suc (suc zero)))))) j e = omega arith
pow_2_small (suc (suc (suc (suc (suc (suc (suc k))))))) j e = absurd (omega arith)

from_next :
    (connects : ℕ → Bool) (k i : ℕ)
    → connects k ≡ false
    → ((h : ℕ) → h < i → connects (suc k + h) ≡ false)
    → (h : ℕ) → h < suc i
    → connects (k + h) ≡ false
from_next connects k i e later zero low = let same : k + 0 ≡ k = omega arith in ap connects same ∙ e
from_next connects k i e later (suc h) low =
    let same : k + suc h ≡ suc k + h = omega arith in
    ap connects same ∙ later h (omega (arith, low))

next-Retries :
    (connects : ℕ → Bool) (k j : ℕ) (r : Retried)
    → connects k ≡ false
    → Retries connects (suc k) j r
    → Retries connects k (suc j) (after_sleep (pow_2 k) r)
next-Retries connects k j r e (inl (i, low, (misses, hit), run)) = inl (
  suc i,
  omega (arith, low),
  (
    from_next connects k i e misses,
    (let same : k + suc i ≡ suc k + i = omega arith in ap connects same ∙ hit),
  ),
  ap (after_sleep (pow_2 k)) run,
)
next-Retries connects k j r e (inr (misses, run)) =
    inr (from_next connects k j e misses, ap (after_sleep (pow_2 k)) run)

retry_loop-Retries :
    (fuel j k : ℕ) (connects : ℕ → Bool)
    → k + j ≡ 7
    → j < fuel
    → Retries connects k j (retry_loop fuel connects k (pow_2 k))
unfolding retry_loop
retry_loop-Retries zero j k connects e low = absurd (omega arith)
retry_loop-Retries (suc fuel) zero k connects e low =
    let at_7 : k ≡ 7 = omega (arith, e) in rw at_7 (inr ((λ h l. absurd (omega arith)), refl))
retry_loop-Retries (suc fuel) (suc j) k connects e low =
    let small = pow_2_small k j e in
    let more : ltb (pow_2 k) maxsleep ≡ true = ground arith in
    let waits : leb (pow_2 k) 64 ≡ true = ground arith in
    elim (Bool-cases (connects k)) [
      | inl hit ↦
          rw (more, hit)
            (inl (
              0,
              omega arith,
              (
                (λ h l. absurd (omega arith)),
                (let same : k + 0 ≡ k = omega arith in ap connects same ∙ hit),
              ),
              refl,
            ))
      | inr miss ↦
          rw (more, miss)
            (rw waits (
              next-Retries connects k j (retry_loop fuel connects (suc k) (pow_2 (suc k))) miss (
                retry_loop-Retries fuel j (suc k) connects (omega (arith, e))
                  (omega (arith, low)))))
    ]

-- `connect_retry`, with fuel for 8 tests of its loop, returns 0 after the first of at most 7 attempts that
-- connects, with a wait before each attempt but the first, of 1 second and then of twice the last; or -1
-- when 7 attempts failed, each of which a wait has followed.
pub connect_retry-Retries :
    (fuel : ℕ) (connects : ℕ → Bool) → 7 < fuel → Retries connects 0 7 (connect_retry fuel connects)
unfolding connect_retry
connect_retry-Retries fuel connects h = retry_loop-Retries fuel 7 0 connects refl h
