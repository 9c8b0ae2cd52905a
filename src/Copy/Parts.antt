-- ===== src/Copy/Parts.antt =====
-- The bytes of one map in the copy of my-src/Chapter-14/14-27.c.
use my_apue.Prelude.{
  ℕ, zero, suc, ◌+◌, ◌≤◌, ◌<◌, ◌≡◌, ap, inl, inr, List, [], ◌∷◌, ◌++◌, ltb, if◌then◌else◌, length,
  replicate, arith, Bool-cases,
}
use my_apue.Copy.{overlay, write_at}

overlay-replicate :
    (piece : List ℕ) (m n : ℕ)
    → m ≡ length piece + n
    → overlay piece (replicate m 0) ≡ piece ++ replicate n 0
overlay-replicate [] m n e = let same : m ≡ n = omega (arith, e) in ap (λ k. replicate k 0) same
overlay-replicate (c ∷ piece) zero n e = absurd (omega (arith, e))
overlay-replicate (c ∷ piece) (suc m) n e =
    ap (λ xs. c ∷ xs) (overlay-replicate piece m n (omega (arith, e)))

pub write_at-append :
    (front piece : List ℕ) (m n : ℕ)
    → m ≡ length piece + n
    → write_at (length front) piece (front ++ replicate m 0) ≡ front ++ (piece ++ replicate n 0)
unfolding write_at
write_at-append [] piece m n e = overlay-replicate piece m n e
write_at-append (f ∷ front) piece m n e = ap (λ xs. f ∷ xs) (write_at-append front piece m n e)

-- The size of the next map.
abbrev pub next_size : ℕ → ℕ → ℕ
next_size incr left = if ltb incr left then incr else left

pub next_size-le : (incr left : ℕ) → (next_size incr left ≤ left) × (next_size incr left ≤ incr)
next_size-le incr left = elim (Bool-cases (ltb incr left)) [
  | inl more ↦ rw more (ground arith, omega arith)
  | inr last ↦ rw last (omega arith, ground arith)
]

pub next_size-positive : (incr left : ℕ) → 0 < incr → 0 < left → 0 < next_size incr left
next_size-positive incr left h h' = elim (Bool-cases (ltb incr left)) [
  | inl more ↦ rw more h
  | inr last ↦ rw last h'
]
