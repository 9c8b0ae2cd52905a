-- ===== src/Machine.antt =====
-- The run of a C function over a state `S`: what the sequential parts of the programs share.
use mathlib.Core.Path.{fun_ext}
use my_apue.Prelude.{ℕ, Option, none, some, arith, ◌==◌, if◌then◌else◌, ◌≡◌, refl, ◌≢◌}

abbrev pub Ptr : Type 0
Ptr = ℕ

abbrev pub null : Ptr
null = 0

-- `fault` is undefined behaviour (a wild pointer, a misused mutex, a signed overflow); `blocked`
-- waits for a lock that this run itself holds; `out_of_fuel` is a loop cut short.
pub data Run (S A : Type 0) : Type 0 where
  ok : A → S → Run S A
  fault : Run S A
  blocked : Run S A
  out_of_fuel : Run S A

abbrev pub Cmd : Type 0 → Type 0 → Type 0
Cmd S A = S → Run S A

module _ {S : Type 0} where
  abbrev pub pure : {A : Type 0} → A → Cmd S A
  pure a s = ok a s

  abbrev pub and_then : {A B : Type 0} → Run S A → (A → Cmd S B) → Run S B
  and_then (ok a s) k = k a s
  and_then fault k = fault
  and_then blocked k = blocked
  and_then out_of_fuel k = out_of_fuel

  infixl 5 ◌>>=◌ ◌>>◌
  abbrev pub ◌>>=◌ : {A B : Type 0} → Cmd S A → (A → Cmd S B) → Cmd S B
  m >>= k = λ s. and_then (m s) k

  abbrev pub ◌>>◌ : {A B : Type 0} → Cmd S A → Cmd S B → Cmd S B
  m >> n = m >>= λ _. n

  abbrev pub get : Cmd S S
  get s = ok s s

  abbrev pub put : S → Cmd S (Unit {0})
  put s _ = ok tt s

  -- A value that undefined behaviour may leave out.
  abbrev pub defined : {A : Type 0} → Option A → Cmd S A
  defined none s = fault
  defined (some a) s = ok a s

-- Total correctness: the run returns, and its value and state satisfy `P`.
pub data Returns {S A : Type 0} (P : A → S → Type 0) : Run S A → Type 0 where
  returns : {a : A} {s : S} → P a s → Returns P (ok a s)

module _ {S A : Type 0} {P : A → S → Type 0} where
  pub Returns-bind :
      {B : Type 0} {Q : B → S → Type 0} {r : Run S A} {k : A → Cmd S B}
      → Returns P r
      → ((a : A) (s : S) → P a s → Returns Q (k a s))
      → Returns Q (and_then r k)
  Returns-bind (returns p) next = next _ _ p

  pub Returns-mono :
      {Q : A → S → Type 0} {r : Run S A}
      → Returns P r
      → ((a : A) (s : S) → P a s → Q a s)
      → Returns Q r
  Returns-mono (returns p) weaken = returns (weaken _ _ p)

pub Returns-run :
    {S A : Type 0} {P : A → S → Type 0} {r : Run S A}
    → Returns P r
    → (a : A) × (s : S) × (r ≡ ok a s) × P a s
Returns-run (returns p) = (_, _, refl, p)

-- Memory: what is allocated at each address.
abbrev pub Memory : Type 0 → Type 0
Memory C = Ptr → Option C

unfoldable pub write : {C : Type 0} → Memory C → Ptr → Option C → Memory C
write h p c a = if p == a then c else h a

module _ {C : Type 0} (h : Memory C) (p : Ptr) where
  pub write_self : (c : Option C) → write h p c p ≡ c
  unfolding write
  write_self c = ground arith

  pub write_ne : (c : Option C) {q : Ptr} → p ≢ q → write h p c q ≡ h q
  unfolding write
  write_ne c ne = ground arith

  pub write-write : (c d : Option C) → write (write h p c) p d ≡ write h p d
  unfolding write
  write-write c d = fun_ext λ a. ground arith

  pub write_same : write h p (h p) ≡ h
  unfolding write
  write_same = fun_ext λ a. ground arith
