-- ===== src/Io/Full.antt =====
-- `readn` and `writen` of my-src/Chapter-14/14-24.c, which go on after a short read or write.
pub mod Reads
pub mod Writes
pub mod Tests
use my_apue.Prelude.{
  ℕ, zero, suc, ◌+◌, ◌-◌, Option, none, some, Bool, true, false, List, [], ◌∷◌, ◌++◌, ◌==◌,
  if◌then◌else◌, length, take, drop,
}
use my_apue.Prelude.Int.{ℤ, pos, negsuc, minus_one}

-- `read` on a descriptor whose state is `s`: an error, or the bytes, none of them at the end of file.
abbrev pub ReadCall : Type 0 → Type 0
ReadCall S = ℕ → S → Option (List ℕ) × S

abbrev pub ReadEnd : Type 0 → Type 0
ReadEnd S = Option (ℤ × List ℕ × S)

-- The body of the loop of `readn`, by what `read` gives; `later` is the rest of the loop.
abbrev pub after_read :
    {S : Type 0} → ℕ → ℕ → List ℕ → (List ℕ → S → ReadEnd S) → Option (List ℕ) × S → ReadEnd S
after_read n nleft buf later (none, s') =
    if nleft == n then some (minus_one, buf, s') else some (pos (n - nleft), buf, s')
after_read n nleft buf later (some bytes, s') =
    if length bytes == 0 then some (pos (n - nleft), buf, s') else later bytes s'

-- The loop of `readn`: `n - nleft` bytes are in `buf`. Each round gets a byte, so that `nleft` rounds
-- are enough; `none` is an empty fuel.
unfoldable pub readn_loop : {S : Type 0} → ReadCall S → ℕ → ℕ → ℕ → List ℕ → S → ReadEnd S
readn_loop read fuel n zero buf s = some (pos (n - zero), buf, s)
readn_loop read zero n (suc k) buf s = none
readn_loop read (suc fuel) n (suc k) buf s =
    after_read n (suc k) buf
      (λ bytes s'. readn_loop read fuel n (suc k - length bytes) (buf ++ bytes) s') (read (suc k) s)

-- The return value, the bytes stored and the descriptor's state.
unfoldable pub readn : {S : Type 0} → ReadCall S → ℕ → S → Option (ℤ × List ℕ × S)
unfolding readn_loop
readn read n s = readn_loop read n n n [] s

-- `write` of some bytes: an error, or how many of them it took.
abbrev pub WriteCall : Type 0 → Type 0
WriteCall S = List ℕ → S → Option ℕ × S

-- The body of the loop of `writen`, with `ptr` left to be written.
abbrev pub after_write :
    {S : Type 0} → ℕ → List ℕ → (ℕ → S → Option (ℤ × S)) → Option ℕ × S → Option (ℤ × S)
after_write n ptr later (none, s') =
    if length ptr == n then some (minus_one, s') else some (pos (n - length ptr), s')
after_write n ptr later (some zero, s') = some (pos (n - length ptr), s')
after_write n ptr later (some (suc k), s') = later (suc k) s'

unfoldable pub writen_loop : {S : Type 0} → WriteCall S → ℕ → ℕ → List ℕ → S → Option (ℤ × S)
writen_loop write fuel n [] s = some (pos (n - zero), s)
writen_loop write zero n (c ∷ cs) s = none
writen_loop write (suc fuel) n (c ∷ cs) s =
    after_write n (c ∷ cs) (λ nwritten s'. writen_loop write fuel n (drop nwritten (c ∷ cs)) s')
      (write (c ∷ cs) s)

-- The return value and the descriptor's state.
unfoldable pub writen : {S : Type 0} → WriteCall S → List ℕ → S → Option (ℤ × S)
unfolding writen_loop
writen write bytes s = writen_loop write (length bytes) (length bytes) bytes s
