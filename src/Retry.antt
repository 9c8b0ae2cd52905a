-- ===== src/Retry.antt =====
-- `connect_retry` of my-src/Chapter-16/16-10.c: `connect` with waits that double.
pub mod Waits
mod Tests
use my_apue.Prelude.{ℕ, zero, suc, ◌*◌, Bool, true, false, List, [], ◌∷◌, ltb, leb, if◌then◌else◌}
use my_apue.Prelude.Int.{ℤ, pos, minus_one}

-- `MAXSLEEP`
abbrev pub maxsleep : ℕ
maxsleep = 128

-- A return, with the waits before it in seconds, or an empty fuel.
pub data Retried : Type 0 where
  returned : ℤ → List ℕ → Retried
  unfinished : Retried

-- A wait before the rest of the run.
abbrev pub after_sleep : ℕ → Retried → Retried
after_sleep n (returned r waits) = returned r (n ∷ waits)
after_sleep n unfinished = unfinished

-- The loop from attempt number `k` on; `connects` tells which attempts `connect` takes.
unfoldable pub retry_loop : ℕ → (ℕ → Bool) → ℕ → ℕ → Retried
retry_loop zero connects k numsec = unfinished
retry_loop (suc fuel) connects k numsec =
    let rest = retry_loop fuel connects (suc k) (numsec * 2) in
    if ltb numsec maxsleep
    then (if connects k
        then returned (pos 0) []
        else (if leb numsec 64 then after_sleep numsec rest else rest))
    else returned minus_one []

unfoldable pub connect_retry : ℕ → (ℕ → Bool) → Retried
unfolding retry_loop
connect_retry fuel connects = retry_loop fuel connects 0 1
