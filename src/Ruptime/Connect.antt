-- ===== src/Ruptime/Connect.antt =====
-- `connect_retry` of my-src/Chapter-16/16-11.c: a new socket for each attempt.
use my_apue.Prelude.{ℕ, zero, suc, ◌*◌, List, [], ◌∷◌, ltb, leb, if◌then◌else◌}
use my_apue.Prelude.Int.{ℤ, pos, minus_one}
use my_apue.Retry.{maxsleep}
use my_apue.Ruptime.{Fds, open_fd, close_fd}

-- What `socket` and `connect` do in one turn of the loop.
pub data Attempt : Type 0 where
  no_socket : Attempt
  refused : ℕ → Attempt
  connected : ℕ → Attempt

-- A return, with the waits before it in seconds and the descriptors after it, or an empty fuel.
pub data Connected : Type 0 where
  returned : ℤ → List ℕ → Fds → Connected
  unfinished : Connected

abbrev pub after_sleep : ℕ → Connected → Connected
after_sleep n (returned r waits fds) = returned r (n ∷ waits) fds
after_sleep n unfinished = unfinished

-- The loop from attempt number `k` on.
unfoldable pub connect_loop : ℕ → (ℕ → Attempt) → ℕ → ℕ → Fds → Connected
connect_loop zero attempt k numsec fds = unfinished
connect_loop (suc fuel) attempt k numsec fds =
    let next : Fds → Connected = connect_loop fuel attempt (suc k) (numsec * 2) in
    let rest : ℕ → Connected = λ fd. next (close_fd fd (open_fd fd fds)) in
    if ltb numsec maxsleep
    then elim (attempt k) [
      | no_socket ↦ returned minus_one [] fds
      | connected fd ↦ returned (pos fd) [] (open_fd fd fds)
      | refused fd ↦ (if leb numsec 64 then after_sleep numsec (rest fd) else rest fd)
    ]
    else returned minus_one [] fds

unfoldable pub connect_retry : ℕ → (ℕ → Attempt) → Fds → Connected
unfolding connect_loop
connect_retry fuel attempt fds = connect_loop fuel attempt 0 1 fds
