-- ===== src/Ruptime/Attempts.antt =====
-- The attempts, the waits and the descriptors of `connect_retry`, my-src/Chapter-16/16-11.c.
use mathlib.Core.Path.{subst, fun_ext}
use my_apue.Prelude.{
  ℕ, zero, suc, ◌+◌, ◌<◌, ◌≡◌, refl, sym, ap, ◌∙◌, ◌⊎◌, inl, inr, true, false, ltb, leb, ◌==◌,
  arith, Bool-cases,
}
use my_apue.Prelude.Int.{pos, minus_one}
use my_apue.Retry.{maxsleep}
use my_apue.Retry.Waits.{pow_2, doubling, pow_2_small}
use my_apue.Ruptime.{Fds, open_fd, close_fd}
use my_apue.Ruptime.Connect.{
  Attempt, no_socket, refused, connected, Connected, returned, after_sleep, connect_loop,
  connect_retry,
}

-- The descriptor of a new socket is not open before.
abbrev pub New : Fds → Attempt → Type 0
New fds no_socket = Unit {0}
New fds (refused fd) = fds fd ≡ false
New fds (connected fd) = fds fd ≡ false

abbrev pub Refused : Attempt → Type 0
Refused a = (fd : ℕ) × (a ≡ refused fd)

-- What comes of the attempts from number `k` on, `j` of them at most, with `fds` open before.
abbrev pub Attempts : (ℕ → Attempt) → Fds → ℕ → ℕ → Connected → Type 0
Attempts attempt fds k j r =
    (i : ℕ) × ((h : ℕ) → h < i → Refused (attempt (k + h)))
    × (((fd : ℕ) × (i < j)
          × (attempt (k + i) ≡ connected fd)
          × (r ≡ returned (pos fd) (doubling k i) (open_fd fd fds)))
        ⊎ (((i ≡ j) ⊎ ((i < j) × (attempt (k + i) ≡ no_socket)))
            × (r ≡ returned minus_one (doubling k i) fds)))

pub close-open : (fd : ℕ) (fds : Fds) → fds fd ≡ false → close_fd fd (open_fd fd fds) ≡ fds
close-open fd fds e = fun_ext (λ n. elim (Bool-cases (n == fd)) [
  | inl same ↦ (let at_fd : n ≡ fd = ground arith in rw same (sym (ap fds at_fd ∙ e)))
  | inr other ↦ rw other refl
])

module _ (attempt : ℕ → Attempt) (fds : Fds) where
  from_next :
      (k i : ℕ)
      → Refused (attempt k)
      → ((h : ℕ) → h < i → Refused (attempt (suc k + h)))
      → (h : ℕ) → h < suc i
      → Refused (attempt (k + h))
  from_next k i e later zero low =
      let same : k ≡ k + 0 = omega arith in subst (λ n. Refused (attempt n)) same e
  from_next k i e later (suc h) low =
      let same : suc k + h ≡ k + suc h = omega arith in
      subst (λ n. Refused (attempt n)) same (later h (omega (arith, low)))

  next-Attempts :
      (k j : ℕ) (r : Connected)
      → Refused (attempt k)
      → Attempts attempt fds (suc k) j r
      → Attempts attempt fds k (suc j) (after_sleep (pow_2 k) r)
  next-Attempts k j r e (i, misses, inl (fd, low, hit, run)) =
      let same : k + suc i ≡ suc k + i = omega arith in
      (
        suc i,
        from_next k i e misses,
        inl (fd, omega (arith, low), ap attempt same ∙ hit, ap (after_sleep (pow_2 k)) run),
      )
  next-Attempts k j r e (i, misses, inr (inl all, run)) =
      (suc i, from_next k i e misses, inr (inl (ap suc all), ap (after_sleep (pow_2 k)) run))
  next-Attempts k j r e (i, misses, inr (inr (low, stop), run)) =
      let same : k + suc i ≡ suc k + i = omega arith in
      (
        suc i,
        from_next k i e misses,
        inr (inr (omega (arith, low), ap attempt same ∙ stop), ap (after_sleep (pow_2 k)) run),
      )

  none_missed : (k : ℕ) (h : ℕ) → h < 0 → Refused (attempt (k + h))
  none_missed k h l = absurd (omega arith)

  -- One turn of the loop, by what its attempt does.
  turn :
      (fuel j k : ℕ) (a : Attempt)
      → k + suc j ≡ 7
      → attempt k ≡ a
      → New fds a
      → Attempts attempt fds (suc k) j (connect_loop fuel attempt (suc k) (pow_2 (suc k)) fds)
      → Attempts attempt fds k (suc j) (connect_loop (suc fuel) attempt k (pow_2 k) fds)
  unfolding connect_loop
  turn fuel j k no_socket e at_k new rest =
      let small = pow_2_small k j e in
      let more : ltb (pow_2 k) maxsleep ≡ true = ground arith in
      let same : k + 0 ≡ k = omega arith in
      rw (more, at_k) (0, none_missed k, inr (inr (omega arith, ap attempt same ∙ at_k), refl))
  turn fuel j k (connected fd) e at_k new rest =
      let small = pow_2_small k j e in
      let more : ltb (pow_2 k) maxsleep ≡ true = ground arith in
      let same : k + 0 ≡ k = omega arith in
      rw (more, at_k) (0, none_missed k, inl (fd, omega arith, ap attempt same ∙ at_k, refl))
  turn fuel j k (refused fd) e at_k new rest =
      let small = pow_2_small k j e in
      let more : ltb (pow_2 k) maxsleep ≡ true = ground arith in
      let waits : leb (pow_2 k) 64 ≡ true = ground arith in
      rw (more, at_k) (rw (waits, close-open fd fds new) (next-Attempts k j _ (fd, at_k) rest))

  connect_loop-Attempts :
      (fuel j k : ℕ)
      → k + j ≡ 7
      → j < fuel
      → ((n : ℕ) → New fds (attempt n))
      → Attempts attempt fds k j (connect_loop fuel attempt k (pow_2 k) fds)
  unfolding connect_loop
  connect_loop-Attempts zero j k e low new = absurd (omega arith)
  connect_loop-Attempts (suc fuel) zero k e low new =
      let at_7 : k ≡ 7 = omega (arith, e) in
      rw at_7 (0, (λ h l. absurd (omega arith)), inr (inl refl, refl))
  connect_loop-Attempts (suc fuel) (suc j) k e low new =
      turn fuel j k (attempt k) e refl (new k)
        (connect_loop-Attempts fuel j (suc k) (omega (arith, e)) (omega (arith, low)) new)

-- `connect_retry`, with fuel for 8 tests of its loop and sockets on descriptors that were not open,
-- returns: the socket of the first of at most 7 attempts that connects, after attempts that were refused, with
-- a wait before each attempt but the first, of 1 second and then of twice the last, and with this socket
-- open beside what was; or -1 when 7 attempts were refused or one had no socket, with the same
-- waits after the refused ones, and with the descriptors that were open before and no other.
pub connect_retry-Attempts :
    (fuel : ℕ) (attempt : ℕ → Attempt) (fds : Fds)
    → 7 < fuel
    → ((n : ℕ) → New fds (attempt n))
    → Attempts attempt fds 0 7 (connect_retry fuel attempt fds)
unfolding connect_retry
connect_retry-Attempts fuel attempt fds h new =
    connect_loop-Attempts attempt fds fuel 7 0 refl h new
