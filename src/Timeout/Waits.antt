-- ===== src/Timeout/Waits.antt =====
-- When `timeout` of my-src/Chapter-12/12-8.c has its function called.
use my_apue.Prelude.{
  ℕ, ◌+◌, ◌*◌, ◌≤◌, ◌<◌, ◌≡◌, refl, ◌⊎◌, inl, inr, Bool, true, false, List, [], ◌∷◌, leb, arith,
  Bool-cases,
}
use my_apue.Prelude.Int.{ℤ, pos, negsuc}
use my_apue.Timeout.{
  Timespec, sectonsec, Event, allocated, slept, called, freed, is_later, to_wait, timeout,
}

-- Nanoseconds since the epoch.
abbrev pub nanoseconds : Timespec → ℕ
nanoseconds t = t.tv_sec * 1000000000 + t.tv_nsec

-- A sleep from `now` ends at the time; or, when the seconds have to be borrowed from, 0.9 seconds before
-- it, or is one of negative nanoseconds.
abbrev pub Wakes : Timespec → Timespec → ℕ → ℤ → Type 0
Wakes now time s (pos n) =
    ((now.tv_nsec ≤ time.tv_nsec) × (nanoseconds now + (s * 1000000000 + n) ≡ nanoseconds time))
    ⊎ ((time.tv_nsec < now.tv_nsec)
        × (nanoseconds now + (s * 1000000000 + n) + 900000000 ≡ nanoseconds time))
Wakes now time s (negsuc n) = sectonsec + time.tv_nsec + n + 1 ≡ now.tv_nsec

-- The function is called once, after a sleep, and the memory released; or nothing of it is left.
abbrev pub Does : Bool → Bool → Timespec → Timespec → List Event → Type 0
Does memory thread now time events =
    ((nanoseconds now < nanoseconds time)
      × (memory ≡ true)
      × (thread ≡ true)
      × ((s : ℕ) × (n : ℤ) × (events ≡ allocated ∷ slept s n ∷ called ∷ freed ∷ [])
          × Wakes now time s n))
    ⊎ (((nanoseconds now < nanoseconds time)
          × (memory ≡ true)
          × (thread ≡ false)
          × (events ≡ allocated ∷ freed ∷ []))
        ⊎ (((nanoseconds time ≤ nanoseconds now) ⊎ (memory ≡ false)) × (events ≡ [])))

module _ (now time : Timespec) (now_ok : now.tv_nsec < 1000000000)
    (time_ok : time.tv_nsec < 1000000000) where
  is_later-nanoseconds : is_later time now ≡ true → nanoseconds now < nanoseconds time
  is_later-nanoseconds e = ground arith

  not_later : is_later time now ≡ false → nanoseconds time ≤ nanoseconds now
  not_later e = ground arith

  to_wait-Wakes : is_later time now ≡ true → let (s, n) = to_wait time now in Wakes now time s n
  to_wait-Wakes e = elim (Bool-cases (leb now.tv_nsec time.tv_nsec)) [
    | inl more ↦
        let h : now.tv_nsec ≤ time.tv_nsec = ground arith in
        let k : now.tv_sec ≤ time.tv_sec = ground arith in rw more (inl (h, omega (arith, h, k)))
    | inr less ↦
        let h : time.tv_nsec < now.tv_nsec = ground arith in
        let k : now.tv_sec < time.tv_sec = ground arith in
        elim (Bool-cases (leb now.tv_nsec (sectonsec + time.tv_nsec))) [
          | inl enough ↦
              let b : now.tv_nsec ≤ sectonsec + time.tv_nsec = ground arith in
              rw (less, enough) (inr (h, omega (arith, b, h, k)))
          | inr short ↦
              let b : sectonsec + time.tv_nsec < now.tv_nsec = ground arith in
              rw (less, short) (omega (arith, b))
        ]
  ]

  -- `timeout` with a time to come, memory and a thread has the function called once, after a sleep to that
  -- time if its nanoseconds are not below those of now, and else to 0.9 seconds before it or of a negative
  -- number of nanoseconds, and the memory released. In all other cases the function is not called, and no
  -- memory is left.
  pub timeout-Does :
      (memory thread : Bool) → Does memory thread now time (timeout memory thread now time)
  unfolding timeout
  timeout-Does memory thread = elim (Bool-cases (is_later time now)) [
    | inr past ↦ rw past (inr (inr (inl (not_later past), refl)))
    | inl future ↦ elim (Bool-cases memory) [
      | inr out ↦ rw (future, out) (inr (inr (inr refl, refl)))
      | inl room ↦ elim (Bool-cases thread) [
        | inl runs ↦
            let (s, n) = to_wait time now in
            rw (future, room, runs)
              (inl (is_later-nanoseconds future, refl, refl, (s, n, refl, to_wait-Wakes future)))
        | inr fails ↦
            rw (future, room, fails) (inr (inl (is_later-nanoseconds future, refl, refl, refl)))
      ]
    ]
  ]
