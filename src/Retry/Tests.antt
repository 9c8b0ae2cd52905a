-- ===== src/Retry/Tests.antt =====
-- Runs of `connect_retry`, my-src/Chapter-16/16-10.c.
use my_apue.Prelude.{ℕ, ◌≡◌, refl, Bool, false, [], ◌∷◌, ◌==◌}
use my_apue.Prelude.Int.{pos, minus_one}
use my_apue.Retry.{returned, retry_loop, connect_retry}

abbrev at_third : ℕ → Bool
at_third k = k == 2

third : connect_retry 8 at_third ≡ returned (pos 0) (1 ∷ 2 ∷ [])
unfolding connect_retry retry_loop
third = refl

never : connect_retry 8 (λ k. false) ≡ returned minus_one (1 ∷ 2 ∷ 4 ∷ 8 ∷ 16 ∷ 32 ∷ 64 ∷ [])
unfolding connect_retry retry_loop
never = refl
