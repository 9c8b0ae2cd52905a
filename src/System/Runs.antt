-- ===== src/System/Runs.antt =====
-- The runs of `mysystem` (my-src/Chapter-10/10-26.c) and of `mysystem2` (10-28.c).
use my_apue.Prelude.{
  ℕ, zero, suc, ◌≡◌, refl, ap, ◌∙◌, none, some, true, false, List, ◌∷◌, ◌++◌, replicate, ◌==◌,
  if◌then◌else◌, arith,
}
use my_apue.Prelude.Int.{ℤ, minus_one}
use my_apue.System.{
  ignored, Signals, exec_signals, Wait, exited, interrupted, Calls, returned, wait_1, mysystem,
  wait_2, run_shell, with_ignored, with_blocked, mysystem2,
}

-- All calls succeed but `waitpid`.
pub record Succeeds (c : Calls) : Type 0 where
  pub ignores_int : c.ignore_int ≡ true
  pub ignores_quit : c.ignore_quit ≡ true
  pub blocks : c.block ≡ true
  pub forks : c.fork ≡ true
  pub restores_int : c.restore_int ≡ true
  pub restores_quit : c.restore_quit ≡ true
  pub restores_mask : c.restore_mask ≡ true

wait_2-interrupted :
    (n : ℕ) (status : ℤ) (later : List Wait)
    → wait_2 (replicate n interrupted ++ exited status ∷ later) ≡ some status
unfolding wait_2
wait_2-interrupted zero status later = refl
wait_2-interrupted (suc n) status later = wait_2-interrupted n status later

wait_1-interrupted :
    (n : ℕ) (status : ℤ) (later : List Wait)
    → wait_1 (replicate n interrupted ++ exited status ∷ later)
      ≡ some (if n == 0 then status else minus_one)
unfolding wait_1
wait_1-interrupted zero status later = refl
wait_1-interrupted (suc n) status later = let ne : (suc n == 0) ≡ false = ground arith in rw ne refl

-- The signals as `mysystem2` leaves them.
abbrev pub left_by_2 : Signals → Signals
left_by_2 s = record s { sigquit = s.sigint }

-- When all calls succeed and `waitpid` gives the status of the shell after being interrupted `n` times,
-- `mysystem2` returns the status, and the shell has started with the signals of the caller, but those that
-- the caller catches at their default; after it SIGINT and the mask are as before, and SIGQUIT is handled as
-- SIGINT. `mysystem` starts the shell with the same signals and leaves them as they were; it returns the status if `n` is 0, and -1 if not.
pub systems_agree :
    (c : Calls) (cmdstring : List ℕ) (s : Signals) (n : ℕ) (status : ℤ) (later : List Wait)
    → Succeeds c
    → c.waits ≡ replicate n interrupted ++ exited status ∷ later
    → (mysystem2 c (some cmdstring) s ≡ returned status (left_by_2 s) (some (exec_signals s)))
      × (mysystem c (some cmdstring) s
          ≡ returned (if n == 0 then status else minus_one) s (some (exec_signals s)))
unfolding mysystem mysystem2
systems_agree c cmdstring s n status later ok e =
    let reaped : wait_2 c.waits ≡ some status = ap wait_2 e ∙ wait_2-interrupted n status later in
    let reaped_1 : wait_1 c.waits ≡ some (if n == 0 then status else minus_one) =
      ap wait_1 e ∙ wait_1-interrupted n status later in
    (
      ap
            (λ b.
              if b
              then (if c.ignore_quit
                  then (if c.block
                      then run_shell c s (with_blocked (with_ignored s))
                      else returned minus_one (with_ignored s) none)
                  else returned minus_one (record s { sigint = ignored }) none)
              else returned minus_one s none)
            ok.ignores_int
          ∙ rw (ok.ignores_quit, ok.blocks, ok.forks)
              (rw reaped (rw (ok.restores_int, ok.restores_quit, ok.restores_mask) refl)),
      rw ok.forks (rw reaped_1 refl),
    )
