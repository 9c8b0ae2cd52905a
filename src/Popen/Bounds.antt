-- ===== src/Popen/Bounds.antt =====
-- The index of `my_pclose` in my-src/Chapter-15/15-12.c, which is compared with `maxfd`.
use my_apue.Prelude.{
  ℕ, zero, suc, ◌<◌, ◌≡◌, refl, ap, ◌∙◌, ◌≢◌, ◌⊎◌, ◌==◌, Option, none, some, Bool, true, false,
  List, [], ◌∷◌, ltb, get_elem?, length, arith, Bool-cases, inl, inr,
}
use my_apue.Popen.{
  Fds, Process, Wait, reaped, interrupted, wait_failed, Pclosed, returned, out_of_bounds, waiting,
  wait_loop, pclose_entry, my_pclose,
}

get_elem?-length : (xs : List ℕ) → get_elem? xs (length xs) ≡ none
get_elem?-length [] = refl
get_elem?-length (x ∷ xs) = get_elem?-length xs

get_elem?-none : (xs : List ℕ) (i : ℕ) → i < length xs → get_elem? xs i ≢ none
get_elem?-none [] i h e = omega arith
get_elem?-none (x ∷ xs) zero h e = cc
get_elem?-none (x ∷ xs) (suc i) h e = get_elem?-none xs i (omega arith) e

-- No access outside `childpid`.
abbrev pub StaysInside : Pclosed → Type 0
StaysInside (returned r s) = Unit {0}
StaysInside out_of_bounds = ⊥
StaysInside waiting = Unit {0}

wait_loop-StaysInside : (waits : List Wait) (s : Process) → StaysInside (wait_loop waits s)
unfolding wait_loop
wait_loop-StaysInside [] s = tt
wait_loop-StaysInside (reaped stat ∷ rest) s = tt
wait_loop-StaysInside (interrupted ∷ rest) s = wait_loop-StaysInside rest s
wait_loop-StaysInside (wait_failed ∷ rest) s = tt

entry-StaysInside :
    (fclose_ok : Bool) (waits : ℕ → List Wait) (fd : ℕ) (entry : Option ℕ) (pids : List ℕ)
    (s : Process)
    → entry ≢ none
    → StaysInside (pclose_entry fclose_ok waits fd entry pids s)
entry-StaysInside fclose_ok waits fd none pids s h = absurd (h refl)
entry-StaysInside fclose_ok waits fd (some zero) pids s h = tt
entry-StaysInside true waits fd (some (suc p)) pids s h = wait_loop-StaysInside (waits (suc p)) _
entry-StaysInside false waits fd (some (suc p)) pids s h = tt

module _ (fclose_ok : Bool) (waits : ℕ → List Wait) (pids : List ℕ) (err : ℕ) (fds : Fds) where
  -- A process with its array, of `maxfd` entries.
  abbrev pub process : Process
  process = record { childpid = some pids; maxfd = length pids; errno = err; fds = fds }

  elsewhere : (fd : ℕ) → fd ≢ length pids → StaysInside (my_pclose fclose_ok waits fd process)
  unfolding my_pclose
  elsewhere fd ne = elim (Bool-cases (ltb (length pids) fd)) [
    | inl beyond ↦ rw beyond tt
    | inr within ↦ rw within (
        entry-StaysInside fclose_ok waits fd (get_elem? pids fd) pids process
          (get_elem?-none pids fd (ground arith)))
  ]

  at_end : (fd : ℕ) → fd ≡ length pids → my_pclose fclose_ok waits fd process ≡ out_of_bounds
  unfolding my_pclose
  at_end fd e =
      let within : ltb (length pids) fd ≡ false = ground arith in
      let behind : get_elem? pids fd ≡ none = ap (get_elem? pids) e ∙ get_elem?-length pids in
      rw within (rw behind)

  -- `my_pclose` of a stream stays inside `childpid` on every descriptor but one: on the descriptor
  -- `maxfd` itself it reads the entry behind the last.
  pub my_pclose_bounds :
      (fd : ℕ)
      → ((fd ≢ length pids) × StaysInside (my_pclose fclose_ok waits fd process))
        ⊎ ((fd ≡ length pids) × (my_pclose fclose_ok waits fd process ≡ out_of_bounds))
  my_pclose_bounds fd = elim (Bool-cases (fd == length pids)) [
    | inl same ↦ inr (ground arith, at_end fd (ground arith))
    | inr apart ↦ inl (ground arith, elsewhere fd (ground arith))
  ]
