-- ===== src/Popen/Roundtrip.antt =====
-- A stream of `my_popen` in my-src/Chapter-15/15-12.c, and its `my_pclose`.
use my_apue.Prelude.{
  ℕ, zero, suc, ◌<◌, ◌≡◌, refl, ap, ◌∙◌, none, some, Bool, true, false, ◌||◌, List, [], ◌∷◌, ltb,
  leb, if◌then◌else◌, get_elem?, set, arith, Bool-cases, inl, inr,
}
use my_apue.Prelude.Int.{ℤ}
use my_apue.Popen.{
  Fds, close, opened, Process, Kernel, reads, child_pipe, close_streams, stream, my_popen, Wait,
  reaped, interrupted, wait_failed, returned, wait_loop, my_pclose,
}

get-set :
    (xs : List ℕ) (i v : ℕ) {w : ℕ} → get_elem? xs i ≡ some w → get_elem? (set xs i v) i ≡ some v
get-set [] i v e = cc
get-set (x ∷ xs) zero v e = refl
get-set (x ∷ xs) (suc i) v e = get-set xs i v e

set-set : (xs : List ℕ) (i a b : ℕ) → set (set xs i a) i b ≡ set xs i b
set-set [] i a b = refl
set-set (x ∷ xs) zero a b = refl
set-set (x ∷ xs) (suc i) a b = ap (λ ys. x ∷ ys) (set-set xs i a b)

set_same : (xs : List ℕ) (i v : ℕ) → get_elem? xs i ≡ some v → set xs i v ≡ xs
set_same [] i v e = refl
set_same (x ∷ xs) zero v e = let is : v ≡ x = cc in ap (λ y. y ∷ xs) is
set_same (x ∷ xs) (suc i) v e = ap (λ ys. x ∷ ys) (set_same xs i v e)

-- "r" and "w"
abbrev pub type_of : Bool → List ℕ
type_of true = 114 ∷ []
type_of false = 119 ∷ []

reads-type_of : (reading : Bool) → reads (type_of reading) ≡ some reading
reads-type_of true = refl
reads-type_of false = refl

-- The child is interrupted a few times at most before it is reaped.
abbrev pub Reaps : ℤ → List Wait → Type 0
Reaps stat [] = ⊥
Reaps stat (reaped st ∷ rest) = st ≡ stat
Reaps stat (interrupted ∷ rest) = Reaps stat rest
Reaps stat (x ∷ rest) = ⊥

wait_loop-Reaps :
    (stat : ℤ) (waits : List Wait) (s : Process)
    → Reaps stat waits
    → wait_loop waits s ≡ returned stat s
unfolding wait_loop
wait_loop-Reaps stat [] s h = absurd h
wait_loop-Reaps stat (reaped st ∷ rest) s h = ap (λ x. returned x s) h
wait_loop-Reaps stat (interrupted ∷ rest) s h = wait_loop-Reaps stat rest s h
wait_loop-Reaps stat (wait_failed ∷ rest) s h = absurd h

abbrev pub mine : Bool → ℕ → ℕ → ℕ
mine reading p0 p1 = if reading then p0 else p1

abbrev pub theirs : Bool → ℕ → ℕ → ℕ
theirs reading p0 p1 = if reading then p1 else p0

module _ (pids : List ℕ) (m err : ℕ) (fds : Fds) (open_max id pid : ℕ) (calloc_ok reading : Bool)
    (p0 p1 : ℕ) where
  -- A process that has called `my_popen` before, and a kernel that serves another call.
  abbrev pub before : Process
  before = record { childpid = some pids; maxfd = m; errno = err; fds = fds }

  abbrev pub serving : Kernel
  serving = record {
    open_max = open_max;
    calloc_ok = calloc_ok;
    pipe = some (p0, p1);
    pipe_id = id;
    fork = some (suc pid);
    fdopen_ok = true;
  }

  abbrev pub between : Process
  between = record before {
    fds = close (theirs reading p0 p1) (opened id p0 p1 fds);
    childpid = some (set pids (mine reading p0 p1) (suc pid));
  }

  module _ (in_range : p0 < m) (in_range' : p1 < m) where
    pub my_popen-streams :
        my_popen serving (type_of reading) before
        ≡ stream
            (mine reading p0 p1)
            between
            (close_streams 0 pids (child_pipe reading p0 p1 (opened id p0 p1 fds)))
    unfolding my_popen
    my_popen-streams =
        let is_type : reads (type_of reading) ≡ some reading = reads-type_of reading in
        let room : (leb m p0 || leb m p1) ≡ false = ground arith in rw is_type (rw room)

    fds_back :
        fds p0 ≡ none
        → fds p1 ≡ none
        → (i : ℕ)
        → close (mine reading p0 p1) (close (theirs reading p0 p1) (opened id p0 p1 fds)) i ≡ fds i
    fds_back e e' i = elim (Bool-cases reading) [
      | inl r ↦ rw r (ground arith)
      | inr w ↦ rw w (ground arith)
    ]

    module _ (calm : ltb m (mine reading p0 p1) ≡ false)
        (empty : get_elem? pids (mine reading p0 p1) ≡ some 0) where
      my_pclose-between :
          (waits : ℕ → List Wait) (stat : ℤ)
          → Reaps stat (waits (suc pid))
          → my_pclose true waits (mine reading p0 p1) between
            ≡ returned stat (record between {
              childpid = some pids;
              fds = close (mine reading p0 p1) (close (theirs reading p0 p1) (opened id p0 p1 fds));
            })
      unfolding my_pclose
      my_pclose-between waits stat reaps = rw calm (
          rw (get-set pids (mine reading p0 p1) (suc pid) empty) (
            wait_loop-Reaps stat (waits (suc pid)) _ reaps
            ∙ ap
                (λ ps. returned stat (record between {
                  childpid = some ps;
                  fds =
                      close (mine reading p0 p1)
                        (close (theirs reading p0 p1) (opened id p0 p1 fds));
                }))
                (set-set pids (mine reading p0 p1) (suc pid) 0
                  ∙ set_same pids (mine reading p0 p1) 0 empty)))

    in_array : ltb m (mine reading p0 p1) ≡ false
    in_array = elim (Bool-cases reading) [
      | inl r ↦ rw r (ground arith)
      | inr w ↦ rw w (ground arith)
    ]

    -- `my_popen` with a pipe below `maxfd` on two descriptors that were not open, one of which has
    -- no entry in `childpid`, gives a stream on that end of the pipe. `my_pclose` of it waits for
    -- the child of this stream, interruptions aside, and returns its status; `childpid` and the
    -- descriptors of the process are then as before.
    pub my_pclose-my_popen :
        (waits : ℕ → List Wait) (stat : ℤ)
        → fds p0 ≡ none
        → fds p1 ≡ none
        → get_elem? pids (mine reading p0 p1) ≡ some 0
        → Reaps stat (waits (suc pid))
        → (s1 : Process) × (child : Fds) × (s2 : Process) × (my_popen serving
              (type_of reading)
              before
            ≡ stream (mine reading p0 p1) s1 child)
          × (my_pclose true waits (mine reading p0 p1) s1 ≡ returned stat s2)
          × (s2.childpid ≡ some pids)
          × ((i : ℕ) → s2.fds i ≡ fds i)
    my_pclose-my_popen waits stat free0 free1 empty reaps = (
      _,
      _,
      _,
      my_popen-streams,
      my_pclose-between in_array empty waits stat reaps,
      refl,
      fds_back free0 free1,
    )
