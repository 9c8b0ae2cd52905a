-- ===== src/Popen/Child.antt =====
-- The descriptors of the child of `my_popen` in my-src/Chapter-15/15-12.c when it starts the shell.
use my_apue.Prelude.{
  ℕ, zero, suc, ◌+◌, ◌<◌, ◌≡◌, refl, sym, ap, ◌∙◌, ◌≢◌, ◌⊎◌, none, some, Bool, true, false, List,
  [], ◌∷◌, ltb, if◌then◌else◌, get_elem?, arith, inl, inr,
}
use my_apue.Popen.{
  End, read_end, write_end, Fds, close, opened, Process, child_pipe, close_streams, stream,
  my_popen,
}
use my_apue.Popen.Roundtrip.{type_of, mine, before, serving, my_popen-streams}

close_streams_below :
    (k : ℕ) (pids : List ℕ) (fds : Fds) (i : ℕ) → i < k → close_streams k pids fds i ≡ fds i
unfolding close_streams
close_streams_below k [] fds i h = refl
close_streams_below k (pid ∷ pids) fds i h =
    close_streams_below (suc k) pids (if ltb 0 pid then close k fds else fds) i (omega arith)
    ∙ ground arith

close_streams_closed :
    (k : ℕ) (pids : List ℕ) (fds : Fds) (j q : ℕ)
    → get_elem? pids j ≡ some (suc q)
    → close_streams k pids fds (k + j) ≡ none
unfolding close_streams
close_streams_closed k [] fds j q e = cc
close_streams_closed k (pid ∷ pids) fds zero q e =
    close_streams_below (suc k) pids (if ltb 0 pid then close k fds else fds) (k + 0) (omega arith)
    ∙ ground arith
close_streams_closed k (pid ∷ pids) fds (suc j) q e =
    let at : k + suc j ≡ suc k + j = omega arith in
    ap (close_streams (suc k) pids (if ltb 0 pid then close k fds else fds)) at
    ∙ close_streams_closed (suc k) pids (if ltb 0 pid then close k fds else fds) j q e

close_streams_kept :
    (k : ℕ) (pids : List ℕ) (fds : Fds) (j : ℕ)
    → get_elem? pids j ≡ some 0
    → close_streams k pids fds (k + j) ≡ fds (k + j)
unfolding close_streams
close_streams_kept k [] fds j e = refl
close_streams_kept k (pid ∷ pids) fds zero e =
    close_streams_below (suc k) pids (if ltb 0 pid then close k fds else fds) (k + 0) (omega arith)
    ∙ ground arith
close_streams_kept k (pid ∷ pids) fds (suc j) e =
    let at : k + suc j ≡ suc k + j = omega arith in
    ap (close_streams (suc k) pids (if ltb 0 pid then close k fds else fds)) at
    ∙ close_streams_kept (suc k) pids (if ltb 0 pid then close k fds else fds) j e
    ∙ ground arith

from_start_closed :
    (pids : List ℕ) (fds : Fds) (j q : ℕ)
    → get_elem? pids j ≡ some (suc q)
    → close_streams 0 pids fds j ≡ none
from_start_closed pids fds j q e =
    let at : j ≡ 0 + j = omega arith in
    ap (close_streams 0 pids fds) at ∙ close_streams_closed 0 pids fds j q e

from_start_kept :
    (pids : List ℕ) (fds : Fds) (j : ℕ)
    → get_elem? pids j ≡ some 0
    → close_streams 0 pids fds j ≡ fds j
from_start_kept pids fds j e =
    let at : j ≡ 0 + j = omega arith in
    ap (close_streams 0 pids fds) at ∙ close_streams_kept 0 pids fds j e ∙ ap fds (sym at)

-- The standard descriptor that the child gets the pipe for, and the end of the pipe.
abbrev pub std : Bool → ℕ
std true = 1
std false = 0

abbrev pub end_of : Bool → ℕ → End
end_of true id = write_end id
end_of false id = read_end id

module _ (id p0 p1 : ℕ) (fds : Fds) (apart : p0 ≢ p1) where
  child_pipe-std :
      (reading : Bool)
      → child_pipe reading p0 p1 (opened id p0 p1 fds) (std reading) ≡ some (end_of reading id)
  unfolding child_pipe
  child_pipe-std true = ground arith
  child_pipe-std false = ground arith

  child_pipe_ends :
      (reading : Bool) (i : ℕ)
      → std reading ≢ i
      → (i ≡ p0) ⊎ (i ≡ p1)
      → child_pipe reading p0 p1 (opened id p0 p1 fds) i ≡ none
  unfolding child_pipe
  child_pipe_ends true i ne (inl e) = ground arith
  child_pipe_ends true i ne (inr e) = ground arith
  child_pipe_ends false i ne (inl e) = ground arith
  child_pipe_ends false i ne (inr e) = ground arith

  child_pipe_others :
      (reading : Bool) (i : ℕ)
      → std reading ≢ i
      → i ≢ p0
      → i ≢ p1
      → child_pipe reading p0 p1 (opened id p0 p1 fds) i ≡ fds i
  unfolding child_pipe
  child_pipe_others true i ne ne0 ne1 = ground arith
  child_pipe_others false i ne ne0 ne1 = ground arith

-- What the shell of `my_popen` finds: the pipe in the place of its standard output or input, neither
-- end of the pipe anywhere else, no stream of an earlier `my_popen`, and all else as in the parent.
pub record ShellFds (reading : Bool) (id p0 p1 : ℕ) (pids : List ℕ) (fds child : Fds) : Type 0 where
  pub piped : child (std reading) ≡ some (end_of reading id)
  pub ends : (i : ℕ) → std reading ≢ i → (i ≡ p0) ⊎ (i ≡ p1) → child i ≡ none
  pub streams : (i q : ℕ) → get_elem? pids i ≡ some (suc q) → child i ≡ none
  pub others :
      (i : ℕ) → std reading ≢ i → i ≢ p0 → i ≢ p1 → get_elem? pids i ≡ some 0 → child i ≡ fds i

module _ (pids : List ℕ) (m err : ℕ) (fds : Fds) (open_max id pid : ℕ) (calloc_ok reading : Bool)
    (p0 p1 : ℕ) where
  no_entry :
      get_elem? pids p0 ≡ some 0
      → get_elem? pids p1 ≡ some 0
      → (i : ℕ) → (i ≡ p0) ⊎ (i ≡ p1)
      → get_elem? pids i ≡ some 0
  no_entry no0 no1 i (inl e) = ap (get_elem? pids) e ∙ no0
  no_entry no0 no1 i (inr e) = ap (get_elem? pids) e ∙ no1

  shell :
      p0 ≢ p1
      → get_elem? pids (std reading) ≡ some 0
      → get_elem? pids p0 ≡ some 0
      → get_elem? pids p1 ≡ some 0
      → ShellFds reading id p0 p1 pids fds
          (close_streams 0 pids (child_pipe reading p0 p1 (opened id p0 p1 fds)))
  shell apart no_std no0 no1 =
      let inherited : Fds = child_pipe reading p0 p1 (opened id p0 p1 fds) in
      record {
        piped =
            from_start_kept pids inherited (std reading) no_std
            ∙ child_pipe-std id p0 p1 fds apart reading;
        ends = λ i ne e.
            from_start_kept pids inherited i (no_entry no0 no1 i e)
            ∙ child_pipe_ends id p0 p1 fds apart reading i ne e;
        streams = λ i q e. from_start_closed pids inherited i q e;
        others = λ i ne ne0 ne1 e.
            from_start_kept pids inherited i e
            ∙ child_pipe_others id p0 p1 fds apart reading i ne ne0 ne1;
      }

  -- When the pipe is below `maxfd`, no earlier stream is on the standard descriptor in question or on
  -- the pipe's, the child of `my_popen` comes to its shell with these descriptors.
  pub my_popen-ShellFds :
      p0 < m
      → p1 < m
      → p0 ≢ p1
      → get_elem? pids (std reading) ≡ some 0
      → get_elem? pids p0 ≡ some 0
      → get_elem? pids p1 ≡ some 0
      → (s1 : Process) × (child : Fds) × (my_popen
            (serving pids m err fds open_max id pid calloc_ok reading p0 p1)
            (type_of reading)
            (before pids m err fds open_max id pid calloc_ok reading p0 p1)
          ≡ stream (mine reading p0 p1) s1 child)
        × ShellFds reading id p0 p1 pids fds child
  my_popen-ShellFds in0 in1 apart no_std no0 no1 = (
    _,
    _,
    my_popen-streams pids m err fds open_max id pid calloc_ok reading p0 p1 in0 in1,
    shell apart no_std no0 no1,
  )
