-- ===== src/Popen.antt =====
-- `my_popen` and `my_pclose` of my-src/Chapter-15/15-12.c.
pub mod Child
pub mod Roundtrip
pub mod Bounds
mod Tests
use my_apue.Prelude.{
  ℕ, zero, suc, ◌+◌, Option, none, some, Bool, true, false, not, ◌||◌, List, [], ◌∷◌, ltb, leb,
  ◌==◌, if◌then◌else◌, get_elem?, set, replicate,
}
use my_apue.Prelude.Int.{ℤ, pos, negsuc, minus_one}

-- What a descriptor stands for: an end of the pipe with a number, or another file.
pub data End : Type 0 where
  read_end : ℕ → End
  write_end : ℕ → End
  other : ℕ → End

abbrev pub Fds : Type 0
Fds = ℕ → Option End

abbrev pub close : ℕ → Fds → Fds
close fd fds = λ i. if i == fd then none else fds i

abbrev pub dup2 : ℕ → ℕ → Fds → Fds
dup2 from to fds = λ i. if i == to then fds from else fds i

abbrev pub opened : ℕ → ℕ → ℕ → Fds → Fds
opened id p0 p1 fds =
    λ i. if i == p0 then some (read_end id) else (if i == p1 then some (write_end id) else fds i)

-- `childpid`, NULL or an array with an entry of 0 for a descriptor without a stream, `maxfd`,
-- `errno`, and the descriptors of the process.
pub record Process : Type 0 where
  pub childpid : Option (List ℕ)
  pub maxfd : ℕ
  pub errno : ℕ
  pub fds : Fds

abbrev pub einval : ℕ
einval = 22

abbrev pub emfile : ℕ
emfile = 24

-- The answers of `open_max`, `calloc`, `pipe` with the number of the pipe, `fork`, and `fdopen`.
pub record Kernel : Type 0 where
  pub open_max : ℕ
  pub calloc_ok : Bool
  pub pipe : Option (ℕ × ℕ)
  pub pipe_id : ℕ
  pub fork : Option ℕ
  pub fdopen_ok : Bool

-- "r" is `true`, "w" is `false`.
abbrev pub reads : List ℕ → Option Bool
reads [] = none
reads (c ∷ []) = if c == 114 then some true else (if c == 119 then some false else none)
reads (c ∷ d ∷ rest) = none

-- The array of the first call.
abbrev pub prepare : Kernel → Option (List ℕ) → Process → Bool × Process
prepare kernel (some pids) s = (true, s)
prepare kernel none s =
    if kernel.calloc_ok
    then (true, record s { maxfd = kernel.open_max; childpid = some (replicate kernel.open_max 0) })
    else (false, record s { maxfd = kernel.open_max })

-- The child's end of the pipe in the place of its standard output or input.
unfoldable pub child_pipe : Bool → ℕ → ℕ → Fds → Fds
child_pipe true p0 p1 fds = if p1 == 1 then close p0 fds else close p1 (dup2 p1 1 (close p0 fds))
child_pipe false p0 p1 fds = if p0 == 0 then close p1 fds else close p0 (dup2 p0 0 (close p1 fds))

-- The child's loop over `childpid`, from index `i` on.
unfoldable pub close_streams : ℕ → List ℕ → Fds → Fds
close_streams i [] fds = fds
close_streams i (pid ∷ pids) fds =
    close_streams (suc i) pids (if ltb 0 pid then close i fds else fds)

abbrev pub pids_of : Option (List ℕ) → List ℕ
pids_of none = []
pids_of (some pids) = pids

-- NULL, or a stream on a descriptor, with the descriptors of the child at its `execl`.
pub data Popened : Type 0 where
  no_stream : Process → Popened
  stream : ℕ → Process → Fds → Popened

abbrev pub after_fork : Kernel → Bool → ℕ → ℕ → Option ℕ → Process → Popened
after_fork kernel reading p0 p1 none s = no_stream s
after_fork kernel reading p0 p1 (some pid) s =
    let mine = if reading then p0 else p1 in
    let theirs = if reading then p1 else p0 in
    let fds' = close theirs s.fds in
    if kernel.fdopen_ok
    then stream mine (record s { fds = fds'; childpid = some (set (pids_of s.childpid) mine pid) })
        (close_streams 0 (pids_of s.childpid) (child_pipe reading p0 p1 s.fds))
    else no_stream (record s { fds = fds' })

abbrev pub after_pipe : Kernel → Bool → Option (ℕ × ℕ) → Process → Popened
after_pipe kernel reading none s = no_stream s
after_pipe kernel reading (some (p0, p1)) s =
    let fds' = opened kernel.pipe_id p0 p1 s.fds in
    if leb s.maxfd p0 || leb s.maxfd p1
    then no_stream (record s { fds = close p1 (close p0 fds'); errno = emfile })
    else after_fork kernel reading p0 p1 kernel.fork (record s { fds = fds' })

abbrev pub after_type : Kernel → Option Bool → Process → Popened
after_type kernel none s = no_stream (record s { errno = einval })
after_type kernel (some reading) s =
    let (ok, s') = prepare kernel s.childpid s in
    if ok then after_pipe kernel reading kernel.pipe s' else no_stream s'

unfoldable pub my_popen : Kernel → List ℕ → Process → Popened
unfolding child_pipe close_streams
my_popen kernel type s = after_type kernel (reads type) s

-- The answers of `waitpid`: a status, EINTR, another error.
pub data Wait : Type 0 where
  reaped : ℤ → Wait
  interrupted : Wait
  wait_failed : Wait

-- A return, an access outside `childpid`, or a wait for a child that goes on.
pub data Pclosed : Type 0 where
  returned : ℤ → Process → Pclosed
  out_of_bounds : Pclosed
  waiting : Pclosed

unfoldable pub wait_loop : List Wait → Process → Pclosed
wait_loop [] s = waiting
wait_loop (reaped stat ∷ rest) s = returned stat s
wait_loop (interrupted ∷ rest) s = wait_loop rest s
wait_loop (wait_failed ∷ rest) s = returned minus_one s

-- By the entry of `childpid`.
abbrev pub pclose_entry : Bool → (ℕ → List Wait) → ℕ → Option ℕ → List ℕ → Process → Pclosed
pclose_entry fclose_ok waits fd none pids s = out_of_bounds
pclose_entry fclose_ok waits fd (some zero) pids s =
    returned minus_one (record s { errno = einval })
pclose_entry fclose_ok waits fd (some (suc p)) pids s =
    let s' : Process = record s { childpid = some (set pids fd 0); fds = close fd s.fds } in
    let ended = wait_loop (waits (suc p)) s' in if fclose_ok then ended else returned minus_one s'

abbrev pub pclose_array : Bool → (ℕ → List Wait) → ℕ → Option (List ℕ) → Process → Pclosed
pclose_array fclose_ok waits fd none s = returned minus_one (record s { errno = einval })
pclose_array fclose_ok waits fd (some pids) s =
    if ltb s.maxfd fd
    then returned minus_one (record s { errno = einval })
    else pclose_entry fclose_ok waits fd (get_elem? pids fd) pids s

-- `fd` is `fileno(fp)`; `waits` are the answers of `waitpid` for each process.
unfoldable pub my_pclose : Bool → (ℕ → List Wait) → ℕ → Process → Pclosed
unfolding wait_loop
my_pclose fclose_ok waits fd s = pclose_array fclose_ok waits fd s.childpid s
