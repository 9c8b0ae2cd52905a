-- ===== src/Daemonize.antt =====
-- `daemonize` of my-src/Chapter-13/13-1.c, with the processes that it makes.
pub mod Daemon
pub mod Returns
mod Tests
use my_apue.Prelude.{
  ℕ, zero, suc, ◌+◌, Option, none, some, Bool, true, false, not, ◌||◌, List, [], ◌∷◌, ◌==◌,
  if◌then◌else◌,
}

-- What a descriptor is open on: /dev/null or another file.
pub data File : Type 0 where
  dev_null : File
  other : ℕ → File

abbrev pub Fds : Type 0
Fds = ℕ → Option File

-- The attributes that `daemonize` sets; `terminal` tells whether the session has a controlling terminal, and
-- the directory is a list of path components, none for /.
pub record Process : Type 0 where
  pub umask : ℕ
  pub session_leader : Bool
  pub terminal : Bool
  pub ignores_sighup : Bool
  pub directory : List (List ℕ)
  pub fds : Fds

-- What the calls do: the hard limit of descriptors, infinite as `some none`, the limit under which new
-- descriptors are, and which calls succeed.
pub record Calls : Type 0 where
  pub getrlimit : Option (Option ℕ)
  pub soft_limit : ℕ
  pub fork : Bool
  pub sigaction : Bool
  pub fork_2 : Bool
  pub chdir : Bool
  pub open_null : Bool

-- What becomes of a process: it exits with a status, or returns from the call.
pub data Fate : Type 0 where
  exits : ℕ → Fate
  goes_on : Process → Fate

abbrev pub set_fd : ℕ → Option File → Fds → Fds
set_fd fd file fds n = if n == fd then file else fds n

abbrev pub is_open : Option File → Bool
is_open none = false
is_open (some file) = true

-- The loop that closes the descriptors below a limit.
unfoldable pub close_below : ℕ → Fds → Fds
close_below zero fds = fds
close_below (suc m) fds = set_fd m none (close_below m fds)

-- The lowest descriptor that is free, from `fd` on, of `count`.
unfoldable pub lowest_free : ℕ → ℕ → Fds → Option ℕ
lowest_free zero fd fds = none
lowest_free (suc count) fd fds =
    let next = lowest_free count (suc fd) fds in if is_open (fds fd) then next else some fd

abbrev pub put_fd : Option ℕ → File → Fds → Option ℕ × Fds
put_fd none file fds = (none, fds)
put_fd (some fd) file fds = (some fd, set_fd fd (some file) fds)

-- A new descriptor on a file, where there is one.
unfoldable pub new_fd : ℕ → Option File → Fds → Option ℕ × Fds
unfolding lowest_free
new_fd limit none fds = (none, fds)
new_fd limit (some file) fds = put_fd (lowest_free limit 0 fds) file fds

abbrev pub is_fd : ℕ → Option ℕ → Bool
is_fd fd none = false
is_fd fd (some n) = n == fd

-- `rl.rlim_max`, 1024 in the place of infinity.
abbrev pub closed_limit : Option ℕ → ℕ
closed_limit none = 1024
closed_limit (some m) = m

-- /dev/null in the place of the standard descriptors.
unfoldable pub standard_fds : Calls → Process → Fate
unfolding new_fd
standard_fds c p =
    let (fd0, fds0) = new_fd c.soft_limit (if c.open_null then some dev_null else none) p.fds in
    let (fd1, fds1) = new_fd c.soft_limit (fds0 0) fds0 in
    let (fd2, fds2) = new_fd c.soft_limit (fds1 0) fds1 in
    if not (is_fd 0 fd0) || (not (is_fd 1 fd1) || not (is_fd 2 fd2))
    then exits 1
    else goes_on (record p { fds = fds2 })

-- What follows the second `fork`, in the process that goes on.
unfoldable pub after_forks : Calls → ℕ → Process → Fate
unfolding standard_fds close_below
after_forks c m p =
    let closed = record p { directory = []; fds = close_below m p.fds } in
    let rest = standard_fds c closed in if c.chdir then rest else exits 1

-- The fates of the caller, of its child and of the child's child, those of them that there are. The second
-- `fork` is followed by the exit of the new process, whose `pid` is 0.
unfoldable pub after_limit : Calls → Process → Option (Option ℕ) → List Fate
unfolding after_forks
after_limit c p none = exits 1 ∷ []
after_limit c p (some max) =
    let child = record p { umask = 0; session_leader = true; terminal = false } in
    let first = after_forks c (closed_limit max) (record child { ignores_sighup = true }) in
    if not c.fork
    then exits 1 ∷ []
    else if not c.sigaction
    then exits 0 ∷ exits 1 ∷ []
    else if not c.fork_2
    then exits 0 ∷ exits 1 ∷ []
    else exits 0 ∷ first ∷ exits 0 ∷ []

unfoldable pub daemonize : Calls → Process → List Fate
unfolding after_limit
daemonize c p = after_limit c p c.getrlimit
