-- ===== src/Ruptime.antt =====
-- The remote uptime of my-src/Chapter-16: descriptors, and addresses, of its client and its servers.
pub mod Connect
pub mod Attempts
pub mod Client
pub mod Service
pub mod Server
pub mod Stream
pub mod Shows
pub mod Start
pub mod Main
pub mod Forking
mod Tests
use my_apue.Prelude.{ℕ, Bool, true, false, ◌==◌, if◌then◌else◌}

-- The descriptors of a process that are open.
abbrev pub Fds : Type 0
Fds = ℕ → Bool

abbrev pub open_fd : ℕ → Fds → Fds
open_fd fd fds n = if n == fd then true else fds n

abbrev pub close_fd : ℕ → Fds → Fds
close_fd fd fds n = if n == fd then false else fds n
