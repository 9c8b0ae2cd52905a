-- ===== src/Ruptime/Forking/Main.antt =====
-- `main` of my-src/Chapter-16/16-18.c.
use my_apue.Prelude.{ℕ, Option, none, some, not, List, [], ◌∷◌, ◌==◌, if◌then◌else◌, map}
use my_apue.Daemonize
use my_apue.Ruptime.{Fds}
use my_apue.Ruptime.Server.{Node, Started, listening, no_address, start_18, Host}
use my_apue.Ruptime.Forking.{Turn, Serving, serve}

-- The end of a process, a server on a socket, or an empty fuel in the loop over the addresses.
pub data Run : Type 0 where
  ended : ℕ → Run
  server : ℕ → Option ℕ → Serving → Run
  searching : Run

abbrev pub after_start : List Turn → Option Started → Run
after_start turns none = searching
after_start turns (some (listening fd queue fds)) = server fd queue (serve turns [] fds)
after_start turns (some (no_address fds)) = ended 1

abbrev pub run_server : ℕ → Option (List Node) → List Turn → Fds → Run
run_server fuel none turns fds = ended 1
run_server fuel (some addresses) turns fds =
    after_start turns (start_18 fuel addresses addresses 0 fds)

-- The rest of `main` in a process that `daemonize` leaves.
abbrev pub run_fate : ℕ → Host → List Turn → Daemonize.Fate → Run
run_fate fuel host turns (Daemonize.exits n) = ended n
run_fate fuel host turns (Daemonize.goes_on q) =
    run_server fuel host.getaddrinfo turns (λ n. Daemonize.is_open (q.fds n))

-- A failed `gethostname` is only reported.
unfoldable pub fork_main : ℕ → ℕ → Host → Daemonize.Calls → Daemonize.Process → List Turn → List Run
fork_main fuel argc host c p turns =
    if not (argc == 1)
    then ended 1 ∷ []
    else if not host.malloc
    then ended 1 ∷ []
    else map (run_fate fuel host turns) (Daemonize.daemonize c p)
