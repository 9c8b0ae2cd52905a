-- ===== src/Ruptime/Main.antt =====
-- `main` of my-src/Chapter-16/16-17.c: the host name, `daemonize` (my-src/Chapter-13/13-1.c), the addresses and the clients.
use my_apue.Prelude.{ℕ, ◌≡◌, ap, ◌∙◌, Option, some, true, List, [], ◌∷◌, map}
use my_apue.Daemonize
use my_apue.Daemonize.Returns
use my_apue.Ruptime.{Fds, open_fd}
use my_apue.Ruptime.Service.{Turn, waiting, serve}
use my_apue.Ruptime.Stream.{Prints, Sends, serve-Sends}
use my_apue.Ruptime.Server.{
  qlen, Node, Host, ended, server, after_start, run_server, run_fate, server_main,
}
use my_apue.Ruptime.Start.{FirstWorks, start-FirstWorks}

-- The descriptors that the daemon has open.
abbrev pub daemon_fds : Option ℕ → Daemonize.Process → Fds
daemon_fds max p n = Daemonize.is_open ((Returns.daemon (Daemonize.closed_limit max) p).fds n)

run_server-waits :
    (turns : List Turn) (fds : Fds) (addresses : List Node) (fd : ℕ)
    (log : List (ℕ × List (List ℕ)))
    → FirstWorks fds addresses 0 fd
    → serve turns (open_fd fd fds) ≡ waiting (open_fd fd fds) log
    → run_server (some addresses) turns fds ≡ server fd (some qlen) (waiting (open_fd fd fds) log)
run_server-waits turns fds addresses fd log works run =
    ap (after_start turns) (start-FirstWorks addresses 0 fd fds works)
    ∙ ap (server fd (some qlen)) run

-- When the host has a name and a list of addresses, every call of `daemonize` succeeds, and the first address
-- that works has a socket that was not open, then `main` without arguments ends in the caller and the second
-- child, and in the daemon it listens on this socket and sends to each client on a new descriptor, in order, the
-- text that `uptime` prints, and waits for the next with the daemon's descriptors and the socket, and no other.
pub server_main-Sends :
    (host : Host) (c : Daemonize.Calls) (p : Daemonize.Process) (max : Option ℕ)
    (addresses : List Node) (fd : ℕ) (turns : List Turn)
    → host.gethostname host.malloc ≡ true
    → host.getaddrinfo ≡ some addresses
    → Returns.Succeeds c max
    → FirstWorks (daemon_fds max p) addresses 0 fd
    → Prints (open_fd fd (daemon_fds max p)) turns
    → (log : List (ℕ × List (List ℕ))) × (server_main 1 host c p turns
        ≡ ended 0
          ∷ server fd (some qlen) (waiting (open_fd fd (daemon_fds max p)) log)
          ∷ ended 0
          ∷ [])
      × Sends turns log
unfolding server_main
server_main-Sends host c p max addresses fd turns named listed succeeds works prints =
    let (log, run, sends) = serve-Sends turns (open_fd fd (daemon_fds max p)) prints in
    let waits = run_server-waits turns (daemon_fds max p) addresses fd log works run in
    let daemons = ap (map (run_fate host turns)) (Returns.daemonize-goes_on c p max succeeds) in
    (
      log,
      (rw named (
          daemons
          ∙ ap (λ r. ended 0 ∷ r ∷ ended 0 ∷ [])
              (ap (λ l. run_server l turns (daemon_fds max p)) listed ∙ waits))),
      sends,
    )
