-- ===== src/Ruptime/Forking/Mains.antt =====
-- The servers of my-src/Chapter-16/16-17.c and 16-18.c from their start.
use my_apue.Prelude.{
  ℕ, zero, suc, ◌≡◌, refl, ap, ◌∙◌, inl, Option, some, true, false, List, [], ◌∷◌, map,
}
use my_apue.Daemonize
use my_apue.Daemonize.Returns
use my_apue.Ruptime.{Fds, open_fd}
use my_apue.Ruptime.Service
use my_apue.Ruptime.Server
use my_apue.Ruptime.Server.{qlen, Node, Host, listening, after_init_18, start_18, server_main}
use my_apue.Ruptime.Start.{Works, works-init}
use my_apue.Ruptime.Main.{daemon_fds, server_main-Sends}
use my_apue.Ruptime.Forking.{waiting}
use my_apue.Ruptime.Forking.Agree.{
  Client, turns_17, turns_18, streams, New, New-Prints, Sends-streams, serves_agree,
}
use my_apue.Ruptime.Forking.Main.{ended, server, after_start, run_server, run_fate, fork_main}

start_18-first :
    (fuel : ℕ) (a : Node) (addresses : List Node) (fd : ℕ) (fds : Fds)
    → Works (a 0) fd
    → fds 0 ≡ true
    → fds fd ≡ false
    → start_18 (suc fuel) (a ∷ addresses) (a ∷ addresses) 0 fds
      ≡ some (listening fd (some qlen) (open_fd fd fds))
unfolding start_18
start_18-first fuel a addresses zero fds good standard new = cc
start_18-first fuel a addresses (suc fd) fds good standard new =
    ap (λ r. after_init_18 r (λ fds'. start_18 fuel (a ∷ addresses) addresses 1 fds'))
      (works-init a 0 (suc fd) fds good new)

module _ (host : Host) (c : Daemonize.Calls) (p : Daemonize.Process) (max : Option ℕ) (a : Node)
    (addresses : List Node) (fd : ℕ) (clients : List Client) (memory : host.malloc ≡ true)
    (named : host.gethostname true ≡ true) (listed : host.getaddrinfo ≡ some (a ∷ addresses))
    (succeeds : Returns.Succeeds c max) (works : Works (a 0) fd)
    (free : daemon_fds max p fd ≡ false) where
  abbrev listening_fds : Fds
  listening_fds = open_fd fd (daemon_fds max p)

  forks :
      (fuel : ℕ)
      → New listening_fds clients
      → fork_main (suc fuel) 1 host c p (turns_18 clients)
        ≡ ended 0 ∷ server fd (some qlen) (waiting 0 listening_fds clients) ∷ ended 0 ∷ []
  unfolding fork_main
  forks fuel new =
      let serves = (serves_agree clients listening_fds new).1 in
      let starts = start_18-first fuel a addresses fd (daemon_fds max p) works refl free in
      rw memory (
        ap (map (run_fate (suc fuel) host (turns_18 clients)))
          (Returns.daemonize-goes_on c p max succeeds)
        ∙ ap (λ r. ended 0 ∷ r ∷ ended 0 ∷ [])
            (ap (λ l. run_server (suc fuel) l (turns_18 clients) (daemon_fds max p)) listed
              ∙ ap (after_start (turns_18 clients)) starts
              ∙ ap (server fd (some qlen)) serves))

  -- When every call of `daemonize` succeeds, the host has memory, a name and addresses of which the first works
  -- at once on a new socket, and clients come on new descriptors to an `uptime` that prints text, `main` of
  -- 16-17.c and that of 16-18.c with any fuel for its loop end in the caller and the second child, and both
  -- daemons listen on this socket, send each client, in order, what `uptime` prints, and wait for the next with
  -- the same descriptors open.
  pub mains_agree :
      (fuel : ℕ)
      → New listening_fds clients
      → ((log : List (ℕ × List (List ℕ))) × (server_main 1 host c p (turns_17 clients)
            ≡ Server.ended 0
              ∷ Server.server fd (some qlen) (Service.waiting listening_fds log)
              ∷ Server.ended 0
              ∷ [])
          × (streams log ≡ clients))
        × (fork_main (suc fuel) 1 host c p (turns_18 clients)
            ≡ ended 0 ∷ server fd (some qlen) (waiting 0 listening_fds clients) ∷ ended 0 ∷ [])
  mains_agree fuel new =
      let (log, run, sends) =
        server_main-Sends host c p max (a ∷ addresses) fd (turns_17 clients)
          (ap host.gethostname memory ∙ named) listed succeeds (inl (works, free))
          (New-Prints listening_fds clients new) in
      ((log, run, Sends-streams clients log sends), forks fuel new)
