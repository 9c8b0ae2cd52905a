-- ===== src/Ruptime/Forking/Tests.antt =====
-- Runs of the server of my-src/Chapter-16/16-18.c.
use my_apue.Prelude.{ℕ, ◌≡◌, refl, ap, none, some, true, false, List, [], ◌∷◌, ◌==◌, arith}
use my_apue.Daemonize
use my_apue.Daemonize.Daemon
use my_apue.Daemonize.Returns
use my_apue.Ruptime.{Fds, open_fd}
use my_apue.Ruptime.Service
use my_apue.Ruptime.Stream.{Text}
use my_apue.Ruptime.Server
use my_apue.Ruptime.Server.{qlen, Node, Host, server_main}
use my_apue.Ruptime.Main.{daemon_fds}
use my_apue.Ruptime.Forking.{
  Child, accept_failed, fork_failed, forked, waiting, exits, child_fds, serve,
}
use my_apue.Ruptime.Forking.Agree.{Client, turns_17, turns_18, streams}
use my_apue.Ruptime.Forking.Main.{ended, server, fork_main}
use my_apue.Ruptime.Forking.Mains.{mains_agree}

abbrev standard : Fds
standard n = n == 0

-- "up\n" on two connections.
abbrev two_clients : List Client
two_clients = (4, 117 ∷ 112 ∷ 10 ∷ []) ∷ (4, 117 ∷ 112 ∷ 10 ∷ []) ∷ []

abbrev shell : Daemonize.Process
shell = record {
  umask = 18;
  session_leader = false;
  terminal = true;
  ignores_sighup = false;
  directory = [];
  fds = λ n. none;
}

abbrev calls : Daemonize.Calls
calls = record {
  getrlimit = some none;
  soft_limit = 256;
  fork = true;
  sigaction = true;
  fork_2 = true;
  chdir = true;
  open_null = true;
}

abbrev calls_succeed : Returns.Succeeds calls none
calls_succeed = record {
  limits = refl;
  low = omega arith;
  high = omega arith;
  forks = refl;
  ignores = refl;
  forks_2 = refl;
  moves = refl;
  opens = refl;
}

abbrev good : Node
good n = record { socket = some 3; reuse = true; bind = true; listen = true }

abbrev host : Host
host = record { malloc = true; gethostname = λ b. b; getaddrinfo = some (good ∷ []) }

abbrev fds : Fds
fds = daemon_fds none shell

free_3 : fds 3 ≡ false
free_3 = ap Daemonize.is_open (Daemon.close_below-none 1024 shell.fds 3 (omega arith))

free_4 : open_fd 3 fds 4 ≡ false
free_4 = ap Daemonize.is_open (Daemon.close_below-none 1024 shell.fds 4 (omega arith))

up-Text : Text (117 ∷ 112 ∷ 10 ∷ [])
up-Text = (ground arith, (ground arith, (ground arith, tt)))

mains_agree_example :
    ((log : List (ℕ × List (List ℕ))) × (server_main 1 host calls shell (turns_17 two_clients)
        ≡ Server.ended 0
          ∷ Server.server 3 (some qlen) (Service.waiting (open_fd 3 fds) log)
          ∷ Server.ended 0
          ∷ [])
      × (streams log ≡ two_clients))
    × (fork_main 1 1 host calls shell (turns_18 two_clients)
        ≡ ended 0 ∷ server 3 (some qlen) (waiting 0 (open_fd 3 fds) two_clients) ∷ ended 0 ∷ [])
mains_agree_example =
    mains_agree host calls shell none good [] 3 two_clients refl refl refl calls_succeed
      (refl, refl) free_3 0 (free_4, up-Text, (free_4, up-Text, tt))

-- Without memory for the name no process is made.
no_memory : fork_main 1 1 (record host { malloc = false }) calls shell [] ≡ ended 1 ∷ []
unfolding fork_main
no_memory = refl

-- A child whose `execl` fails accepts the next client itself, while its parent waits for it.
abbrev no_exec : Child
no_exec = record { dup_output = true; dup_error = true; exec = none }

child_in_loop :
    serve (forked 4 no_exec ∷ []) [] standard ≡ waiting 1 (child_fds 4 standard) ((4, []) ∷ [])
unfolding serve
child_in_loop = refl

-- When the child then fails to `fork`, the parent goes on, with the descriptors that it had.
parent_goes_on :
    serve (forked 4 no_exec ∷ fork_failed 5 ∷ accept_failed ∷ []) [] standard
    ≡ exits 1 ((4, []) ∷ (5, []) ∷ [])
unfolding serve
parent_goes_on = refl
