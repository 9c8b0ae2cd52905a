-- ===== src/Ruptime/Tests.antt =====
-- Runs of the client and the servers of my-src/Chapter-16 (16-11.c, 16-12.c, 16-16.c to 16-18.c, 16-22.c).
use my_apue.Prelude.{
  ℕ, zero, suc, ◌≡◌, refl, ap, inl, inr, none, some, true, false, List, [], ◌∷◌, ◌==◌, arith,
}
use my_apue.Prelude.Int.{minus_one}
use my_apue.Daemonize
use my_apue.Daemonize.Daemon
use my_apue.Daemonize.Returns
use my_apue.Prelude.Bytes.{c_string}
use my_apue.Ruptime.{Fds, open_fd}
use my_apue.Ruptime.Connect.{Attempt, refused, connected}
use my_apue.Ruptime.Attempts.{New}
use my_apue.Ruptime.Service.{
  fgets, send_lines, send_uptime, prints, popen_failed, accept_failed, Turn, accepted, exits,
  waiting, serve,
}
use my_apue.Ruptime.Client.{got, Address, client_main}
use my_apue.Ruptime.Shows.{Shows, client_main-Shows}
use my_apue.Ruptime.Stream.{Text, Sends}
use my_apue.Ruptime.Server.{
  stream, bind_socket, init_server, Node, qlen, start, start_18, Host, ended, server, server_main,
}
use my_apue.Ruptime.Start.{starts_differ}
use my_apue.Ruptime.Main.{daemon_fds, server_main-Sends}

abbrev second : ℕ → Attempt
second zero = refused 3
second (suc n) = connected 3

abbrev standard_fds : Fds
standard_fds n = n == 0

second-New : (n : ℕ) → New standard_fds (second n)
second-New zero = refl
second-New (suc n) = refl

-- The output "up\n" in two pieces.
abbrev address : Address
address = record { attempt = second; recvs = got (117 ∷ []) ∷ got (112 ∷ 10 ∷ []) ∷ [] }

abbrev up : List ℕ
up = 117 ∷ 112 ∷ 10 ∷ []

up-Text : Text up
up-Text = (ground arith, (ground arith, (ground arith, tt)))

up_sent : send_uptime (prints up) ≡ some (up ∷ [])
unfolding send_uptime send_lines fgets c_string
up_sent = refl

client_main-Shows_example :
    Shows up (address ∷ []) (client_main 8 2 (some (address ∷ [])) standard_fds)
client_main-Shows_example =
    client_main-Shows 8 up up-Text (omega arith) standard_fds (address ∷ [])
      ((second-New, (up ∷ [], up_sent, (112 ∷ 10 ∷ [], refl, ([], refl, refl)))), tt)

abbrev good : Node
good n = record { socket = some 3; reuse = true; bind = true; listen = true }

abbrev bad : Node
bad n = record { socket = some 3; reuse = true; bind = false; listen = true }

starts_differ_example :
    (start (bad ∷ bad ∷ good ∷ []) 0 standard_fds ≡ start (good ∷ []) 2 standard_fds)
    × ((fuel : ℕ)
        → start_18 fuel (bad ∷ bad ∷ good ∷ []) (bad ∷ bad ∷ good ∷ []) 0 standard_fds ≡ none)
starts_differ_example =
    starts_differ bad bad (good ∷ []) standard_fds (inr refl) refl (λ n. inr refl) (λ n. refl)

abbrev host : Host
host = record { malloc = true; gethostname = λ b. b; getaddrinfo = some (bad ∷ good ∷ []) }

abbrev shell : Daemonize.Process
shell = record {
  umask = 18;
  session_leader = false;
  terminal = true;
  ignores_sighup = false;
  directory = [];
  fds = λ n. none;
}

abbrev calls : Daemonize.Calls
calls = record {
  getrlimit = some none;
  soft_limit = 256;
  fork = true;
  sigaction = true;
  fork_2 = true;
  chdir = true;
  open_null = true;
}

abbrev calls_succeed : Returns.Succeeds calls none
calls_succeed = record {
  limits = refl;
  low = omega arith;
  high = omega arith;
  forks = refl;
  ignores = refl;
  forks_2 = refl;
  moves = refl;
  opens = refl;
}

abbrev turns : List Turn
turns = accepted 4 (prints up) ∷ accepted 4 (prints up) ∷ []

abbrev fds : Fds
fds = daemon_fds none shell

free_3 : fds 3 ≡ false
free_3 = ap Daemonize.is_open (Daemon.close_below-none 1024 shell.fds 3 (omega arith))

free_4 : open_fd 3 fds 4 ≡ false
free_4 = ap Daemonize.is_open (Daemon.close_below-none 1024 shell.fds 4 (omega arith))

server_main-Sends_example :
    (log : List (ℕ × List (List ℕ))) × (server_main 1 host calls shell turns
      ≡ ended 0 ∷ server 3 (some qlen) (waiting (open_fd 3 fds) log) ∷ ended 0 ∷ [])
    × Sends turns log
server_main-Sends_example =
    server_main-Sends host calls shell none (bad ∷ good ∷ []) 3 turns refl refl calls_succeed
      (inr ((inr refl, free_3), inl ((refl, refl), free_3)))
      (free_4, up-Text, (free_4, up-Text, tt))

-- A failed `bind` closes the socket, in both versions.
init_failed : (init_server stream 10 (bad 0) (some 3) standard_fds).0 ≡ minus_one
unfolding init_server bind_socket
init_failed = refl

-- A client that the message of an error is sent to, and a failed `accept`.
last_client :
    serve (accepted 4 (popen_failed (33 ∷ [])) ∷ accept_failed ∷ []) standard_fds
    ≡ exits 1 ((4, (101 ∷ 114 ∷ 114 ∷ 111 ∷ 114 ∷ 58 ∷ 32 ∷ 33 ∷ 10 ∷ []) ∷ []) ∷ [])
unfolding serve send_uptime c_string
last_client = refl
