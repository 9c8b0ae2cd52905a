-- ===== src/Open/Server/Tests.antt =====
-- Rounds of the open server, my-src/Chapter-17/open-2/17-29.c: a client connects on descriptor 5, and ends.
use my_apue.Prelude.{
  ℕ, ◌≡◌, refl, none, some, Bool, true, false, [], ◌∷◌, length, replicate, ◌==◌, ◌||◌, ◌++◌,
}
use my_apue.Prelude.Int.{pos, minus_one}
use my_apue.Open.Clients.{
  client_at, mark_free, client_alloc, take_free, add_loop, client_add, clear_fd, client_del,
}
use my_apue.Open.Request.{Globals, Kernel}
use my_apue.Open.Server.{
  Server, Answers, goes, round, scan_clients, begin_loop, with_fd, without_fd, Reached, at_start,
  after_round,
}
use my_apue.Open.Server.Rounds.{Keeps, Reached-Keeps}
use my_apue.Open.Server.Closes.{Closes, Reached-Closes}

abbrev at_first : Globals
at_first = record { errmsg = []; pathname = []; oflag = pos 0 }

abbrev any_kernel : Kernel
any_kernel = record {
  open_file = λ name flags. minus_one;
  strerror = [];
  writen = λ t. pos (length t);
  sendmsg = λ m. pos 0;
  control_ok = true;
}

abbrev standard : ℕ → Bool
standard fd = fd == 0 || (fd == 1 || fd == 2)

abbrev listening : Server
listening = begin_loop 3 standard at_first

-- A connection on descriptor 5; then the end of its file.
abbrev connect : Answers
connect = record {
  select_ok = true;
  rset = λ fd. fd == 3;
  accepted = pos 5;
  uid = 1000;
  junk = client_at (pos 77) 78;
  memory = true;
  read = λ fd. none;
  kernel = λ fd. any_kernel;
  log_fd = none;
}

abbrev leave : Answers
leave = record {
  select_ok = true;
  rset = λ fd. fd == 5;
  accepted = minus_one;
  uid = 0;
  junk = client_at (pos 77) 78;
  memory = true;
  read = λ fd. some [];
  kernel = λ fd. any_kernel;
  log_fd = none;
}

abbrev one_client : Server
one_client = record {
  listenfd = 3;
  clients = record {
    client = some (client_at (pos 5) 1000 ∷ replicate 9 (client_at minus_one 78));
    client_size = 10;
  };
  allset = with_fd 5 (with_fd 3 (λ fd. false));
  maxfd = 5;
  maxi = pos 0;
  globals = at_first;
  open_fds = with_fd 5 (with_fd 3 standard);
  sent = [];
}

connected : round connect listening ≡ goes one_client
unfolding round client_add add_loop client_alloc take_free mark_free
connected = refl

left :
    round leave one_client
    ≡ goes (record one_client {
      clients = record {
        client =
            some (replicate 1 (client_at minus_one 1000) ++ replicate 9 (client_at minus_one 78));
        client_size = 10;
      };
      allset = without_fd 5 (with_fd 5 (with_fd 3 (λ fd. false)));
      open_fds = without_fd 5 (with_fd 5 (with_fd 3 standard));
    })
unfolding round scan_clients client_del clear_fd
left = refl

one_client-Reached : Reached 3 standard at_first one_client
one_client-Reached = after_round at_start connect refl connected

Reached-Keeps_example : Keeps leave one_client (round leave one_client)
Reached-Keeps_example = Reached-Keeps one_client leave one_client-Reached tt

Reached-Closes_example : Closes leave one_client (round leave one_client)
Reached-Closes_example = Reached-Closes one_client leave one_client-Reached refl refl
