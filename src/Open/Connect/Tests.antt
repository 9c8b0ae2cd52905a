-- ===== src/Open/Connect/Tests.antt =====
-- Runs of my-src/Chapter-17/17-8.c, 17-9.c and 17-10.c: process 77 of user 1000 connects.
use my_apue.Prelude.{ℕ, ◌≡◌, ◌⊎◌, refl, none, some, true, false, List, arith, replicate}
use my_apue.Prelude.Int.{pos}
use my_apue.Open.Request.{cs_open}
use my_apue.Open.Connect.{
  World, gives, Kernel, Accepting, cli_path, cli_conn, serv_accept, unlink, open_fd,
}
use my_apue.Open.Connect.Client.{ConnEnds, cli_conn-ConnEnds}
use my_apue.Open.Connect.Server.{LetIn, TurnedAway, serv_accept-LetIn, serv_accept-cli_conn}

abbrev world : World
world = record { files = λ q. none; open_fds = λ i. false; errno = 0 }

abbrev calm : Kernel
calm = record {
  socket = gives 5;
  bind = none;
  chmod = none;
  connect = none;
  listen = none;
  after_close = 9;
  after_unlink = 2;
  unlink_ok = true;
  cleanup_ok = true;
  pid = 77;
  uid = 1000;
  bind_mode = 493;
  now = 100;
}

-- The server does not answer.
abbrev refusing : Kernel
refusing = record calm { connect = some 111 }

abbrev accepting_77 : Accepting
accepting_77 = record {
  malloc_ok = true;
  accept = gives 8;
  peer = cli_path 77;
  stat_errno = 2;
  time = 110;
}

cli_conn-ConnEnds_example : ConnEnds refusing world (some 111) (cli_conn refusing cs_open world)
cli_conn-ConnEnds_example = cli_conn-ConnEnds refusing cs_open world (omega arith) refl

serv_accept-LetIn_example :
    LetIn calm accepting_77 world 8 (serv_accept calm accepting_77 world)
    ⊎ TurnedAway world (serv_accept calm accepting_77 world)
serv_accept-LetIn_example = serv_accept-LetIn calm accepting_77 world refl

serv_accept-cli_conn_example :
    let (r, w') = cli_conn calm cs_open world in
    (r ≡ pos 5)
    × (serv_accept calm accepting_77 w'
        ≡ (pos 8, some 1000, unlink calm true (cli_path 77) (open_fd 8 w')))
serv_accept-cli_conn_example =
    serv_accept-cli_conn calm calm accepting_77 cs_open world 8 (omega arith) refl refl refl refl
      refl (omega arith) (omega arith)

abbrev long_name : List ℕ
long_name = replicate 108 97
