-- ===== src/Open/Csopen/Tests.antt =====
-- Calls of `csopen` of my-src/Chapter-17/open-2/17-25.c: the server does not answer at the first, and does then.
use my_apue.Prelude.{◌≡◌, refl, none, some, true, false, [], ◌∷◌, length}
use my_apue.Prelude.Int.{pos, negsuc, minus_one}
use my_apue.Open.Passing.{received, scan, recv_loop, recv_fd}
use my_apue.Open.Request.{csopen_request}
use my_apue.Open.Request.Text.{digits, decimal}
use my_apue.Open.Connect.{World, gives, Kernel, cli_conn}
use my_apue.Open.Csopen.{
  Caller, Ask, Asked, asked, overflow, installed, csopen, begin_caller, Reached, at_start,
  after_call,
}
use my_apue.Open.Csopen.Kept.{KeepsOne, Reached-KeepsOne}

abbrev world : World
world = record { files = λ q. none; open_fds = λ i. false; errno = 0 }

abbrev calm : Kernel
calm = record {
  socket = gives 5;
  bind = none;
  chmod = none;
  connect = none;
  listen = none;
  after_close = 9;
  after_unlink = 2;
  unlink_ok = true;
  cleanup_ok = true;
  pid = 77;
  uid = 1000;
  bind_mode = 493;
  now = 100;
}

-- A call for the file "f", answered with descriptor 7.
abbrev ask : Ask
ask = record {
  kernel = calm;
  name = 102 ∷ [];
  oflag = pos 2;
  writev = pos 22;
  control_ok = true;
  user = λ t. pos (length t);
  arrivals = received (record { bytes = 0 ∷ 0 ∷ []; control = some 7 }) ∷ [];
}

abbrev refused : Ask
refused = record ask { kernel = record calm { connect = some 111 } }

abbrev caller_of : Asked → Caller
caller_of (asked r s) = s
caller_of overflow = begin_caller world

abbrev after_first : Caller
after_first = caller_of (csopen refused (begin_caller world))

abbrev after_second : Caller
after_second = caller_of (csopen ask after_first)

number_too_long : csopen (record ask { oflag = negsuc 2147483647 }) (begin_caller world) ≡ overflow
unfolding csopen cli_conn decimal digits recv_fd recv_loop scan installed
number_too_long = refl

first_fails : after_first.csfd ≡ negsuc 3
unfolding csopen cli_conn decimal digits
first_fails = refl

second_sends : after_second.sent ≡ (5, csopen_request (102 ∷ []) (pos 2)) ∷ []
unfolding csopen cli_conn decimal digits recv_fd recv_loop scan installed
second_sends = refl

second_receives : after_second.got ≡ 7 ∷ []
unfolding csopen cli_conn decimal digits recv_fd recv_loop scan installed
second_receives = refl

-- The user's function fails: -1 is returned, and the descriptor has come all the same.
abbrev unread : Ask
unread = record ask {
  user = λ t. minus_one;
  arrivals = received (record { bytes = 33 ∷ 0 ∷ 0 ∷ []; control = some 7 }) ∷ [];
}

leaked : (caller_of (csopen unread after_first)).got ≡ 7 ∷ []
unfolding csopen cli_conn decimal digits recv_fd recv_loop scan installed
leaked = refl

reached_second : Reached world after_second
unfolding csopen cli_conn decimal digits recv_fd recv_loop scan installed
reached_second = after_call (after_call at_start refused refl refl) ask refl refl

Reached-KeepsOne_example : KeepsOne world after_second.csfd after_second
Reached-KeepsOne_example = Reached-KeepsOne reached_second
