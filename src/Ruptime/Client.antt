-- ===== src/Ruptime/Client.antt =====
-- The client of my-src/Chapter-16/16-16.c.
use my_apue.Prelude.{ℕ, Option, none, some, List, [], ◌∷◌, ◌++◌, ◌==◌, if◌then◌else◌}
use my_apue.Prelude.Int.{pos, negsuc}
use my_apue.Ruptime.{Fds}
use my_apue.Ruptime.Connect.{Attempt, Connected, returned, unfinished, connect_retry}

-- What `recv` gives: bytes, none of them at the end, or an error.
pub data Recv : Type 0 where
  got : List ℕ → Recv
  recv_failed : Recv

-- The exit status, and what has been written to the standard output; or an empty fuel.
pub data Ran : Type 0 where
  exits : ℕ → List ℕ → Ran
  out_of_fuel : Ran

abbrev pub after_write : List ℕ → Ran → Ran
after_write cs (exits n out) = exits n (cs ++ out)
after_write cs out_of_fuel = out_of_fuel

-- `print_uptime` and the `exit` that follows it.
unfoldable pub print_uptime : List Recv → Ran
print_uptime [] = exits 0 []
print_uptime (recv_failed ∷ rs) = exits 1 []
print_uptime (got [] ∷ rs) = exits 0 []
print_uptime (got (c ∷ cs) ∷ rs) = after_write (c ∷ cs) (print_uptime rs)

-- An address of the list, with what comes of its attempts and what a connection receives.
pub record Address : Type 0 where
  pub attempt : ℕ → Attempt
  pub recvs : List Recv

-- What follows `connect_retry`: the next address, or the end of the program.
unfoldable pub after_connect : Connected → List Recv → (Fds → Ran) → Ran
after_connect unfinished recvs next = out_of_fuel
after_connect (returned (pos fd) waits fds) recvs next = print_uptime recvs
after_connect (returned (negsuc n) waits fds) recvs next = next fds

unfoldable pub try_addresses : ℕ → List Address → Fds → Ran
try_addresses fuel [] fds = exits 1 []
try_addresses fuel (a ∷ addresses) fds =
    after_connect (connect_retry fuel a.attempt fds) a.recvs
      (λ fds'. try_addresses fuel addresses fds')

-- The client with `argc` arguments, where `getaddrinfo` gives a list or an error.
unfoldable pub client_main : ℕ → ℕ → Option (List Address) → Fds → Ran
client_main fuel argc none fds = exits 1 []
client_main fuel argc (some addresses) fds =
    let run = try_addresses fuel addresses fds in if argc == 2 then run else exits 1 []
