-- ===== src/Open/Csopen.antt =====
-- `csopen` of my-src/Chapter-17/open-2/17-25.c with the connection that it keeps, over `cli_conn` of 17-10.c and
-- `recv_fd` of 17-14.c.
pub mod Kept
mod Tests
use my_apue.Prelude.{
  Option, none, some, ◌==◌, ℕ, Bool, List, [], ◌∷◌, ◌++◌, leb, ◌≡◌, if◌then◌else◌, length, take,
  false,
}
use my_apue.Prelude.Int.{ℤ, pos, negsuc, minus_one, ◌==ℤ◌}
use my_apue.Open.Passing.{
  Recv, failed, received, Outcome, returned, recv_fd, scan, malformed, plain, ends,
}
use my_apue.Open.Request.{cs_open, csopen_request}
use my_apue.Open.Request.Text.{decimal}
use my_apue.Open.Connect.{World, Kernel, open_fd, cli_conn}
use my_apue.Open.Connect.Client.{IsNew}

-- The process: the static `csfd`, the descriptors and files, what has been written by descriptor, and the
-- descriptors that have come with messages.
pub record Caller : Type 0 where
  pub csfd : ℤ
  pub world : World
  pub sent : List (ℕ × List ℕ)
  pub got : List ℕ

-- A call, with what `writev` returns, whether `recv_fd` has memory, what `write` returns and what `recvmsg` does.
pub record Ask : Type 0 where
  pub kernel : Kernel
  pub name : List ℕ
  pub oflag : ℤ
  pub writev : ℤ
  pub control_ok : Bool
  pub user : List ℕ → ℤ
  pub arrivals : List Recv

-- The end of a call, or a number that `buf` has no room for.
pub data Asked : Type 0 where
  asked : Outcome → Caller → Asked
  overflow : Asked

-- What `recvmsg` installs of a message.
abbrev pub passed : Option ℕ → List ℕ
passed none = []
passed (some fd) = fd ∷ []

-- The descriptors of the messages that the loop of `recv_fd` receives, whether it returns them or not.
unfoldable pub installed : (List ℕ → ℤ) → List Recv → List ℕ
unfolding scan
installed user [] = []
installed user (failed ∷ rest) = []
installed user (received m ∷ rest) =
    let later = installed user rest in
    passed m.control
    ++ (if length m.bytes == 0 then [] else elim (scan m.bytes) [
      | malformed ↦ []
      | plain ↦ if user m.bytes ==ℤ pos (length m.bytes) then later else []
      | ends st ↦ []
    ])

-- Descriptors that are open from now on.
abbrev pub opens : List ℕ → Caller → Caller
opens [] s = s
opens (fd ∷ fds) s =
    let s' = opens fds s in record s' { world = open_fd fd s'.world; got = fd ∷ s'.got }

-- What `writev` puts on the connection.
abbrev pub wrote : ℤ → ℕ → List ℕ → Caller → Caller
wrote (pos n) fd request s = record s { sent = s.sent ++ (fd, take n request) ∷ [] }
wrote (negsuc e) fd request s = s

-- `char buf[12]`
abbrev buf_size : ℕ
buf_size = 12

abbrev pub send_request : Ask → ℕ → Caller → Asked
send_request a fd s =
    let request = csopen_request a.name a.oflag in
    let s' = wrote a.writev fd request s in
    let r = recv_fd a.control_ok a.user a.arrivals in
    if leb buf_size (length (32 ∷ decimal a.oflag))
    then overflow
    else (if a.writev ==ℤ pos (length request)
        then asked r (opens (if a.control_ok then installed a.user a.arrivals else []) s')
        else asked (returned minus_one []) s')

abbrev pub after_conn : Ask → ℤ × World → Caller → Asked
after_conn a (negsuc e, w) s =
    asked (returned minus_one []) (record s { csfd = negsuc e; world = w })
after_conn a (pos fd, w) s = send_request a fd (record s { csfd = pos fd; world = w })

-- By `csfd`.
abbrev pub on_csfd : Ask → ℤ → Caller → Asked
on_csfd a (pos fd) s = send_request a fd s
on_csfd a (negsuc e) s = after_conn a (cli_conn a.kernel cs_open s.world) s

unfoldable pub csopen : Ask → Caller → Asked
csopen a s = on_csfd a s.csfd s

abbrev pub begin_caller : World → Caller
begin_caller w = record { csfd = minus_one; world = w; sent = []; got = [] }

-- The states that calls in any number come to, when a new socket has a descriptor that was not open.
pub data Reached (w : World) : Caller → Type 0 where
  at_start : Reached w (begin_caller w)
  after_call :
      {s t : Caller} {r : Outcome}
      → Reached w s
      → (a : Ask) → IsNew s.world.open_fds a.kernel.socket
      → csopen a s ≡ asked r t
      → Reached w t
