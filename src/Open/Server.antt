-- ===== src/Open/Server.antt =====
-- `loop` of the open server, my-src/Chapter-17/open-2/17-29.c, over the client table of 17-27.c and the
-- requests of 17-31.c.
pub mod Entries
pub mod Laws
pub mod Scans
pub mod Rounds
pub mod Gone
pub mod Closes
mod Tests
use my_apue.Prelude.{
  ℕ, zero, suc, ◌+◌, Option, none, some, Bool, true, false, not, List, [], ◌∷◌, ◌++◌, ltb, ◌==◌,
  ◌≡◌, if◌then◌else◌, length, get_elem?,
}
use my_apue.Prelude.Int.{ℤ, pos, negsuc, minus_one}
use my_apue.Open.Passing.{Msg}
use my_apue.Open.Clients.{Client, Clients, entries, client_add, client_del}
use my_apue.Open.Request.{
  Globals, Kernel, Handled, answered, undefined_request, ended, stuck, handle_request,
}

-- `FD_SETSIZE`
abbrev pub fd_setsize : ℕ
fd_setsize = 1024

-- The variables of `loop` and the globals, the descriptors that the process has open, and what it has
-- sent, by client.
pub record Server : Type 0 where
  pub listenfd : ℕ
  pub clients : Clients
  pub allset : ℕ → Bool
  pub maxfd : ℕ
  pub maxi : ℤ
  pub globals : Globals
  pub open_fds : ℕ → Bool
  pub sent : List (ℕ × List Msg)

-- What the calls of one round return: whether `select` succeeds, `rset` after it, `serv_accept` with its
-- user, `client_add`'s memory, `read` by descriptor, where [] is the end of the file, the kernel
-- that a request meets, and the descriptor that the `log_msg` of the round opens for syslog, if it does.
pub record Answers : Type 0 where
  pub select_ok : Bool
  pub rset : ℕ → Bool
  pub accepted : ℤ
  pub uid : ℕ
  pub junk : Client
  pub memory : Bool
  pub read : ℕ → Option (List ℕ)
  pub kernel : ℕ → Kernel
  pub log_fd : Option ℕ

-- A round goes on, ends the process by `log_sys` and its kin, or is undefined behaviour: an index outside
-- `client`, a descriptor that an `fd_set` has no place for, or an undefined request. A round never ends `unfinished`.
pub data Round : Type 0 where
  goes : Server → Round
  quits : Round
  undefined : Round
  unfinished : Round

-- The number of indices from 0 to `maxi`.
abbrev pub count : ℤ → ℕ
count (pos i) = suc i
count (negsuc i) = 0

-- `FD_SET` or the opening of a descriptor, and its undoing.
abbrev pub with_fd : ℕ → (ℕ → Bool) → ℕ → Bool
with_fd n set fd = if fd == n then true else set fd

abbrev pub without_fd : ℕ → (ℕ → Bool) → ℕ → Bool
without_fd n set fd = if fd == n then false else set fd

-- The descriptors open after a `log_msg`.
abbrev pub opens : Option ℕ → (ℕ → Bool) → ℕ → Bool
opens none set fd = set fd
opens (some n) set fd = with_fd n set fd

abbrev pub logged : Answers → Server → Server
logged a s = record s { open_fds = opens a.log_fd s.open_fds }

abbrev pub added : Answers → ℕ → Option (ℕ × Clients) → Server → Round
added a clifd none s = quits
added a clifd (some (i, cs)) s =
    if ltb clifd fd_setsize
    then goes (
        logged a (record s {
          clients = cs;
          allset = with_fd clifd s.allset;
          open_fds = with_fd clifd s.open_fds;
          maxfd = if ltb s.maxfd clifd then clifd else s.maxfd;
          maxi = if ltb (count s.maxi) (suc i) then pos i else s.maxi;
        }))
    else undefined

-- Two scans are enough for `client_add`.
abbrev pub accept_client : Answers → ℤ → Server → Round
accept_client a (negsuc e) s = quits
accept_client a (pos clifd) s =
    added a clifd (client_add 2 a.junk a.memory (pos clifd) a.uid s.clients) s

-- `client_del`, `FD_CLR` and `close`.
abbrev pub dropped : ℕ → Option Clients → Server → Round
dropped clifd none s = quits
dropped clifd (some cs) s = goes (record s {
  clients = cs;
  allset = without_fd clifd s.allset;
  open_fds = without_fd clifd s.open_fds;
})

abbrev pub after_request : Answers → ℕ → Handled → Server → Round
after_request a clifd (answered msgs newfd g) s =
    goes (logged a (record s { globals = g; sent = s.sent ++ (clifd, msgs) ∷ [] }))
after_request a clifd undefined_request s = undefined
after_request a clifd ended s = quits
after_request a clifd stuck s = unfinished

abbrev pub serve_read : Answers → ℕ → ℕ → Option (List ℕ) → Server → Round
serve_read a clifd uid none s = quits
serve_read a clifd uid (some []) s = dropped clifd (client_del (pos clifd) s.clients) (logged a s)
serve_read a clifd uid (some (b ∷ bs)) s =
    after_request a clifd
      (handle_request (suc (length (b ∷ bs))) (a.kernel clifd) uid (b ∷ bs) s.globals) s

abbrev pub serve_fd : Answers → ℤ → ℕ → Server → Round
serve_fd a (negsuc e) uid s = goes s
serve_fd a (pos clifd) uid s =
    if a.rset clifd then serve_read a clifd uid (a.read clifd) s else goes s

abbrev pub serve_entry : Answers → Option Client → Server → Round
serve_entry a none s = undefined
serve_entry a (some c) s = serve_fd a c.fd c.uid s

-- The loop over `client`, `n` entries from index `i` on.
unfoldable pub scan_clients : Answers → ℕ → ℕ → Server → Round
unfolding client_del handle_request
scan_clients a zero i s = goes s
scan_clients a (suc n) i s = elim (serve_entry a (get_elem? (entries s.clients.client) i) s) [
  | goes s' ↦ scan_clients a n (suc i) s'
  | quits ↦ quits
  | undefined ↦ undefined
  | unfinished ↦ unfinished
]

unfoldable pub round : Answers → Server → Round
unfolding scan_clients client_add
round a s =
    if a.select_ok
    then (if a.rset s.listenfd
        then accept_client a a.accepted s
        else scan_clients a (count s.maxi) 0 s)
    else quits

-- The state before the first round; `others` are the descriptors open at the start.
abbrev pub begin_loop : ℕ → (ℕ → Bool) → Globals → Server
begin_loop listenfd others g = record {
  listenfd = listenfd;
  clients = record { client = none; client_size = 0 };
  allset = with_fd listenfd (λ fd. false);
  maxfd = listenfd;
  maxi = minus_one;
  globals = g;
  open_fds = with_fd listenfd others;
  sent = [];
}

-- `serv_accept` fails, or gives a descriptor that is not open.
abbrev pub IsFresh : Server → ℤ → Type 0
IsFresh s (pos fd) = s.open_fds fd ≡ false
IsFresh s (negsuc e) = Unit {0}

-- The states that `loop` comes to, when `serv_accept` gives descriptors that are not open.
pub data Reached (listenfd : ℕ) (others : ℕ → Bool) (g : Globals) : Server → Type 0 where
  at_start : Reached listenfd others g (begin_loop listenfd others g)
  after_round :
      {s t : Server}
      → Reached listenfd others g s
      → (a : Answers) → IsFresh s a.accepted
      → round a s ≡ goes t
      → Reached listenfd others g t
