-- ===== src/Ruptime/Server.antt =====
-- The servers' start: `init_server` of my-src/Chapter-16/16-12.c and 16-22.c, and `main` of 16-17.c, with the
-- loop over the addresses as it is there and as it is in 16-18.c.
use my_apue.Prelude.{
  ℕ, zero, suc, Option, none, some, Bool, true, false, not, ◌&&◌, List, [], ◌∷◌, ◌==◌,
  if◌then◌else◌, map,
}
use my_apue.Prelude.Int.{ℤ, pos, negsuc, minus_one}
use my_apue.Daemonize
use my_apue.Ruptime.{Fds, open_fd, close_fd}
use my_apue.Ruptime.Service.{Turn, Serving, serve}

-- The types of sockets.
pub data SockType : Type 0 where
  stream : SockType
  seqpacket : SockType
  dgram : SockType

abbrev pub listens : SockType → Bool
listens stream = true
listens seqpacket = true
listens dgram = false

-- What the calls of `init_server` do.
pub record Setup : Type 0 where
  pub socket : Option ℕ
  pub reuse : Bool
  pub bind : Bool
  pub listen : Bool

-- The value that `init_server` returns, the length of the queue of the socket that listens, and the descriptors.
abbrev pub Init : Type 0
Init = ℤ × Option ℕ × Fds

abbrev pub errout : ℕ → Fds → Init
errout fd fds = (minus_one, none, close_fd fd fds)

-- From `bind` on, with a socket.
unfoldable pub bind_socket : SockType → ℕ → Setup → ℕ → Fds → Init
bind_socket type qlen c fd fds =
    if not c.bind
    then errout fd fds
    else if listens type && not c.listen
    then errout fd fds
    else (pos fd, (if listens type then some qlen else none), fds)

unfoldable pub init_server : SockType → ℕ → Setup → Option ℕ → Fds → Init
init_server type qlen c none fds = (minus_one, none, fds)
init_server type qlen c (some fd) fds = bind_socket type qlen c fd (open_fd fd fds)

-- The version of 16-22.c, whose queue has the length of the address.
unfoldable pub init_reusing : SockType → ℕ → Setup → Option ℕ → Fds → Init
init_reusing type alen c none fds = (minus_one, none, fds)
init_reusing type alen c (some fd) fds =
    let bound = bind_socket type alen c fd (open_fd fd fds) in
    if not c.reuse then errout fd (open_fd fd fds) else bound

-- The loop's end: a socket that listens, or no address left.
pub data Started : Type 0 where
  listening : ℕ → Option ℕ → Fds → Started
  no_address : Fds → Started

abbrev pub qlen : ℕ
qlen = 10

-- An address, with what the calls do with it in each turn of the loop.
abbrev pub Node : Type 0
Node = ℕ → Setup

abbrev pub init_node : Node → ℕ → Fds → Init
init_node a n fds = init_server stream qlen (a n) (a n).socket fds

-- The test `>= 0` of 16-17.c.
abbrev pub after_init : Init → (Fds → Started) → Started
after_init (pos fd, queue, fds) next = listening fd queue fds
after_init (negsuc n, queue, fds) next = next fds

-- The loop of 16-17.c, in turn `n`.
unfoldable pub start : List Node → ℕ → Fds → Started
start [] n fds = no_address fds
start (a ∷ addresses) n fds = after_init (init_node a n fds) (λ fds'. start addresses (suc n) fds')

-- The test `> 0` of 16-18.c.
abbrev pub after_init_18 : Init → (Fds → Option Started) → Option Started
after_init_18 (pos zero, queue, fds) next = next fds
after_init_18 (pos (suc fd), queue, fds) next = some (listening (suc fd) queue fds)
after_init_18 (negsuc n, queue, fds) next = next fds

abbrev pub tail : List Node → List Node
tail [] = []
tail (a ∷ addresses) = addresses

-- The loop of 16-18.c: `aip` is a node with those after it, and the next is always that after `ailist`; none
-- is an empty fuel.
unfoldable pub start_18 : ℕ → List Node → List Node → ℕ → Fds → Option Started
start_18 zero ailist aip n fds = none
start_18 (suc fuel) ailist [] n fds = some (no_address fds)
start_18 (suc fuel) ailist (a ∷ aip) n fds =
    after_init_18 (init_node a n fds) (λ fds'. start_18 fuel ailist (tail ailist) (suc n) fds')

-- What the calls of `main` before the loop do: `gethostname` gets the buffer, or a null pointer.
pub record Host : Type 0 where
  pub malloc : Bool
  pub gethostname : Bool → Bool
  pub getaddrinfo : Option (List Node)

-- The end of a process, or a server on a socket.
pub data Run : Type 0 where
  ended : ℕ → Run
  server : ℕ → Option ℕ → Serving → Run

abbrev pub after_start : List Turn → Started → Run
after_start turns (listening fd queue fds) = server fd queue (serve turns fds)
after_start turns (no_address fds) = ended 1

abbrev pub run_server : Option (List Node) → List Turn → Fds → Run
run_server none turns fds = ended 1
run_server (some addresses) turns fds = after_start turns (start addresses 0 fds)

-- The rest of `main` in a process that `daemonize` leaves.
abbrev pub run_fate : Host → List Turn → Daemonize.Fate → Run
run_fate host turns (Daemonize.exits n) = ended n
run_fate host turns (Daemonize.goes_on q) =
    run_server host.getaddrinfo turns (λ n. Daemonize.is_open (q.fds n))

-- `main` of 16-17.c with `argc` arguments: what becomes of each of its processes.
unfoldable pub server_main : ℕ → Host → Daemonize.Calls → Daemonize.Process → List Turn → List Run
server_main argc host c p turns =
    if not (argc == 1)
    then ended 1 ∷ []
    else if not (host.gethostname host.malloc)
    then ended 1 ∷ []
    else map (run_fate host turns) (Daemonize.daemonize c p)
