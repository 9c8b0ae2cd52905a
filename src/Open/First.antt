-- ===== src/Open/First.antt =====
-- The first version of the open server, my-src/Chapter-17/open-1: the server (17-21.c, 17-22.c, 17-24.c)
-- is a child of its client (17-18.c, 17-19.c), and a pipe of two ways joins them. `buf_args` is that of the
-- second version.
pub mod Answers
pub mod Asks
pub mod Lines
pub mod Session
pub mod Start
mod Tests
use my_apue.Prelude.{
  ℕ, zero, suc, ◌+◌, ◌-◌, Option, none, some, Bool, true, false, not, List, [], ◌∷◌, ◌++◌, ltb,
  ◌==◌, if◌then◌else◌, length, take, drop, replicate,
}
use my_apue.Prelude.Bytes.{c_string, same_bytes, byte_at}
use my_apue.Prelude.Int.{ℤ, pos, negsuc, minus_one, ◌==ℤ◌, is_neg}
use my_apue.Popen.{Fds, close, dup2, opened}
use my_apue.Open.Passing.{Msg, send_fd, send_err, Recv, Outcome, recv_fd}
use my_apue.Open.Request.Text.{decimal, atoi, in_int}
use my_apue.Open.Request.{
  maxline, buf_args, Parsed, refused, parsed, unfinished, Globals, usage, Kernel, Handled, answered,
  undefined_request, ended, stuck, answer_error, cannot_open, ends_in_null,
}

-- "open"
abbrev pub cl_open : List ℕ
cl_open = 111 ∷ 112 ∷ 101 ∷ 110 ∷ []

unfoldable pub cli_args : List (List ℕ) → Globals → ℤ × Globals
cli_args [] g = (minus_one, record g { errmsg = usage })
cli_args (command ∷ []) g = (minus_one, record g { errmsg = usage })
cli_args (command ∷ path ∷ []) g = (minus_one, record g { errmsg = usage })
cli_args (command ∷ path ∷ flags ∷ []) g =
    if same_bytes command cl_open
    then (pos 0, record g { pathname = path; oflag = atoi flags })
    else (minus_one, record g { errmsg = usage })
cli_args (command ∷ path ∷ flags ∷ more ∷ rest) g = (minus_one, record g { errmsg = usage })

-- `buf_args(buf, cli_args)`
abbrev pub run_cli_args : Parsed → Globals → Option (ℤ × Globals)
run_cli_args refused g = some (minus_one, g)
run_cli_args (parsed argv) g = some (cli_args argv g)
run_cli_args unfinished g = none

-- "request not nullterminated: %*.*s\n", cut to the buffer.
abbrev pub not_terminated : List ℕ → List ℕ
not_terminated bytes =
    let text = c_string bytes in
    take (maxline - 2) (
      (114 ∷ 101 ∷ 113 ∷ 117 ∷ 101 ∷ 115 ∷ 116 ∷ 32 ∷ 110 ∷ 111 ∷ 116 ∷ 32 ∷ 110 ∷ 117 ∷ 108 ∷ 108
        ∷ 116 ∷ 101 ∷ 114 ∷ 109 ∷ 105 ∷ 110 ∷ 97 ∷ 116 ∷ 101 ∷ 100 ∷ 58 ∷ 32 ∷ [])
      ++ replicate (length bytes - length text) 32
      ++ text
      ++ 10 ∷ [])

-- A descriptor that cannot be sent is only reported; it is closed all the same.
abbrev pub open_and_send : Kernel → Globals → Handled
open_and_send kernel g =
    let newfd = kernel.open_file g.pathname g.oflag in
    if is_neg newfd
    then answer_error kernel (record g { errmsg = cannot_open g.pathname kernel.strerror })
    else answered (send_fd kernel.control_ok kernel.sendmsg newfd).1 (some newfd) g

abbrev pub open_in_int : Kernel → Globals → Handled
open_in_int kernel g = if in_int g.oflag then open_and_send kernel g else undefined_request

abbrev pub after_args : Kernel → Option (ℤ × Globals) → Handled
after_args kernel none = stuck
after_args kernel (some (r, g)) = if is_neg r then answer_error kernel g else open_in_int kernel g

-- `bytes` are the `nread` bytes read from the client.
unfoldable pub handle_request : ℕ → Kernel → List ℕ → Globals → Handled
unfolding buf_args cli_args
handle_request fuel kernel bytes g =
    if ends_in_null bytes
    then after_args kernel (run_cli_args (buf_args fuel (c_string bytes)) g)
    else answer_error kernel (record g { errmsg = not_terminated bytes })

-- How the server is after the reads it got: at `exit(0)`, with the messages that answered each request, at
-- an end by `err_sys`, in its next `read`, past a request that is undefined behaviour, or without fuel in `buf_args`, which does not happen.
pub data Served : Type 0 where
  exited : List (List Msg) → Served
  errored : List (List Msg) → Served
  reading : List (List Msg) → Globals → Served
  undefined : Served
  no_fuel : Served

-- What the `read`s of at most `MAXLINE` bytes return of what comes in the pipe: `none` is an error, [] the
-- end of the pipe; what is more than a read takes is left to the next.
unfoldable pub read_pieces : ℕ → List ℕ → List (Option (List ℕ))
read_pieces zero bytes = some bytes ∷ []
read_pieces (suc fuel) bytes =
    let rest = read_pieces fuel (drop maxline bytes) in
    if ltb maxline (length bytes) then some (take maxline bytes) ∷ rest else some bytes ∷ []

unfoldable pub read_all : List (Option (List ℕ)) → List (Option (List ℕ))
unfolding read_pieces
read_all [] = []
read_all (none ∷ arrivals) = none ∷ read_all arrivals
read_all (some bytes ∷ arrivals) = read_pieces (length bytes) bytes ++ read_all arrivals

-- The loop of `main` of the server, on what each `read` returns.
unfoldable pub serve_loop : Kernel → List (Option (List ℕ)) → List (List Msg) → Globals → Served
unfolding handle_request
serve_loop kernel [] sent g = reading sent g
serve_loop kernel (none ∷ reads) sent g = errored sent
serve_loop kernel (some [] ∷ reads) sent g = exited sent
serve_loop kernel (some (b ∷ bs) ∷ reads) sent g =
    elim (handle_request (suc (length (b ∷ bs))) kernel (b ∷ bs) g) [
      | answered msgs newfd g' ↦ serve_loop kernel reads (sent ++ msgs ∷ []) g'
      | undefined_request ↦ undefined
      | ended ↦ errored sent
      | stuck ↦ no_fuel
    ]

-- `main` of the server, on what comes in the pipe before each of its reads.
unfoldable pub serve : Kernel → List (Option (List ℕ)) → List (List Msg) → Globals → Served
unfolding read_all serve_loop
serve kernel arrivals sent g = serve_loop kernel (read_all arrivals) sent g

-- What `csopen` writes with `writev`.
abbrev pub csopen_request : List ℕ → ℤ → List ℕ
csopen_request name oflag = (cl_open ++ 32 ∷ []) ++ (name ++ ((32 ∷ decimal oflag) ++ 0 ∷ []))

-- The static `fd` of `csopen`, -1 and -1 at first.
pub record Link : Type 0 where
  pub fd_0 : ℤ
  pub fd_1 : ℤ

-- The answers of `fd_pipe`, with a number for the pipe, and of `fork`.
pub record Launch : Type 0 where
  pub pipe : Option (ℕ × ℕ)
  pub pipe_id : ℕ
  pub fork_ok : Bool

-- The descriptors of the child at its `execl`.
unfoldable pub server_fds : ℕ → ℕ → Fds → Fds
server_fds p0 p1 fds =
    let closed = close p0 fds in
    let with_input = if p1 == 0 then closed else dup2 p1 0 closed in
    if p1 == 1 then with_input else dup2 p1 1 with_input

-- What comes of the start of the server: -1 and the `fd` left; or `fd`, the descriptors of the client, and
-- those of the server if one was started.
pub data Launched : Type 0 where
  not_launched : Link → Fds → Launched
  launched : Link → Fds → Option Fds → Launched

abbrev pub after_pipe : Launch → Option (ℕ × ℕ) → Link → Fds → Launched
after_pipe l none link fds = not_launched link fds
after_pipe l (some (p0, p1)) link fds =
    let both = opened l.pipe_id p0 p1 fds in
    let link' : Link = record { fd_0 = pos p0; fd_1 = pos p1 } in
    if l.fork_ok
    then launched link' (close p1 both) (some (server_fds p0 p1 both))
    else not_launched link' both

unfoldable pub launch : Launch → Link → Fds → Launched
unfolding server_fds
launch l link fds =
    if is_neg link.fd_0 then after_pipe l l.pipe link fds else launched link fds none

-- `csopen` once the server is there: the answer of `writev` and what `recvmsg` returns.
unfoldable pub csopen : ℤ → List Recv → List ℕ → ℤ → Outcome
unfolding recv_fd
csopen written arrivals name oflag =
    if written ==ℤ pos (length (csopen_request name oflag))
    then recv_fd true (λ t. pos (length t)) arrivals
    else Outcome.returned minus_one []

-- The line without its final newline.
abbrev pub chopped : List ℕ → List ℕ
chopped line =
    let last = length line - 1 in if byte_at line last == 10 then take last line else line

-- The copying loop of the client on what each `read` returns: `none` is an error, [] the end of the file.
-- The result is `none` where the process ends by `err_sys`.
unfoldable pub copy_file : (List ℕ → Bool) → List (Option (List ℕ)) → List ℕ → Option (List ℕ)
copy_file writes [] out = some out
copy_file writes (none ∷ reads) out = none
copy_file writes (some [] ∷ reads) out = some out
copy_file writes (some (b ∷ bs) ∷ reads) out =
    let rest = copy_file writes reads (out ++ b ∷ bs) in if writes (b ∷ bs) then rest else none

-- `fgets`, which stores `n` bytes at most: the line, with its newline if it came to it, and what is left.
unfoldable pub fgets : ℕ → List ℕ → List ℕ × List ℕ
fgets zero cs = ([], cs)
fgets (suc n) [] = ([], [])
fgets (suc n) (c ∷ cs) =
    let (line, rest) = fgets n cs in if c == 10 then (c ∷ [], cs) else (c ∷ line, rest)

-- The lines that `fgets(line, MAXLINE, stdin)` gives until the input ends; each takes a byte at least, and so
-- the length of the input is fuel enough.
unfoldable pub fgets_lines : ℕ → List ℕ → List (List ℕ)
unfolding fgets
fgets_lines zero input = []
fgets_lines (suc fuel) [] = []
fgets_lines (suc fuel) (c ∷ cs) =
    let (line, rest) = fgets (maxline - 1) (c ∷ cs) in line ∷ fgets_lines fuel rest

-- The loop of `main` of the client on its lines. `ask` is `csopen`, `content` what the reads of a
-- descriptor return.
unfoldable pub client_loop :
    (List ℕ → ℤ)
    → (ℕ → List (Option (List ℕ)))
    → (List ℕ → Bool)
    → List (List ℕ)
    → List ℕ
    → Option (List ℕ)
unfolding copy_file
client_loop ask content writes [] out = some out
client_loop ask content writes (line ∷ lines) out = elim (ask (chopped line)) [
  | negsuc e ↦ client_loop ask content writes lines out
  | pos fd ↦ elim (copy_file writes (content fd) out) [
    | none ↦ none
    | some out' ↦ client_loop ask content writes lines out'
  ]
]

-- `main` of the client on the bytes of its input.
unfoldable pub client_main :
    (List ℕ → ℤ)
    → (ℕ → List (Option (List ℕ)))
    → (List ℕ → Bool)
    → List ℕ
    → List ℕ
    → Option (List ℕ)
unfolding fgets_lines client_loop
client_main ask content writes input out =
    client_loop ask content writes (fgets_lines (length input) input) out
