-- ===== src/Open/Request.antt =====
-- Requests to the open server: `csopen` (my-src/Chapter-17/open-2/17-25.c) writes one, `buf_args`
-- and `cli_args` (17-23.c, 17-24.c) take it to pieces, and `handle_request` (17-31.c) answers it.
-- Strings are lists of bytes without their final null byte.
pub mod Text
pub mod Words
pub mod Laws
pub mod Decimal
pub mod Bounds
pub mod Served
mod Tests
use my_apue.Prelude.{
  ℕ, zero, suc, ◌+◌, ◌-◌, Option, none, some, Bool, true, false, not, ◌&&◌, ◌||◌, List, [], ◌∷◌,
  ◌++◌, ltb, leb, ◌==◌, if◌then◌else◌, length, take, replicate,
}
use my_apue.Prelude.Bytes.{c_string, same_bytes}
use my_apue.Prelude.Int.{ℤ, pos, negsuc, minus_one, ◌==ℤ◌, is_neg}
use my_apue.Open.Passing.{Msg, send_fd, send_err}
use my_apue.Open.Request.Text.{strtok, decimal, atoi, in_int}

-- "/tmp/opend.socket"
abbrev pub cs_open : List ℕ
cs_open =
    47 ∷ 116 ∷ 109 ∷ 112 ∷ 47 ∷ 111 ∷ 112 ∷ 101 ∷ 110 ∷ 100 ∷ 46 ∷ 115 ∷ 111 ∷ 99 ∷ 107 ∷ 101 ∷ 116
    ∷ []

abbrev pub maxargc : ℕ
maxargc = 50

abbrev pub maxline : ℕ
maxline = 4096

-- What `csopen` writes with `writev`: three pieces, the last with its null byte.
abbrev pub csopen_request : List ℕ → ℤ → List ℕ
csopen_request name oflag = (cs_open ++ 32 ∷ []) ++ (name ++ ((32 ∷ decimal oflag) ++ 0 ∷ []))

-- What comes of the string in `buf`: -1, an `argv`, or an empty fuel.
pub data Parsed : Type 0 where
  refused : Parsed
  parsed : List (List ℕ) → Parsed
  unfinished : Parsed

-- The loop over `strtok(NULL, WHITE)`; `argc` is the index of the last element of `argv`.
unfoldable pub args_loop : ℕ → List (List ℕ) → List ℕ → Parsed
unfolding strtok
args_loop zero argv rest = unfinished
args_loop (suc k) argv rest = elim (strtok rest) [
  | none ↦ parsed argv
  | some (skipped, ptr, rest') ↦
      let later = args_loop k (argv ++ ptr ∷ []) rest' in
      if leb (maxargc - 1) (length argv) then refused else later
]

-- `argv[0]` is `buf` itself, the white space before the first word included.
unfoldable pub buf_args : ℕ → List ℕ → Parsed
unfolding strtok args_loop
buf_args fuel buf = elim (strtok buf) [
  | none ↦ refused
  | some (skipped, ptr, rest) ↦ args_loop fuel ((skipped ++ ptr) ∷ []) rest
]

-- The globals of the server that a request sets.
pub record Globals : Type 0 where
  pub errmsg : List ℕ
  pub pathname : List ℕ
  pub oflag : ℤ

-- "usage: <pathname> <oflag>\n"
abbrev pub usage : List ℕ
usage =
    117 ∷ 115 ∷ 97 ∷ 103 ∷ 101 ∷ 58 ∷ 32 ∷ 60 ∷ 112 ∷ 97 ∷ 116 ∷ 104 ∷ 110 ∷ 97 ∷ 109 ∷ 101 ∷ 62
    ∷ 32 ∷ 60 ∷ 111 ∷ 102 ∷ 108 ∷ 97 ∷ 103 ∷ 62 ∷ 10 ∷ []

abbrev pub misused : Globals → ℤ × Globals
misused g = (minus_one, record g { errmsg = usage })

unfoldable pub cli_args : List (List ℕ) → Globals → ℤ × Globals
cli_args [] g = misused g
cli_args (command ∷ []) g = misused g
cli_args (command ∷ path ∷ []) g = misused g
cli_args (command ∷ path ∷ flags ∷ []) g =
    if same_bytes command cs_open
    then (pos 0, record g { pathname = path; oflag = atoi flags })
    else misused g
cli_args (command ∷ path ∷ flags ∷ more ∷ rest) g = misused g

-- `buf_args(buf, cli_args)`
abbrev pub run_cli_args : Parsed → Globals → Option (ℤ × Globals)
run_cli_args refused g = some (minus_one, g)
run_cli_args (parsed argv) g = some (cli_args argv g)
run_cli_args unfinished g = none

-- "request from uid %d not null terminated: %*.*s\n", cut to the buffer.
abbrev pub not_terminated : ℕ → List ℕ → List ℕ
not_terminated uid bytes =
    let text = c_string bytes in
    take (maxline - 2) (
      (114 ∷ 101 ∷ 113 ∷ 117 ∷ 101 ∷ 115 ∷ 116 ∷ 32 ∷ 102 ∷ 114 ∷ 111 ∷ 109 ∷ 32 ∷ 117 ∷ 105 ∷ 100
        ∷ 32 ∷ [])
      ++ decimal (pos uid)
      ++ (32 ∷ 110 ∷ 111 ∷ 116 ∷ 32 ∷ 110 ∷ 117 ∷ 108 ∷ 108 ∷ 32 ∷ 116 ∷ 101 ∷ 114 ∷ 109 ∷ 105 ∷ 110
          ∷ 97 ∷ 116 ∷ 101 ∷ 100 ∷ 58 ∷ 32 ∷ [])
      ++ replicate (length bytes - length text) 32
      ++ text
      ++ 10 ∷ [])

-- "cannot open %s: %s\n", cut to the buffer.
abbrev pub cannot_open : List ℕ → List ℕ → List ℕ
cannot_open path reason = take (maxline - 2) (
    (99 ∷ 97 ∷ 110 ∷ 110 ∷ 111 ∷ 116 ∷ 32 ∷ 111 ∷ 112 ∷ 101 ∷ 110 ∷ 32 ∷ [])
    ++ path
    ++ 58 ∷ 32 ∷ reason
    ++ 10 ∷ [])

-- What the server uses of the kernel: `open` with its error texts, `writen` and `sendmsg` on the
-- client's socket, and whether there is memory for the control buffer.
pub record Kernel : Type 0 where
  pub open_file : List ℕ → ℤ → ℤ
  pub strerror : List ℕ
  pub writen : List ℕ → ℤ
  pub sendmsg : Msg → ℤ
  pub control_ok : Bool

-- The answer: what goes to the client, the descriptor closed at the end, if one has been opened, and
-- the globals; or undefined behaviour, of `log_msg` or of `atoi`; or the end of the process by `log_sys`;
-- or an empty fuel in `buf_args`.
pub data Handled : Type 0 where
  answered : List Msg → Option ℤ → Globals → Handled
  undefined_request : Handled
  ended : Handled
  stuck : Handled

-- `send_err(clifd, -1, errmsg)`
abbrev pub answer_error : Kernel → Globals → Handled
answer_error kernel g =
    answered
      (send_err kernel.control_ok kernel.sendmsg (kernel.writen g.errmsg) minus_one g.errmsg).1 none
      g

-- A format string without a conversion: every '%' is followed by another one.
abbrev pub is_plain_format : List ℕ → Bool
is_plain_format [] = true
is_plain_format (c ∷ []) = not (c == 37)
is_plain_format (c ∷ d ∷ cs) =
    let after_two = is_plain_format cs in
    let after_one = is_plain_format (d ∷ cs) in if c == 37 then d == 37 && after_two else after_one

-- `send_err(clifd, -1, errmsg)` and `log_msg(errmsg)`, whose format is `errmsg` itself: a conversion in it
-- has no argument, which is undefined.
abbrev pub answer_logged : Kernel → Globals → Handled
answer_logged kernel g =
    if is_plain_format g.errmsg then answer_error kernel g else undefined_request

abbrev pub open_and_send : Kernel → Globals → Handled
open_and_send kernel g =
    let newfd = kernel.open_file g.pathname g.oflag in
    if is_neg newfd
    then answer_logged kernel (record g { errmsg = cannot_open g.pathname kernel.strerror })
    else (let (r, sent) = send_fd kernel.control_ok kernel.sendmsg newfd in
        (if is_neg r then ended else answered sent (some newfd) g))

-- With the flags in `oflag`, which `atoi` gives only for a value of an `int`.
abbrev pub open_in_int : Kernel → Globals → Handled
open_in_int kernel g = if in_int g.oflag then open_and_send kernel g else undefined_request

abbrev pub after_args : Kernel → Option (ℤ × Globals) → Handled
after_args kernel none = stuck
after_args kernel (some (r, g)) = if is_neg r then answer_logged kernel g else open_in_int kernel g

abbrev pub ends_in_null : List ℕ → Bool
ends_in_null [] = false
ends_in_null (c ∷ []) = c == 0
ends_in_null (c ∷ d ∷ rest) = ends_in_null (d ∷ rest)

-- `bytes` are the `nread` bytes read from the client.
unfoldable pub handle_request : ℕ → Kernel → ℕ → List ℕ → Globals → Handled
unfolding buf_args cli_args
handle_request fuel kernel uid bytes g =
    if ends_in_null bytes
    then after_args kernel (run_cli_args (buf_args fuel (c_string bytes)) g)
    else answer_error kernel (record g { errmsg = not_terminated uid bytes })
