-- ===== src/Ruptime/Service.antt =====
-- `serve` of my-src/Chapter-16/16-17.c: the output of `uptime`, sent to each client.
use my_apue.Prelude.{
  ℕ, zero, suc, Option, none, some, List, [], ◌∷◌, ◌++◌, ltb, ◌==◌, if◌then◌else◌, length,
}
use my_apue.Prelude.Bytes.{c_string}
use my_apue.Ruptime.{Fds, open_fd, close_fd}

abbrev pub buflen : ℕ
buflen = 128

-- `fgets` with room for `n` bytes: a line, or as much of it as has room, and the rest.
unfoldable pub fgets : ℕ → List ℕ → List ℕ × List ℕ
fgets zero cs = ([], cs)
fgets (suc n) [] = ([], [])
fgets (suc n) (c ∷ cs) =
    let (front, rest) = fgets n cs in if c == 10 then (c ∷ [], cs) else (c ∷ front, rest)

-- The loop over the output, `fgets` of at most 127 bytes at a time; the argument of each `send`.
unfoldable pub send_lines : ℕ → List ℕ → List (List ℕ)
send_lines zero cs = []
send_lines (suc fuel) [] = []
send_lines (suc fuel) (c ∷ cs) =
    let (line, rest) = fgets 127 (c ∷ cs) in c_string line ∷ send_lines fuel rest

-- What `popen` gives: the output of the command, or the message of its error.
pub data Uptime : Type 0 where
  prints : List ℕ → Uptime
  popen_failed : List ℕ → Uptime

-- "error: "
abbrev pub error_text : List ℕ
error_text = 101 ∷ 114 ∷ 114 ∷ 111 ∷ 114 ∷ 58 ∷ 32 ∷ []

-- What is sent to a client, where the message of an error fits in `buf`.
unfoldable pub send_uptime : Uptime → Option (List (List ℕ))
send_uptime (prints out) = some (send_lines (suc (length out)) out)
send_uptime (popen_failed message) =
    let text = error_text ++ message ++ 10 ∷ [] in
    if ltb (length text) buflen then some (c_string text ∷ []) else none

-- What one turn of the loop meets.
pub data Turn : Type 0 where
  accept_failed : Turn
  accepted : ℕ → Uptime → Turn

-- The server after the turns, with what it has sent on each connection, or its exit; `overflow` where
-- the message is too long for `buf`.
pub data Serving : Type 0 where
  waiting : Fds → List (ℕ × List (List ℕ)) → Serving
  exits : ℕ → List (ℕ × List (List ℕ)) → Serving
  overflow : Serving

abbrev pub after_client : ℕ → Option (List (List ℕ)) → Serving → Serving
after_client fd none s = overflow
after_client fd (some sent) (waiting fds log) = waiting fds ((fd, sent) ∷ log)
after_client fd (some sent) (exits n log) = exits n ((fd, sent) ∷ log)
after_client fd (some sent) overflow = overflow

unfoldable pub serve : List Turn → Fds → Serving
serve [] fds = waiting fds []
serve (accept_failed ∷ turns) fds = exits 1 []
serve (accepted fd up ∷ turns) fds =
    after_client fd (send_uptime up) (serve turns (close_fd fd (open_fd fd fds)))
