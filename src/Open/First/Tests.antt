-- ===== src/Open/First/Tests.antt =====
-- A session of my-src/Chapter-17/open-1 on the lines "a1" and "b", where the server can open "a1" alone.
use my_apue.Prelude.{
  ℕ, ◌≡◌, refl, some, none, true, List, [], ◌∷◌, arith, length, flatten, if◌then◌else◌,
}
use my_apue.Prelude.Bytes.{same_bytes}
use my_apue.Prelude.Int.{ℤ, pos, minus_one}
use my_apue.Popen.{Fds}
use my_apue.Open.Request.{Globals, Kernel}
use my_apue.Open.First.{serve, exited, client_main, Link, Launch}
use my_apue.Open.First.Asks.{ask}
use my_apue.Open.First.Lines.{Words, requests, input_lines}
use my_apue.Open.First.Session.{answers, reads, all_shown, client_main-serve}

abbrev a1 : List ℕ
a1 = 97 ∷ 49 ∷ []

abbrev b : List ℕ
b = 98 ∷ []

abbrev opener : List ℕ → ℤ → ℤ
unfolding same_bytes
opener name oflag = if same_bytes name a1 then pos 7 else minus_one

abbrev server_kernel : Kernel
server_kernel = record {
  open_file = opener;
  strerror = 110 ∷ 111 ∷ [];
  writen = λ t. pos (length t);
  sendmsg = λ m. pos (length m.bytes);
  control_ok = true;
}

abbrev at_first : Globals
at_first = record { errmsg = []; pathname = []; oflag = pos 0 }

abbrev four : ℕ → ℕ
four fd = 4

abbrev chunks : ℕ → List (List ℕ)
chunks fd = (104 ∷ 105 ∷ []) ∷ (33 ∷ []) ∷ []

all_read : all_shown server_kernel four chunks (a1 ∷ b ∷ []) ≡ 104 ∷ 105 ∷ 33 ∷ []
unfolding opener same_bytes
all_read = refl

names-Words : Words (a1 ∷ b ∷ [])
names-Words = (
  (refl, (λ e. omega (arith, e)), (refl, (λ e. omega (arith, e)), tt)),
  omega arith,
  ((refl, (λ e. omega (arith, e)), tt), omega arith, tt),
)

client_main-serve_example :
    (serve server_kernel (requests (a1 ∷ b ∷ [])) [] at_first
      ≡ exited (answers server_kernel (a1 ∷ b ∷ [])))
    × (client_main
          (ask server_kernel four)
          (λ fd. reads (chunks fd))
          (λ t. true)
          (flatten (input_lines (a1 ∷ b ∷ [])))
          []
        ≡ some (all_shown server_kernel four chunks (a1 ∷ b ∷ [])))
client_main-serve_example =
    client_main-serve server_kernel four chunks
      (record { writes = λ t. refl; sends = λ m. refl; memory = refl })
      ((λ e. omega (arith, e)), ((λ e. omega (arith, e)), tt)) (λ fd. ((λ e. cc), ((λ e. cc), tt)))
      (a1 ∷ b ∷ []) at_first names-Words

abbrev no_link : Link
no_link = record { fd_0 = minus_one; fd_1 = minus_one }

abbrev fresh_launch : Launch
fresh_launch = record { pipe = some (0, 1); pipe_id = 5; fork_ok = true }

abbrev no_fds : Fds
no_fds i = none
