-- ===== src/Open/Passing/Tests.antt =====
-- Runs of my-src/Chapter-17/17-12.c, 17-13.c and 17-14.c over a socket that takes every message.
use my_apue.Prelude.{ℕ, ◌≡◌, refl, true, List, [], ◌∷◌, ◌++◌, arith, length, flatten, map}
use my_apue.Prelude.Int.{ℤ, pos, minus_one}
use my_apue.Open.Passing.{Msg, fd_msg, send_err, returned, recv_fd}
use my_apue.Open.Passing.Laws.{Text, Chunks, bytes_of, arrivals, recv_fd-send_err}

-- A `sendmsg` and a user's function that take all that they are given.
abbrev sends_all : Msg → ℤ
sends_all m = pos (length m.bytes)

abbrev takes_all : List ℕ → ℤ
takes_all t = pos (length t)

-- "can't open", cut after the third byte.
abbrev front : List ℕ
front = 99 ∷ 97 ∷ 110 ∷ []

abbrev back : List ℕ
back = 39 ∷ 116 ∷ 32 ∷ 111 ∷ 112 ∷ 101 ∷ 110 ∷ []

front-Chunks : Chunks (front ∷ [])
front-Chunks = ((omega arith, (omega arith, (omega arith, tt))), omega arith, tt)

back-Text : Text back
back-Text = (
  omega arith,
  (omega arith, (omega arith, (omega arith, (omega arith, (omega arith, (omega arith, tt)))))),
)

recv_fd-send_err_example :
    let msg : List ℕ = front ++ back in
    let m : Msg = fd_msg minus_one in
    ((send_err true sends_all (pos 10) minus_one msg).0 ≡ pos 0)
    × (flatten (map bytes_of (send_err true sends_all (pos 10) minus_one msg).1) ≡ msg ++ m.bytes)
    × (recv_fd true takes_all (arrivals (front ∷ []) back m)
        ≡ returned minus_one (front ∷ back ∷ []))
    × (front ++ back ++ [] ≡ msg)
recv_fd-send_err_example =
    recv_fd-send_err takes_all sends_all 0 (front ∷ []) back (λ t. refl) (λ m. refl) (omega arith)
      front-Chunks back-Text
