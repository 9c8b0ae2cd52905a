-- ===== src/Open/Passing.antt =====
-- `send_err`, `send_fd` and `recv_fd` of my-src/Chapter-17/17-12.c, 17-13.c and 17-14.c: descriptors
-- and error messages over a UNIX domain socket. Bytes are numbers below 256; a descriptor sent along
-- with a message arrives as the number that the kernel gives it in the receiver.
pub mod Laws
mod Tests
use my_apue.Prelude.{
  ℕ, zero, suc, ◌+◌, ◌-◌, ◌%◌, Option, none, some, Bool, true, false, not, ◌&&◌, List, [], ◌∷◌,
  ◌++◌, ◌==◌, if◌then◌else◌, length, take,
}
use my_apue.Prelude.Int.{ℤ, pos, negsuc, minus_one, ◌==ℤ◌, is_neg}

-- What `sendmsg` and `recvmsg` carry: the bytes of the `iovec`, and a descriptor or none.
pub record Msg : Type 0 where
  pub bytes : List ℕ
  pub control : Option ℕ

-- The byte `buf[1]` of `send_fd`: the absolute value of a negative argument as a `char`, and never 0.
abbrev pub status_byte : ℕ → ℕ
status_byte n = if (n + 1) % 256 == 0 then 1 else (n + 1) % 256

-- The message that `send_fd` sends for its argument.
unfoldable pub fd_msg : ℤ → Msg
fd_msg (pos fd) = record { bytes = 0 ∷ 0 ∷ []; control = some fd }
fd_msg (negsuc n) = record { bytes = 0 ∷ status_byte n ∷ []; control = none }

abbrev pub needs_control : ℤ → Bool
needs_control (pos fd) = true
needs_control (negsuc n) = false

-- `send_fd`: the return value, and the messages handed to `sendmsg`. `control_ok` tells whether the
-- control buffer is there or `malloc` gives it, `sendmsg` is the kernel's answer.
unfoldable pub send_fd : Bool → (Msg → ℤ) → ℤ → ℤ × List Msg
unfolding fd_msg
send_fd control_ok sendmsg fd =
    if needs_control fd
    then (if control_ok
        then (if sendmsg (fd_msg fd) ==ℤ pos 2
            then (pos 0, fd_msg fd ∷ [])
            else (minus_one, fd_msg fd ∷ []))
        else (minus_one, []))
    else (if sendmsg (fd_msg fd) ==ℤ pos 2
        then (pos 0, fd_msg fd ∷ [])
        else (minus_one, fd_msg fd ∷ []))

abbrev pub as_error : ℤ → ℤ
as_error (pos n) = minus_one
as_error (negsuc n) = negsuc n

-- What `writen` has put on the socket when it returns `written`.
abbrev pub text_sent : ℤ → List ℕ → List Msg
text_sent (pos w) msg = record { bytes = take w msg; control = none } ∷ []
text_sent (negsuc n) msg = []

-- `send_err`: the text by `writen`, whose return value is `written`, then the code by `send_fd`.
unfoldable pub send_err : Bool → (Msg → ℤ) → ℤ → ℤ → List ℕ → ℤ × List Msg
unfolding send_fd
send_err control_ok sendmsg written errcode msg =
    let n = length msg in
    let text : List Msg = if n == 0 then [] else text_sent written msg in
    if not (n == 0) && not (written ==ℤ pos n)
    then (minus_one, text)
    else (let (r, sent) = send_fd control_ok sendmsg (as_error errcode) in
        (if is_neg r then minus_one else pos 0, text ++ sent))

-- What the walk over a message finds: no null byte, a null byte before the last byte, or a null byte
-- elsewhere, which is a format error.
pub data Scan : Type 0 where
  plain : Scan
  ends : ℕ → Scan
  malformed : Scan

abbrev pub after : List ℕ → Scan
after [] = malformed
after (st ∷ []) = ends st
after (st ∷ x ∷ rest) = malformed

unfoldable pub scan : List ℕ → Scan
scan [] = plain
scan (c ∷ rest) = if c == 0 then after rest else scan rest

-- What `recv_fd` gets from the kernel.
pub data Recv : Type 0 where
  failed : Recv
  received : Msg → Recv

-- How it ends: a return value with the texts given to the user's function, an abort by `err_dump`,
-- or a wait for a message that does not come.
pub data Outcome : Type 0 where
  returned : ℤ → List (List ℕ) → Outcome
  dumped : List (List ℕ) → Outcome
  waiting : List (List ℕ) → Outcome

-- `newfd` for a status byte; with status 0 a descriptor has to be there.
abbrev pub new_fd : ℕ → Option ℕ → Option ℤ
new_fd zero none = none
new_fd zero (some fd) = some (pos fd)
new_fd (suc st) control = some (negsuc st)

-- The text before the two bytes goes to the user's function, if there is any; then `newfd` is
-- returned.
abbrev pub finish : (List ℕ → ℤ) → List (List ℕ) → List ℕ → Option ℤ → Outcome
finish user seen text none = dumped seen
finish user seen text (some fd) =
    if length text == 0
    then returned fd seen
    else (if user text ==ℤ pos (length text)
        then returned fd (seen ++ text ∷ [])
        else returned minus_one (seen ++ text ∷ []))

-- `recv_fd` on what `recvmsg` returns call by call; `seen` are the texts given to `user` so far.
unfoldable pub recv_loop : (List ℕ → ℤ) → List (List ℕ) → List Recv → Outcome
unfolding scan
recv_loop user seen [] = waiting seen
recv_loop user seen (failed ∷ rest) = returned minus_one seen
recv_loop user seen (received m ∷ rest) =
    let later = recv_loop user (seen ++ m.bytes ∷ []) rest in
    if length m.bytes == 0 then returned minus_one seen else elim (scan m.bytes) [
      | malformed ↦ dumped seen
      | plain ↦
          if user m.bytes ==ℤ pos (length m.bytes)
          then later
          else returned minus_one (seen ++ m.bytes ∷ [])
      | ends st ↦ finish user seen (take (length m.bytes - 2) m.bytes) (new_fd st m.control)
    ]

unfoldable pub recv_fd : Bool → (List ℕ → ℤ) → List Recv → Outcome
unfolding recv_loop
recv_fd control_ok user arrivals =
    if control_ok then recv_loop user [] arrivals else returned minus_one []
