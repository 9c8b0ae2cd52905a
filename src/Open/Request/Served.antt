-- ===== src/Open/Request/Served.antt =====
-- One `csopen` from end to end: the request, the server's answer, and what `recv_fd` makes of it.
use mathlib.Core.Path.{subst}
use my_apue.Prelude.{
  ℕ, suc, ◌≡◌, ◌∙◌, some, none, true, List, [], ◌∷◌, ◌++◌, arith, length, flatten, map,
}
use my_apue.Prelude.Int.{ℤ, pos, negsuc, minus_one}
use my_apue.Open.Passing.{Msg, fd_msg, send_fd, send_err, received, returned, recv_fd}
use my_apue.Open.Passing.Laws.{
  Text, Chunks, arrivals, pieces, bytes_of, recv_fd-send_err, recv_fd-send_fd,
}
use my_apue.Open.Request.Text.{in_int}
use my_apue.Open.Request.Words.{IsWord}
use my_apue.Open.Request.Laws.{handle_request-csopen}
use my_apue.Open.Request.{
  csopen_request, Globals, Kernel, answered, open_and_send, handle_request, cannot_open,
  is_plain_format,
}

-- The sockets take what is written to them, and there is memory.
pub record Works (kernel : Kernel) : Type 0 where
  pub writes : (t : List ℕ) → kernel.writen t ≡ pos (length t)
  pub sends : (m : Msg) → kernel.sendmsg m ≡ pos (length m.bytes)
  pub memory : kernel.control_ok ≡ true

module _ (kernel : Kernel) (works : Works kernel) (name : List ℕ) (oflag : ℤ)
    (is_word : IsWord name) (fits : in_int oflag ≡ true) where
  abbrev pub asked : Globals → Globals
  asked g = record g { pathname = name; oflag = oflag }

  open_and_send_fd :
      (g : Globals) {fd : ℕ}
      → kernel.open_file g.pathname g.oflag ≡ pos fd
      → open_and_send kernel g ≡ answered (fd_msg (pos fd) ∷ []) (some (pos fd)) g
  unfolding send_fd
  open_and_send_fd g e = rw e (rw works.memory (rw (works.sends _)))

  open_and_send_err :
      (g : Globals) {e : ℕ}
      → kernel.open_file g.pathname g.oflag ≡ negsuc e
      → is_plain_format (cannot_open g.pathname kernel.strerror) ≡ true
      → let text : List ℕ = cannot_open g.pathname kernel.strerror in
        open_and_send kernel g
        ≡ answered
            (send_err true kernel.sendmsg (pos (length text)) minus_one text).1
            none
            (record g { errmsg = text })
  open_and_send_err g e plain = rw e (rw plain (rw works.memory (rw (works.writes _))))

  -- For a name that is one word and flags that are an `int`, and over sockets that take everything: if the
  -- server can open the
  -- file as `fd`, the only message of `handle_request` on the client's request passes `fd`, the
  -- server closes its own `fd`, and `recv_fd` returns the number `fd'` that the kernel gives it in
  -- the client.
  pub csopen_opens :
      (k uid : ℕ) (g : Globals) (fd fd' : ℕ) (user : List ℕ → ℤ)
      → kernel.open_file name oflag ≡ pos fd
      → (handle_request (suc (suc (suc k))) kernel uid (csopen_request name oflag) g
          ≡ answered (fd_msg (pos fd) ∷ []) (some (pos fd)) (asked g))
        × (recv_fd true user (received (record (fd_msg (pos fd)) { control = some fd' }) ∷ [])
            ≡ returned (pos fd') [])
  csopen_opens k uid g fd fd' user opens = (
    handle_request-csopen k kernel uid name oflag g is_word fits ∙ open_and_send_fd (asked g) opens,
    (recv_fd-send_fd user kernel.sendmsg fd fd' works.sends).1,
  )

  -- For a name that is one word and flags that are an `int`, and over sockets that take everything: if the
  -- server cannot open the file and the text of the error, which is also the format of a `log_msg`, has no
  -- conversion in it, the messages of `handle_request` carry the text of the error and the status. However
  -- the text arrives, as the pieces `ts` and, together with the two bytes of the status, `cs`, none
  -- of them with a null byte, `recv_fd` shows all of it to a user's function that takes everything,
  -- and returns -1.
  pub csopen_refused :
      (k uid : ℕ) (g : Globals) (e : ℕ) (user : List ℕ → ℤ) (ts : List (List ℕ)) (cs : List ℕ)
      → kernel.open_file name oflag ≡ negsuc e
      → is_plain_format (cannot_open name kernel.strerror) ≡ true
      → ((t : List ℕ) → user t ≡ pos (length t))
      → Chunks ts
      → Text cs
      → flatten ts ++ cs ≡ cannot_open name kernel.strerror
      → (sent : List Msg) × (handle_request
            (suc (suc (suc k)))
            kernel
            uid
            (csopen_request name oflag)
            g
          ≡ answered sent none (record (asked g) { errmsg = cannot_open name kernel.strerror }))
        × (flatten (map bytes_of sent)
            ≡ cannot_open name kernel.strerror ++ (fd_msg minus_one).bytes)
        × (recv_fd true user (arrivals ts cs (fd_msg minus_one))
            ≡ returned minus_one (pieces ts cs))
        × (flatten (pieces ts cs) ≡ cannot_open name kernel.strerror)
  csopen_refused k uid g e user ts cs fails plain takes_all c t is =
      let (_, carried, seen, whole) =
        recv_fd-send_err user kernel.sendmsg 0 ts cs takes_all works.sends (omega arith) c t in
      (
        _,
        handle_request-csopen k kernel uid name oflag g is_word fits
            ∙ open_and_send_err (asked g) fails plain,
        subst
            (λ x.
              flatten (map bytes_of (send_err true kernel.sendmsg (pos (length x)) minus_one x).1)
              ≡ x ++ (fd_msg minus_one).bytes)
            is carried,
        seen,
        whole ∙ is,
      )
