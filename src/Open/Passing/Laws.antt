-- ===== src/Open/Passing/Laws.antt =====
-- A receiver gets what the sender passed, however the stream cuts the text.
use mathlib.Core.List.{append-nil, append_assoc}
use my_apue.Prelude.{
  ℕ, suc, ◌-◌, ◌<◌, ◌≡◌, refl, sym, ap, ◌∙◌, ◌≢◌, Option, none, some, true, false, List, [], ◌∷◌,
  ◌++◌, ◌==◌, arith, if◌then◌else◌, length, take, length-append, Bool-cases, inl, inr, take-append,
  take-length, flatten, map,
}
use my_apue.Prelude.Int.{ℤ, pos, negsuc, ◌==ℤ◌, ==ℤ_refl}
use my_apue.Open.Passing.{
  Msg, status_byte, fd_msg, send_fd, send_err, plain, ends, scan, Recv, received, returned,
  recv_loop, recv_fd, new_fd,
}

-- No null byte.
abbrev pub Text : List ℕ → Type 0
Text [] = Unit {0}
Text (c ∷ cs) = (c ≢ 0) × Text cs

scan-Text : (cs : List ℕ) → Text cs → scan cs ≡ plain
unfolding scan
scan-Text [] t = refl
scan-Text (c ∷ cs) t = ground (arith, scan-Text cs t.1)

scan_end : (cs : List ℕ) (st : ℕ) → Text cs → scan (cs ++ 0 ∷ st ∷ []) ≡ ends st
unfolding scan
scan_end [] st t = refl
scan_end (c ∷ cs) st t = ground (arith, scan_end cs st t.1)

take_text : (cs : List ℕ) (st : ℕ) → take (length (cs ++ 0 ∷ st ∷ []) - 2) (cs ++ 0 ∷ st ∷ []) ≡ cs
take_text cs st =
    let n : length (cs ++ 0 ∷ st ∷ []) - 2 ≡ length cs =
      omega (arith, length-append cs (0 ∷ st ∷ [])) in
    rw n (take-append cs (0 ∷ st ∷ []))

-- Chunks of text, none empty: what the stream may make of a longer text.
abbrev pub Chunks : List (List ℕ) → Type 0
Chunks [] = Unit {0}
Chunks (t ∷ ts) = Text t × (length t ≢ 0) × Chunks ts

abbrev text_msg : List ℕ → Recv
text_msg t = received (record { bytes = t; control = none })

-- The arrivals when the last piece `cs` of the text comes together with the two bytes of `m`.
abbrev pub arrivals : List (List ℕ) → List ℕ → Msg → List Recv
arrivals ts cs m =
    map text_msg ts ++ received (record { bytes = cs ++ m.bytes; control = m.control }) ∷ []

abbrev pub pieces : List (List ℕ) → List ℕ → List (List ℕ)
pieces ts cs = ts ++ (if length cs == 0 then [] else cs ∷ [])

module _ (user : List ℕ → ℤ) (takes_all : (t : List ℕ) → user t ≡ pos (length t)) where
  accepts : (t : List ℕ) → (user t ==ℤ pos (length t)) ≡ true
  accepts t = rw (takes_all t) (==ℤ_refl (pos (length t)))

  recv_last :
      (seen : List (List ℕ)) (cs : List ℕ) (st : ℕ) (control : Option ℕ) {r : ℤ}
      → Text cs
      → new_fd st control ≡ some r
      → recv_loop user seen
          (received (record { bytes = cs ++ 0 ∷ st ∷ []; control = control }) ∷ [])
        ≡ returned r (seen ++ (if length cs == 0 then [] else cs ∷ []))
  unfolding recv_loop
  recv_last seen cs st control t e =
      let some_bytes : (length (cs ++ 0 ∷ st ∷ []) == 0) ≡ false =
        ground (arith, length-append cs (0 ∷ st ∷ [])) in
      rw some_bytes (
        rw (scan_end cs st t) (
          rw (take_text cs st, e)
            (elim (Bool-cases (length cs == 0)) [
              | inl z ↦ rw z (ap (returned _) (sym (append-nil seen)))
              | inr n ↦ rw n (rw (accepts cs))
            ])))

  recv-Chunks :
      (seen ts : List (List ℕ)) (cs : List ℕ) (st : ℕ) (control : Option ℕ) {r : ℤ}
      → Chunks ts
      → Text cs
      → new_fd st control ≡ some r
      → recv_loop user seen (arrivals ts cs (record { bytes = 0 ∷ st ∷ []; control = control }))
        ≡ returned r (seen ++ pieces ts cs)
  unfolding recv_loop
  recv-Chunks seen [] cs st control c t e = recv_last seen cs st control t e
  recv-Chunks seen (x ∷ ts) cs st control {r} (tx, nx, c) t e =
      let full : (length x == 0) ≡ false = ground arith in
      rw full (
        rw (scan-Text x tx) (
          rw (accepts x) (
            recv-Chunks (seen ++ x ∷ []) ts cs st control c t e
            ∙ ap (returned r) (append_assoc seen (x ∷ []) (pieces ts cs)))))

flatten-pieces : (ts : List (List ℕ)) (cs : List ℕ) → flatten (pieces ts cs) ≡ flatten ts ++ cs
flatten-pieces [] [] = refl
flatten-pieces [] (c ∷ cs) =
    let some_text : (suc (length cs) == 0) ≡ false = ground arith in
    rw some_text (append-nil (c ∷ cs))
flatten-pieces (t ∷ ts) cs =
    ap (λ x. t ++ x) (flatten-pieces ts cs) ∙ sym (append_assoc t (flatten ts) cs)

abbrev pub bytes_of : Msg → List ℕ
bytes_of m = m.bytes

status_kept : (n : ℕ) → n < 255 → new_fd (status_byte n) none ≡ some (negsuc n)
status_kept n h = let same : status_byte n ≡ suc n = ground arith in ap (λ st. new_fd st none) same

-- The messages of a `send_err` that succeeds.
abbrev pub sent_msgs : List ℕ → ℕ → List Msg
sent_msgs [] n = fd_msg (negsuc n) ∷ []
sent_msgs (c ∷ cs) n = record { bytes = c ∷ cs; control = none } ∷ fd_msg (negsuc n) ∷ []

pub send_err_lem :
    (sendmsg : Msg → ℤ) (n : ℕ) (msg : List ℕ)
    → ((m : Msg) → sendmsg m ≡ pos (length m.bytes))
    → send_err true sendmsg (pos (length msg)) (negsuc n) msg ≡ (pos 0, sent_msgs msg n)
unfolding send_err
send_err_lem sendmsg n [] sends = rw (sends _)
send_err_lem sendmsg n (c ∷ cs) sends =
    let some_text : (suc (length cs) == 0) ≡ false = ground arith in
    rw some_text (rw (==ℤ_refl (pos (suc (length cs)))) (rw (sends _) (rw (take-length cs))))

flatten-sent_msgs :
    (msg : List ℕ) (n : ℕ)
    → flatten (map bytes_of (sent_msgs msg n)) ≡ msg ++ (fd_msg (negsuc n)).bytes
unfolding fd_msg
flatten-sent_msgs [] n = refl
flatten-sent_msgs (c ∷ cs) n = refl

-- Over a socket that takes everything, `send_err` of a text without null bytes and a code from -255
-- to -1 puts the text, a null byte and the code's status on the socket; however the text is cut on
-- its way, `recv_fd` gives all of it to the user's function and returns the code, if that function
-- takes everything. (Both bytes of the status come with the last piece of the text.)
pub recv_fd-send_err :
    (user : List ℕ → ℤ) (sendmsg : Msg → ℤ) (n : ℕ) (ts : List (List ℕ)) (cs : List ℕ)
    → ((t : List ℕ) → user t ≡ pos (length t))
    → ((m : Msg) → sendmsg m ≡ pos (length m.bytes))
    → n < 255
    → Chunks ts
    → Text cs
    → let msg : List ℕ = flatten ts ++ cs in
      let m : Msg = fd_msg (negsuc n) in
      ((send_err true sendmsg (pos (length msg)) (negsuc n) msg).0 ≡ pos 0)
      × (flatten (map bytes_of (send_err true sendmsg (pos (length msg)) (negsuc n) msg).1)
          ≡ msg ++ m.bytes)
      × (recv_fd true user (arrivals ts cs m) ≡ returned (negsuc n) (pieces ts cs))
      × (flatten (pieces ts cs) ≡ msg)
unfolding fd_msg recv_fd
recv_fd-send_err user sendmsg n ts cs takes_all sends small c t =
    let msg : List ℕ = flatten ts ++ cs in
    let run = send_err_lem sendmsg n msg sends in
    (
      ap (λ r. r.0) run,
      ap (λ r. flatten (map bytes_of r.1)) run ∙ flatten-sent_msgs msg n,
      recv-Chunks user takes_all [] ts cs (status_byte n) none c t (status_kept n small),
      flatten-pieces ts cs,
    )

-- A descriptor that `send_fd` sends over a socket that takes everything arrives: `recv_fd` returns
-- the number `fd'` that the kernel gives it in the receiver, and the user's function sees nothing.
pub recv_fd-send_fd :
    (user : List ℕ → ℤ) (sendmsg : Msg → ℤ) (fd fd' : ℕ)
    → ((m : Msg) → sendmsg m ≡ pos (length m.bytes))
    → (send_fd true sendmsg (pos fd) ≡ (pos 0, fd_msg (pos fd) ∷ []))
      × (recv_fd true user (received (record (fd_msg (pos fd)) { control = some fd' }) ∷ [])
          ≡ returned (pos fd') [])
unfolding fd_msg recv_fd send_fd
recv_fd-send_fd user sendmsg fd fd' sends = (rw (sends _), refl)
