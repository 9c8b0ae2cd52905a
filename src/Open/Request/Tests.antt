-- ===== src/Open/Request/Tests.antt =====
-- A request of my-src/Chapter-17/open-2 for the file "a1", read only, to a server whose kernel opens
-- that name alone.
use my_apue.Prelude.{
  ℕ, ◌≡◌, refl, some, none, true, List, [], ◌∷◌, ◌++◌, arith, length, flatten, map, if◌then◌else◌,
}
use my_apue.Prelude.Bytes.{same_bytes, c_string}
use my_apue.Prelude.Int.{ℤ, pos, minus_one}
use my_apue.Open.Passing.{Msg, fd_msg, received, returned, recv_fd}
use my_apue.Open.Passing.Laws.{Text, arrivals, pieces, bytes_of}
use my_apue.Open.Request.Text.{strtok, decimal, digits, atoi, atoi_digits}
use my_apue.Open.Request.Words.{IsWord}
use my_apue.Open.Request.Bounds.{InBounds, buf_args-InBounds}
use my_apue.Open.Request.Served.{Works, asked, csopen_opens, csopen_refused}
use my_apue.Open.Request.{
  csopen_request, Globals, Kernel, answered, undefined_request, handle_request, cli_args,
  cannot_open, args_loop, buf_args, parsed,
}

-- "a1" and "b"
abbrev a1 : List ℕ
a1 = 97 ∷ 49 ∷ []

abbrev b : List ℕ
b = 98 ∷ []

abbrev opener : List ℕ → ℤ → ℤ
unfolding same_bytes
opener name oflag = if same_bytes name a1 then pos 7 else minus_one

-- With "no" for the error.
abbrev kernel : Kernel
kernel = record {
  open_file = opener;
  strerror = 110 ∷ 111 ∷ [];
  writen = λ t. pos (length t);
  sendmsg = λ m. pos (length m.bytes);
  control_ok = true;
}

kernel-Works : Works kernel
kernel-Works = record { writes = λ t. refl; sends = λ m. refl; memory = refl }

abbrev at_first : Globals
at_first = record { errmsg = []; pathname = []; oflag = pos 0 }

a1-IsWord : IsWord a1
a1-IsWord = (refl, omega arith, (refl, omega arith, tt))

b-IsWord : IsWord b
b-IsWord = (refl, omega arith, tt)

-- The white space before the first word stays in `argv[0]`.
blank_first : buf_args 5 (32 ∷ 97 ∷ 9 ∷ 98 ∷ []) ≡ parsed ((32 ∷ 97 ∷ []) ∷ (98 ∷ []) ∷ [])
unfolding buf_args args_loop strtok
blank_first = refl

buf_args-InBounds_example : InBounds (buf_args 9 (97 ∷ 32 ∷ 98 ∷ 32 ∷ 99 ∷ []))
buf_args-InBounds_example = buf_args-InBounds 9 (97 ∷ 32 ∷ 98 ∷ 32 ∷ 99 ∷ []) (omega arith)

a1_opens : kernel.open_file a1 (pos 0) ≡ pos 7
unfolding same_bytes
a1_opens = refl

b_fails : kernel.open_file b (pos 0) ≡ minus_one
unfolding same_bytes
b_fails = refl

csopen_opens_example :
    (handle_request 3 kernel 1000 (csopen_request a1 (pos 0)) at_first
      ≡ answered
          (fd_msg (pos 7) ∷ [])
          (some (pos 7))
          (asked kernel kernel-Works a1 (pos 0) a1-IsWord refl at_first))
    × (recv_fd true
          (λ t. pos (length t))
          (received (record (fd_msg (pos 7)) { control = some 3 }) ∷ [])
        ≡ returned (pos 3) [])
csopen_opens_example =
    csopen_opens kernel kernel-Works a1 (pos 0) a1-IsWord refl 0 1000 at_first 7 3
      (λ t. pos (length t)) a1_opens

-- "cannot open b: no" and a line feed
abbrev front : List ℕ
front = 99 ∷ 97 ∷ 110 ∷ 110 ∷ 111 ∷ 116 ∷ 32 ∷ 111 ∷ 112 ∷ 101 ∷ 110 ∷ 32 ∷ []

abbrev back : List ℕ
back = 98 ∷ 58 ∷ 32 ∷ 110 ∷ 111 ∷ 10 ∷ []

front-Text : Text front
front-Text = (
  omega arith,
  (
    omega arith,
    (
      omega arith,
      (
        omega arith,
        (
          omega arith,
          (
            omega arith,
            (
              omega arith,
              (omega arith, (omega arith, (omega arith, (omega arith, (omega arith, tt))))),
            ),
          ),
        ),
      ),
    ),
  ),
)

back-Text : Text back
back-Text =
    (omega arith, (omega arith, (omega arith, (omega arith, (omega arith, (omega arith, tt))))))

csopen_refused_example :
    (sent : List Msg) × (handle_request 3 kernel 1000 (csopen_request b (pos 0)) at_first
      ≡ answered sent none (record (asked kernel kernel-Works b (pos 0) b-IsWord refl at_first) {
        errmsg = cannot_open b (110 ∷ 111 ∷ []);
      }))
    × (flatten (map bytes_of sent) ≡ cannot_open b (110 ∷ 111 ∷ []) ++ (fd_msg minus_one).bytes)
    × (recv_fd true (λ t. pos (length t)) (arrivals (front ∷ []) back (fd_msg minus_one))
        ≡ returned minus_one (pieces (front ∷ []) back))
    × (flatten (pieces (front ∷ []) back) ≡ cannot_open b (110 ∷ 111 ∷ []))
csopen_refused_example =
    csopen_refused kernel kernel-Works b (pos 0) b-IsWord refl 0 1000 at_first 0
      (λ t. pos (length t)) (front ∷ []) back b_fails refl (λ t. refl) (front-Text, omega arith, tt)
      back-Text refl

-- A name with "%s" in it makes the error's text a format with a conversion.
abbrev percent : List ℕ
percent = 37 ∷ 115 ∷ []

percent_undefined :
    handle_request 3 kernel 1000 (csopen_request percent (pos 0)) at_first ≡ undefined_request
unfolding handle_request buf_args args_loop strtok cli_args same_bytes c_string decimal digits atoi
    atoi_digits
percent_undefined = refl
