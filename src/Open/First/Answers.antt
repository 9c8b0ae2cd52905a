-- ===== src/Open/First/Answers.antt =====
-- How the server of my-src/Chapter-17/open-1 answers a request that its client writes.
use mathlib.Core.Path.{subst}
use mathlib.Core.List.{append_assoc}
use my_apue.Prelude.{
  ℕ, suc, ◌≡◌, refl, ap, ◌∙◌, Option, none, some, true, List, [], ◌∷◌, ◌++◌, arith,
}
use my_apue.Prelude.Bytes.{c_string, same_bytes_refl}
use my_apue.Prelude.Int.{ℤ, pos, negsuc}
use my_apue.Open.Passing.{Msg, fd_msg, send_fd}
use my_apue.Open.Passing.Laws.{sent_msgs, send_err_lem}
use my_apue.Open.Request.Text.{decimal, in_int}
use my_apue.Open.Request.Decimal.{atoi-decimal, decimal-IsWord}
use my_apue.Open.Request.Words.{IsWord, IsWord-Plain, c_string_request}
use my_apue.Open.Request.Laws.{buf_args_three, ends_in_null-append}
use my_apue.Open.Request.Served.{Works}
use my_apue.Open.Request.{buf_args, parsed, Globals, Kernel, answered, cannot_open, ends_in_null}
use my_apue.Open.First.{
  cl_open, cli_args, open_and_send, after_args, handle_request, csopen_request,
}

cl_open-IsWord : IsWord cl_open
cl_open-IsWord = (
  refl,
  (λ e. omega (arith, e)),
  (
    refl,
    (λ e. omega (arith, e)),
    (refl, (λ e. omega (arith, e)), (refl, (λ e. omega (arith, e)), tt)),
  ),
)

cli_args_lem :
    (name : List ℕ) (oflag : ℤ) (g : Globals)
    → cli_args (cl_open ∷ name ∷ decimal oflag ∷ []) g
      ≡ (pos 0, record g { pathname = name; oflag = oflag })
unfolding cli_args
cli_args_lem name oflag g =
    rw (same_bytes_refl cl_open)
      (ap (λ x. (pos 0, record g { pathname = name; oflag = x })) (atoi-decimal oflag))

ends_in_null-csopen_request :
    (name : List ℕ) (oflag : ℤ) → ends_in_null (csopen_request name oflag) ≡ true
ends_in_null-csopen_request name oflag =
    subst (λ x. ends_in_null x ≡ true)
      (append_assoc (cl_open ++ 32 ∷ []) (name ++ (32 ∷ decimal oflag)) (0 ∷ [])
        ∙ ap (λ x. (cl_open ++ 32 ∷ []) ++ x) (append_assoc name (32 ∷ decimal oflag) (0 ∷ [])))
      (ends_in_null-append ((cl_open ++ 32 ∷ []) ++ (name ++ (32 ∷ decimal oflag))))

handle_request-buf_args :
    (fuel : ℕ) (kernel : Kernel) (bytes : List ℕ) (g : Globals) {argv : List (List ℕ)}
    → ends_in_null bytes ≡ true
    → buf_args fuel (c_string bytes) ≡ parsed argv
    → handle_request fuel kernel bytes g ≡ after_args kernel (some (cli_args argv g))
unfolding handle_request
handle_request-buf_args fuel kernel bytes g full e = rw full (rw e)

-- With fuel for three rounds of the loop of `buf_args`, the server comes to `open` with the name and the
-- flags of the request.
pub handle_request-csopen_request :
    (k : ℕ) (kernel : Kernel) (name : List ℕ) (oflag : ℤ) (g : Globals)
    → IsWord name
    → in_int oflag ≡ true
    → handle_request (suc (suc (suc k))) kernel (csopen_request name oflag) g
      ≡ open_and_send kernel (record g { pathname = name; oflag = oflag })
handle_request-csopen_request k kernel name oflag g h fits =
    handle_request-buf_args (suc (suc (suc k))) kernel (csopen_request name oflag) g
      (ends_in_null-csopen_request name oflag)
      (ap (buf_args (suc (suc (suc k)))) (
          c_string_request cl_open name (decimal oflag) (IsWord-Plain cl_open cl_open-IsWord)
            (IsWord-Plain name h) (IsWord-Plain _ (decimal-IsWord oflag)))
        ∙ buf_args_three k cl_open name (decimal oflag) cl_open-IsWord h (decimal-IsWord oflag))
    ∙ ap (λ x. after_args kernel (some x)) (cli_args_lem name oflag g)
    ∙ rw fits refl

-- The answer over sockets that take everything: the descriptor, or the text of the error and the status.
abbrev pub answer : Kernel → List ℕ → ℤ → List Msg
answer kernel name (pos fd) = fd_msg (pos fd) ∷ []
answer kernel name (negsuc e) = sent_msgs (cannot_open name kernel.strerror) 0

opens-answer :
    (kernel : Kernel) (g : Globals) (r : ℤ)
    → Works kernel
    → kernel.open_file g.pathname g.oflag ≡ r
    → (newfd : Option ℤ) × (g' : Globals) × (open_and_send kernel g
        ≡ answered (answer kernel g.pathname r) newfd g')
unfolding send_fd
opens-answer kernel g (pos fd) works e =
    (some (pos fd), g, rw e (rw works.memory (rw (works.sends _))))
opens-answer kernel g (negsuc e') works e =
    let text : List ℕ = cannot_open g.pathname kernel.strerror in
    (
      none,
      record g { errmsg = text },
      rw e (
          rw works.memory (
            rw (works.writes _) (
              ap (λ r. answered r.1 none (record g { errmsg = text }))
                (send_err_lem kernel.sendmsg 0 text works.sends)))),
    )

-- What the server does with a request for a name that is one word.
pub request-answer :
    (k : ℕ) (kernel : Kernel) (name : List ℕ) (oflag : ℤ) (g : Globals)
    → Works kernel
    → IsWord name
    → in_int oflag ≡ true
    → (newfd : Option ℤ) × (g' : Globals) × (handle_request
          (suc (suc (suc k)))
          kernel
          (csopen_request name oflag)
          g
        ≡ answered (answer kernel name (kernel.open_file name oflag)) newfd g')
request-answer k kernel name oflag g works is_word fits =
    let (newfd, g', run) =
      opens-answer kernel (record g { pathname = name; oflag = oflag })
        (kernel.open_file name oflag) works refl in
    (newfd, g', handle_request-csopen_request k kernel name oflag g is_word fits ∙ run)
