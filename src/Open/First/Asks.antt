-- ===== src/Open/First/Asks.antt =====
-- What `csopen` of my-src/Chapter-17/open-1 makes of the answer of its server.
use my_apue.Prelude.{
  ℕ, zero, suc, ◌-◌, ◌≡◌, ◌≢◌, refl, ap, ◌∙◌, Option, none, some, true, List, [], ◌∷◌, ◌++◌, arith,
  length, take,
}
use my_apue.Prelude.Bytes.{byte_at}
use my_apue.Prelude.Int.{ℤ, pos, negsuc, minus_one, ==ℤ_refl}
use my_apue.Open.Passing.{Msg, fd_msg, Recv, received, Outcome, returned, dumped, waiting, recv_fd}
use my_apue.Open.Passing.Laws.{Text, sent_msgs, recv_fd-send_err, recv_fd-send_fd}
use my_apue.Open.Request.Words.{Plain, IsWord, IsWord-Plain}
use my_apue.Open.Request.Served.{Works}
use my_apue.Open.Request.{maxline, Kernel, cannot_open}
use my_apue.Open.First.{csopen_request, csopen}
use my_apue.Open.First.Answers.{answer}

-- A message arrives whole, its descriptor with the number that the kernel gives it in the client.
abbrev pub renumbered : (ℕ → ℕ) → Option ℕ → Option ℕ
renumbered number none = none
renumbered number (some fd) = some (number fd)

abbrev pub delivered : (ℕ → ℕ) → List Msg → List Recv
delivered number [] = []
delivered number (m ∷ ms) =
    received (record m { control = renumbered number m.control }) ∷ delivered number ms

abbrev pub client_fd : (ℕ → ℕ) → ℤ → ℤ
client_fd number (pos fd) = pos (number fd)
client_fd number (negsuc e) = minus_one

abbrev pub value_of : Outcome → ℤ
value_of (returned r seen) = r
value_of (dumped seen) = minus_one
value_of (waiting seen) = minus_one

-- `csopen` of a name over a pipe that takes the request, with the server's answer.
abbrev pub ask : Kernel → (ℕ → ℕ) → List ℕ → ℤ
ask kernel number name = value_of (
    csopen (pos (length (csopen_request name (pos 0))))
      (delivered number (answer kernel name (kernel.open_file name (pos 0)))) name (pos 0))

Text-append : (cs ds : List ℕ) → Text cs → Text ds → Text (cs ++ ds)
Text-append [] ds t u = u
Text-append (c ∷ cs) ds (ne, t) u = (ne, Text-append cs ds t u)

Text-take : (n : ℕ) (cs : List ℕ) → Text cs → Text (take n cs)
Text-take zero cs t = tt
Text-take (suc n) [] t = tt
Text-take (suc n) (c ∷ cs) (ne, t) = (ne, Text-take n cs t)

Plain-Text : (cs : List ℕ) → Plain cs → Text cs
Plain-Text [] p = tt
Plain-Text (c ∷ cs) (black, ne, p) = (ne, Plain-Text cs p)

cannot_open-Text :
    (name reason : List ℕ) → IsWord name → Text reason → Text (cannot_open name reason)
cannot_open-Text name reason w t =
    Text-take (maxline - 2)
      ((99 ∷ 97 ∷ 110 ∷ 110 ∷ 111 ∷ 116 ∷ 32 ∷ 111 ∷ 112 ∷ 101 ∷ 110 ∷ 32 ∷ [])
        ++ name
        ++ 58 ∷ 32 ∷ reason
        ++ 10 ∷ [])
      (
        (λ e. omega (arith, e)),
        (
          (λ e. omega (arith, e)),
          (
            (λ e. omega (arith, e)),
            (
              (λ e. omega (arith, e)),
              (
                (λ e. omega (arith, e)),
                (
                  (λ e. omega (arith, e)),
                  (
                    (λ e. omega (arith, e)),
                    (
                      (λ e. omega (arith, e)),
                      (
                        (λ e. omega (arith, e)),
                        (
                          (λ e. omega (arith, e)),
                          (
                            (λ e. omega (arith, e)),
                            (
                              (λ e. omega (arith, e)),
                              Text-append (name ++ 58 ∷ 32 ∷ reason) (10 ∷ [])
                                  (Text-append name (58 ∷ 32 ∷ reason)
                                    (Plain-Text name (IsWord-Plain name w))
                                    ((λ e. omega (arith, e)), ((λ e. omega (arith, e)), t)))
                                  ((λ e. omega (arith, e)), tt),
                            ),
                          ),
                        ),
                      ),
                    ),
                  ),
                ),
              ),
            ),
          ),
        ),
      )

cannot_open_filled : (name reason : List ℕ) → cannot_open name reason ≢ []
cannot_open_filled name reason e =
    absurd (let c : 99 ≡ 0 = ap (λ xs. byte_at xs 0) e in omega (arith, c))

csopen_takes :
    (arrivals : List Recv) (name : List ℕ) (oflag : ℤ)
    → csopen (pos (length (csopen_request name oflag))) arrivals name oflag
      ≡ recv_fd true (λ t. pos (length t)) arrivals
unfolding csopen
csopen_takes arrivals name oflag = rw (==ℤ_refl (pos (length (csopen_request name oflag)))) refl

delivered_error :
    (number : ℕ → ℕ) (text : List ℕ)
    → Text text
    → text ≢ []
    → recv_fd true (λ t. pos (length t)) (delivered number (sent_msgs text 0))
      ≡ returned minus_one (text ∷ [])
unfolding recv_fd fd_msg
delivered_error number [] t ne = absurd (ne refl)
delivered_error number (c ∷ cs) t ne =
    let (_, _, run, _) =
      recv_fd-send_err (λ t. pos (length t)) (λ m. pos (length m.bytes)) 0 ((c ∷ cs) ∷ []) []
        (λ t. refl) (λ m. refl) (omega arith) (t, (λ e. cc), tt) tt in
    run

-- What `csopen` makes of the answer.
pub ask-client_fd :
    (kernel : Kernel) (number : ℕ → ℕ) (name : List ℕ) (r : ℤ)
    → Works kernel
    → IsWord name
    → Text kernel.strerror
    → kernel.open_file name (pos 0) ≡ r
    → ask kernel number name ≡ client_fd number r
unfolding fd_msg
ask-client_fd kernel number name (pos fd) works w t e = rw e (
    ap value_of (
      csopen_takes (delivered number (fd_msg (pos fd) ∷ [])) name (pos 0)
      ∙ (recv_fd-send_fd (λ t. pos (length t)) kernel.sendmsg fd (number fd) works.sends).1))
ask-client_fd kernel number name (negsuc n) works w t e =
    let text : List ℕ = cannot_open name kernel.strerror in
    rw e (
      ap value_of (
        csopen_takes (delivered number (sent_msgs text 0)) name (pos 0)
        ∙ delivered_error number text (cannot_open-Text name kernel.strerror w t)
            (cannot_open_filled name kernel.strerror)))
