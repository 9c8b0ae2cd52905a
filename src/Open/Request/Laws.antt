-- ===== src/Open/Request/Laws.antt =====
-- The answer to a request that `csopen` writes.
use mathlib.Core.Path.{subst}
use mathlib.Core.List.{append_assoc}
use my_apue.Prelude.{
  ℕ, suc, ◌-◌, ◌≡◌, refl, ap, ◌∙◌, some, true, false, List, [], ◌∷◌, ◌++◌, leb, arith, length,
}
use my_apue.Prelude.Bytes.{c_string, same_bytes_refl}
use my_apue.Prelude.Int.{ℤ, pos}
use my_apue.Open.Request.Text.{strtok, decimal, in_int}
use my_apue.Open.Request.Words.{IsWord, strtok-append, strtok_alone, IsWord-Plain, c_string_request}
use my_apue.Open.Request.Decimal.{atoi-decimal, decimal-IsWord}
use my_apue.Open.Request.{
  cs_open, maxargc, csopen_request, parsed, args_loop, buf_args, Globals, cli_args, Kernel,
  open_and_send, after_args, ends_in_null, handle_request,
}

cs_open-IsWord : IsWord cs_open
cs_open-IsWord = (
  refl,
  omega arith,
  (
    refl,
    omega arith,
    (
      refl,
      omega arith,
      (
        refl,
        omega arith,
        (
          refl,
          omega arith,
          (
            refl,
            omega arith,
            (
              refl,
              omega arith,
              (
                refl,
                omega arith,
                (
                  refl,
                  omega arith,
                  (
                    refl,
                    omega arith,
                    (
                      refl,
                      omega arith,
                      (
                        refl,
                        omega arith,
                        (
                          refl,
                          omega arith,
                          (
                            refl,
                            omega arith,
                            (refl, omega arith, (refl, omega arith, (refl, omega arith, tt))),
                          ),
                        ),
                      ),
                    ),
                  ),
                ),
              ),
            ),
          ),
        ),
      ),
    ),
  ),
)

args_loop-strtok :
    (k : ℕ) (argv : List (List ℕ)) (rest : List ℕ) {skipped w rest' : List ℕ}
    → strtok rest ≡ some (skipped, w, rest')
    → leb (maxargc - 1) (length argv) ≡ false
    → args_loop (suc k) argv rest ≡ args_loop k (argv ++ w ∷ []) rest'
unfolding args_loop
args_loop-strtok k argv rest e room = rw (args_loop, e) (rw room)

args_loop_end : (k : ℕ) (argv : List (List ℕ)) → args_loop (suc k) argv [] ≡ parsed argv
unfolding args_loop strtok
args_loop_end k argv = refl

buf_args-strtok :
    (fuel : ℕ) (buf : List ℕ) {skipped w rest : List ℕ}
    → strtok buf ≡ some (skipped, w, rest)
    → buf_args fuel buf ≡ args_loop fuel ((skipped ++ w) ∷ []) rest
unfolding buf_args
buf_args-strtok fuel buf e = rw (buf_args, e)

pub buf_args_three :
    (k : ℕ) (a b c : List ℕ)
    → IsWord a
    → IsWord b
    → IsWord c
    → buf_args (suc (suc (suc k))) (a ++ (32 ∷ (b ++ (32 ∷ c)))) ≡ parsed (a ∷ b ∷ c ∷ [])
buf_args_three k a b c ha hb hc =
    buf_args-strtok (suc (suc (suc k))) _ (strtok-append a (b ++ (32 ∷ c)) ha)
    ∙ args_loop-strtok (suc (suc k)) (a ∷ []) _ (strtok-append b c hb) refl
    ∙ args_loop-strtok (suc k) (a ∷ b ∷ []) _ (strtok_alone c hc) refl
    ∙ args_loop_end k (a ∷ b ∷ c ∷ [])

cli_args_lem :
    (name : List ℕ) (oflag : ℤ) (g : Globals)
    → cli_args (cs_open ∷ name ∷ decimal oflag ∷ []) g
      ≡ (pos 0, record g { pathname = name; oflag = oflag })
unfolding cli_args
cli_args_lem name oflag g =
    rw (same_bytes_refl cs_open)
      (ap (λ x. (pos 0, record g { pathname = name; oflag = x })) (atoi-decimal oflag))

pub ends_in_null-append : (cs : List ℕ) → ends_in_null (cs ++ 0 ∷ []) ≡ true
ends_in_null-append [] = refl
ends_in_null-append (c ∷ []) = refl
ends_in_null-append (c ∷ d ∷ cs) = ends_in_null-append (d ∷ cs)

ends_in_null_request : (name : List ℕ) (oflag : ℤ) → ends_in_null (csopen_request name oflag) ≡ true
ends_in_null_request name oflag =
    subst (λ x. ends_in_null x ≡ true)
      (append_assoc (cs_open ++ 32 ∷ []) (name ++ (32 ∷ decimal oflag)) (0 ∷ [])
        ∙ ap (λ x. (cs_open ++ 32 ∷ []) ++ x) (append_assoc name (32 ∷ decimal oflag) (0 ∷ [])))
      (ends_in_null-append ((cs_open ++ 32 ∷ []) ++ (name ++ (32 ∷ decimal oflag))))

handle_request-buf_args :
    (fuel : ℕ) (kernel : Kernel) (uid : ℕ) (bytes : List ℕ) (g : Globals) {argv : List (List ℕ)}
    → ends_in_null bytes ≡ true
    → buf_args fuel (c_string bytes) ≡ parsed argv
    → handle_request fuel kernel uid bytes g ≡ after_args kernel (some (cli_args argv g))
unfolding handle_request
handle_request-buf_args fuel kernel uid bytes g full e = rw full (rw e)

-- `handle_request` on a request that `csopen` wrote, for a name that is one word and an `oflag` that is an `int`,
-- gets to `open` with that name and that `oflag`; three rounds of the loop of `buf_args` are
-- enough.
pub handle_request-csopen :
    (k : ℕ) (kernel : Kernel) (uid : ℕ) (name : List ℕ) (oflag : ℤ) (g : Globals)
    → IsWord name
    → in_int oflag ≡ true
    → handle_request (suc (suc (suc k))) kernel uid (csopen_request name oflag) g
      ≡ open_and_send kernel (record g { pathname = name; oflag = oflag })
handle_request-csopen k kernel uid name oflag g h fits =
    handle_request-buf_args (suc (suc (suc k))) kernel uid (csopen_request name oflag) g
      (ends_in_null_request name oflag)
      (ap (buf_args (suc (suc (suc k)))) (
          c_string_request cs_open name (decimal oflag) (IsWord-Plain cs_open cs_open-IsWord)
            (IsWord-Plain name h) (IsWord-Plain _ (decimal-IsWord oflag)))
        ∙ buf_args_three k cs_open name (decimal oflag) cs_open-IsWord h (decimal-IsWord oflag))
    ∙ ap (λ x. after_args kernel (some x)) (cli_args_lem name oflag g)
    ∙ rw fits refl
