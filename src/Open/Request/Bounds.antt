-- ===== src/Open/Request/Bounds.antt =====
-- `buf_args` of my-src/Chapter-17/open-2/17-23.c on any string: it returns, and stays inside `argv`.
use my_apue.Prelude.Bytes.{c_string}
use my_apue.Prelude.{
  ℕ, zero, suc, ◌-◌, ◌<◌, ◌≤◌, ◌≡◌, some, List, [], ◌∷◌, ◌++◌, leb, arith, length, length-append,
  Bool-cases, inl, inr, Option-cases,
}
use my_apue.Open.Request.Text.{is_white, skip_white, word, next_word, strtok, in_int}
use my_apue.Prelude.{◌==◌}
use my_apue.Prelude.Int.{ℤ, pos, negsuc, minus_one, is_neg}
use my_apue.Open.Passing.{send_fd}
use my_apue.Open.Request.{
  maxargc, Parsed, refused, parsed, unfinished, args_loop, buf_args, Globals, Kernel, Handled,
  answered, undefined_request, ended, stuck, after_args, answer_logged, open_and_send,
  is_plain_format, run_cli_args, cli_args, cannot_open, ends_in_null, handle_request,
}

skip_white_shorter : (cs : List ℕ) → length (skip_white cs).1 ≤ length cs
skip_white_shorter [] = omega arith
skip_white_shorter (c ∷ cs) = elim (Bool-cases (is_white c)) [
  | inl white ↦ rw white (omega (arith, skip_white_shorter cs))
  | inr black ↦ rw black (omega arith)
]

word_shorter : (c : ℕ) (cs : List ℕ) → length (word (c ∷ cs)).1 ≤ length cs
word_shorter c [] = elim (Bool-cases (is_white c)) [
  | inl white ↦ rw white (omega arith)
  | inr black ↦ rw black (omega arith)
]
word_shorter c (d ∷ cs) = elim (Bool-cases (is_white c)) [
  | inl white ↦ rw white (omega arith)
  | inr black ↦ rw black (omega (arith, word_shorter d cs))
]

next_word_shorter :
    (p : List ℕ × List ℕ) {skipped w rest : List ℕ}
    → next_word p ≡ some (skipped, w, rest)
    → length rest < length p.1
next_word_shorter (x, []) e = cc
next_word_shorter (x, c ∷ cs) {rest = rest} e =
    let is : rest ≡ (word (c ∷ cs)).1 = cc in rw is (omega (arith, word_shorter c cs))

strtok_shorter :
    (cs : List ℕ) {skipped w rest : List ℕ}
    → strtok cs ≡ some (skipped, w, rest)
    → length rest < length cs
unfolding strtok
strtok_shorter cs e = omega (arith, next_word_shorter (skip_white cs) e, skip_white_shorter cs)

-- The fuel was enough, and the final `argv[++argc] = NULL` is inside the array.
abbrev pub InBounds : Parsed → Type 0
InBounds refused = Unit {0}
InBounds (parsed argv) = length argv < maxargc
InBounds unfinished = ⊥

args_loop-InBounds :
    (fuel : ℕ) (argv : List (List ℕ)) (rest : List ℕ)
    → length rest < fuel
    → length argv < maxargc
    → InBounds (args_loop fuel argv rest)
unfolding args_loop
args_loop-InBounds zero argv rest h room = absurd (omega arith)
args_loop-InBounds (suc k) argv rest h room = elim (Option-cases (strtok rest)) [
  | inl last ↦ rw (args_loop, last) room
  | inr ((skipped, w, rest'), e) ↦ elim (Bool-cases (leb (maxargc - 1) (length argv))) [
    | inl full ↦ rw (args_loop, e) (rw full tt)
    | inr more ↦
        rw (args_loop, e)
          (rw more (
            args_loop-InBounds k (argv ++ w ∷ []) rest' (omega (arith, strtok_shorter rest e))
              (ground (arith, length-append argv (w ∷ [])))))
  ]
]

-- On any string, `buf_args` with fuel above the length of the string finishes, and what it stores in
-- `argv`, the NULL at the end included, fits into the 50 entries.
pub buf_args-InBounds : (fuel : ℕ) (buf : List ℕ) → length buf < fuel → InBounds (buf_args fuel buf)
unfolding buf_args
buf_args-InBounds fuel buf h = elim (Option-cases (strtok buf)) [
  | inl blank ↦ rw (buf_args, blank) tt
  | inr ((skipped, w, rest), e) ↦
      rw (buf_args, e)
        (args_loop-InBounds fuel ((skipped ++ w) ∷ []) rest (omega (arith, strtok_shorter buf e))
          (omega arith))
]

c_string_shorter : (bytes : List ℕ) → length (c_string bytes) ≤ length bytes
unfolding c_string
c_string_shorter [] = omega arith
c_string_shorter (c ∷ cs) = elim (Bool-cases (c == 0)) [
  | inl null ↦ rw null (omega arith)
  | inr other ↦ rw other (omega (arith, c_string_shorter cs))
]

-- An end other than an empty fuel.
abbrev pub Finishes : Handled → Type 0
Finishes (answered msgs newfd g) = Unit {0}
Finishes undefined_request = Unit {0}
Finishes ended = Unit {0}
Finishes stuck = ⊥

answer_logged-Finishes : (kernel : Kernel) (g : Globals) → Finishes (answer_logged kernel g)
answer_logged-Finishes kernel g = elim (Bool-cases (is_plain_format g.errmsg)) [
  | inl plain ↦ rw plain tt
  | inr bad ↦ rw bad tt
]

open_and_send-Finishes : (kernel : Kernel) (g : Globals) → Finishes (open_and_send kernel g)
open_and_send-Finishes kernel g = elim (Bool-cases (is_neg (kernel.open_file g.pathname g.oflag))) [
  | inl failed ↦
      rw failed (
        answer_logged-Finishes kernel
          (record g { errmsg = cannot_open g.pathname kernel.strerror }))
  | inr opened ↦
      rw opened
        (elim (Bool-cases (
          is_neg
            (send_fd kernel.control_ok kernel.sendmsg (kernel.open_file g.pathname g.oflag)).0)) [
              | inl unsent ↦ rw unsent tt
              | inr sent ↦ rw sent tt
            ])
]

after_args-Finishes :
    (kernel : Kernel) (r : ℤ) (g : Globals) → Finishes (after_args kernel (some (r, g)))
after_args-Finishes kernel (negsuc e) g = answer_logged-Finishes kernel g
after_args-Finishes kernel (pos n) g = elim (Bool-cases (in_int g.oflag)) [
  | inl fits ↦ rw fits (open_and_send-Finishes kernel g)
  | inr large ↦ rw large tt
]

run-Finishes :
    (kernel : Kernel) (p : Parsed) (g : Globals)
    → InBounds p
    → Finishes (after_args kernel (run_cli_args p g))
run-Finishes kernel refused g h = after_args-Finishes kernel minus_one g
run-Finishes kernel (parsed argv) g h =
    let (r, g') = cli_args argv g in after_args-Finishes kernel r g'
run-Finishes kernel unfinished g h = absurd h

-- `handle_request` with fuel above the length of the request finishes.
pub handle_request-Finishes :
    (fuel : ℕ) (kernel : Kernel) (uid : ℕ) (bytes : List ℕ) (g : Globals)
    → length bytes < fuel
    → Finishes (handle_request fuel kernel uid bytes g)
unfolding handle_request
handle_request-Finishes fuel kernel uid bytes g h = elim (Bool-cases (ends_in_null bytes)) [
  | inl whole ↦ rw whole (
      run-Finishes kernel (buf_args fuel (c_string bytes)) g
        (buf_args-InBounds fuel (c_string bytes) (omega (arith, c_string_shorter bytes))))
  | inr cut ↦ rw cut tt
]
