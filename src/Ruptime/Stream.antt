-- ===== src/Ruptime/Stream.antt =====
-- What the server of my-src/Chapter-16/16-17.c sends.
use my_apue.Prelude.{
  ℕ, zero, suc, ◌≤◌, ◌<◌, ◌≡◌, ◌≢◌, refl, ap, inl, inr, false, List, [], ◌∷◌, ◌++◌, ◌==◌, length,
  arith, Bool-cases,
}
use my_apue.Prelude.Bytes.{c_string}
use my_apue.Ruptime.{Fds}
use my_apue.Ruptime.Attempts.{close-open}
use my_apue.Ruptime.Service.{
  fgets, send_lines, prints, popen_failed, Turn, accept_failed, accepted, waiting, send_uptime,
  serve,
}

-- Text without null bytes.
abbrev pub Text : List ℕ → Type 0
Text [] = Unit {0}
Text (c ∷ cs) = (c ≢ 0) × Text cs

abbrev pub joined : List (List ℕ) → List ℕ
joined [] = []
joined (piece ∷ pieces) = piece ++ joined pieces

c_string-Text : (cs : List ℕ) → Text cs → c_string cs ≡ cs
unfolding c_string
c_string-Text [] t = refl
c_string-Text (c ∷ cs) (n, t) =
    let some_byte : (c == 0) ≡ false = ground arith in
    rw some_byte (ap (λ xs. c ∷ xs) (c_string-Text cs t))

-- `fgets` cuts the text in two.
fgets-joined : (n : ℕ) (cs : List ℕ) → (fgets n cs).0 ++ (fgets n cs).1 ≡ cs
unfolding fgets
fgets-joined zero cs = refl
fgets-joined (suc n) [] = refl
fgets-joined (suc n) (c ∷ cs) = elim (Bool-cases (c == 10)) [
  | inl line_end ↦ rw line_end refl
  | inr more ↦ rw more (ap (λ xs. c ∷ xs) (fgets-joined n cs))
]

fgets-Text : (n : ℕ) (cs : List ℕ) → Text cs → Text (fgets n cs).0 × Text (fgets n cs).1
unfolding fgets
fgets-Text zero cs t = (tt, t)
fgets-Text (suc n) [] t = (tt, tt)
fgets-Text (suc n) (c ∷ cs) (b, t) = elim (Bool-cases (c == 10)) [
  | inl line_end ↦ rw line_end ((b, tt), t)
  | inr more ↦ (let (front, rest) = fgets-Text n cs t in rw more ((b, front), rest))
]

fgets-no_longer : (n : ℕ) (cs : List ℕ) → length (fgets n cs).1 ≤ length cs
unfolding fgets
fgets-no_longer zero cs = omega arith
fgets-no_longer (suc n) [] = omega arith
fgets-no_longer (suc n) (c ∷ cs) = elim (Bool-cases (c == 10)) [
  | inl line_end ↦ rw line_end (omega arith)
  | inr more ↦ rw more (omega (arith, fgets-no_longer n cs))
]

fgets-shorter : (n : ℕ) (c : ℕ) (cs : List ℕ) → length (fgets (suc n) (c ∷ cs)).1 ≤ length cs
unfolding fgets
fgets-shorter n c cs = elim (Bool-cases (c == 10)) [
  | inl line_end ↦ rw line_end (omega arith)
  | inr more ↦ rw more (fgets-no_longer n cs)
]

pub send_lines-joined :
    (fuel : ℕ) (cs : List ℕ) → Text cs → length cs < fuel → joined (send_lines fuel cs) ≡ cs
unfolding send_lines
send_lines-joined zero cs t h = absurd (omega arith)
send_lines-joined (suc fuel) [] t h = refl
send_lines-joined (suc fuel) (c ∷ cs) t h =
    let (line_text, rest_text) = fgets-Text 127 (c ∷ cs) t in
    let rest =
      send_lines-joined fuel (fgets 127 (c ∷ cs)).1 rest_text
        (omega (arith, h, fgets-shorter 126 c cs)) in
    rw (c_string-Text (fgets 127 (c ∷ cs)).0 line_text, rest) (fgets-joined 127 (c ∷ cs))

-- The turns of a server whose `uptime` prints: a new connection each, on a descriptor that was not open.
abbrev pub Prints : Fds → List Turn → Type 0
Prints fds [] = Unit {0}
Prints fds (accepted fd (prints out) ∷ turns) = (fds fd ≡ false) × Text out × Prints fds turns
Prints fds (accepted fd (popen_failed message) ∷ turns) = ⊥
Prints fds (accept_failed ∷ turns) = ⊥

-- What has been sent on the connections of the turns is the output of `uptime` in each.
abbrev pub Sends : List Turn → List (ℕ × List (List ℕ)) → Type 0
Sends [] [] = Unit {0}
Sends (accepted fd (prints out) ∷ turns) ((fd', sent) ∷ log) =
    (fd' ≡ fd) × (joined sent ≡ out) × Sends turns log
Sends (accepted fd (popen_failed message) ∷ turns) log = ⊥
Sends (accept_failed ∷ turns) log = ⊥
Sends turns log = ⊥

-- `serve` with clients on new descriptors and an `uptime` that prints text sends to each client, in order,
-- what `uptime` prints, in pieces, and waits for the next with the descriptors that were open before.
pub serve-Sends :
    (turns : List Turn) (fds : Fds)
    → Prints fds turns
    → (log : List (ℕ × List (List ℕ))) × (serve turns fds ≡ waiting fds log) × Sends turns log
unfolding serve send_uptime
serve-Sends [] fds p = ([], refl, tt)
serve-Sends (accepted fd (prints out) ∷ turns) fds (new, t, p) =
    let (log, run, sends) = serve-Sends turns fds p in
    (
      (fd, send_lines (suc (length out)) out) ∷ log,
      (rw (close-open fd fds new, run) refl),
      (refl, send_lines-joined (suc (length out)) out t (omega arith), sends),
    )
serve-Sends (accepted fd (popen_failed message) ∷ turns) fds p = absurd p
serve-Sends (accept_failed ∷ turns) fds p = absurd p
