-- ===== src/Open/Server/Gone.antt =====
-- What one entry of the scan of `loop` closes, my-src/Chapter-17/open-2/17-29.c.
use mathlib.Core.Path.{subst}
use my_apue.Prelude.{
  ℕ, suc, ◌<◌, ◌≡◌, refl, sym, ap, ◌∙◌, ◌≢◌, ◌⊎◌, inl, inr, Option, none, some, Bool, true, false,
  not, ◌&&◌, List, [], ◌∷◌, arith, ◌==◌, length, get_elem?, Bool-cases,
}
use my_apue.Prelude.Int.{ℤ, pos, negsuc}
use my_apue.Open.Clients.{Client, entries, client_del}
use my_apue.Open.Request.{Handled, answered, undefined_request, ended, stuck, handle_request}
use my_apue.Open.Server.{
  Server, Answers, Round, goes, quits, undefined, unfinished, count, without_fd, logged, dropped,
  after_request, serve_read, serve_fd, serve_entry,
}
use my_apue.Open.Server.Entries.{in_use, fd_at, client_del-Freed, client_del_finds, fd_at-get}
use my_apue.Open.Server.Laws.{IsServing}
use my_apue.Open.Server.Scans.{Asked}
use my_apue.Open.Server.Rounds.{get_inside}

-- The end of the file has come on a descriptor that `select` reports.
abbrev pub is_eof : Option (List ℕ) → Bool
is_eof none = false
is_eof (some []) = true
is_eof (some (b ∷ bs)) = false

abbrev pub gone : Answers → ℕ → Bool
gone a fd = a.rset fd && is_eof (a.read fd)

abbrev pub has_fd : Option ℕ → ℕ → Bool
has_fd none fd = false
has_fd (some x) fd = fd == x

-- Why entry `i` ends the process: on its descriptor, which `select` reports, a `read` fails, or the request
-- read from it ends the process.
abbrev pub Refusal : Answers → ℕ → Server → Type 0
Refusal a i s =
    ((c : Client) × (fd : ℕ) × (get_elem? (entries s.clients.client) i ≡ some c)
      × (c.fd ≡ pos fd)
      × (a.rset fd ≡ true)
      × (a.read fd ≡ none))
    ⊎ Asked a ended i s

-- What entry `i` does: the descriptor is no longer watched if it is gone, and no other entry changes.
abbrev pub Did : Answers → ℕ → Server → Round → Type 0
Did a i s (goes s') =
    ((fd : ℕ)
      → s'.allset fd
        ≡ (s.allset fd && not (has_fd (fd_at (entries s.clients.client) i) fd && gone a fd)))
    × ((j : ℕ) → i ≢ j → fd_at (entries s'.clients.client) j ≡ fd_at (entries s.clients.client) j)
Did a i s quits = Refusal a i s
Did a i s undefined = Unit {0}
Did a i s unfinished = Unit {0}

pub and_true : (x : Bool) → x ≡ (x && true)
and_true true = refl
and_true false = refl

pub and_false : (x : Bool) → false ≡ (x && false)
and_false true = refl
and_false false = refl

kept_bit :
    (x : Bool) (g : ℕ → Bool) (fd clifd : ℕ)
    → g clifd ≡ false
    → x ≡ (x && not ((fd == clifd) && g fd))
kept_bit x g fd clifd e = elim (Bool-cases (fd == clifd)) [
  | inl same ↦ let p : fd ≡ clifd = ground arith in rw same (rw (ap g p ∙ e) (and_true x))
  | inr other ↦ rw other (and_true x)
]

dropped_bit :
    (set g : ℕ → Bool) (fd clifd : ℕ)
    → g clifd ≡ true
    → without_fd clifd set fd ≡ (set fd && not ((fd == clifd) && g fd))
dropped_bit set g fd clifd e = elim (Bool-cases (fd == clifd)) [
  | inl same ↦ let p : fd ≡ clifd = ground arith in rw same (rw (ap g p ∙ e) (and_false (set fd)))
  | inr other ↦ rw other (and_true (set fd))
]

-- An entry that is not gone.
same-Did :
    (a : Answers) (i clifd : ℕ) (s : Server)
    → fd_at (entries s.clients.client) i ≡ some clifd
    → gone a clifd ≡ false
    → (fd : ℕ)
    → s.allset fd
      ≡ (s.allset fd && not (has_fd (fd_at (entries s.clients.client) i) fd && gone a fd))
same-Did a i clifd s at here fd =
    subst (λ o. s.allset fd ≡ (s.allset fd && not (has_fd o fd && gone a fd))) (sym at)
      (kept_bit (s.allset fd) (gone a) fd clifd here)

request-Did :
    (a : Answers) (i clifd : ℕ) (c : Client) (bytes : List ℕ) (r : Handled) (s : Server)
    → fd_at (entries s.clients.client) i ≡ some clifd
    → gone a clifd ≡ false
    → get_elem? (entries s.clients.client) i ≡ some c
    → c.fd ≡ pos clifd
    → a.rset clifd ≡ true
    → a.read clifd ≡ some bytes
    → handle_request (suc (length bytes)) (a.kernel clifd) c.uid bytes s.globals ≡ r
    → Did a i s (after_request a clifd r s)
request-Did a i clifd c bytes (answered msgs newfd g) s at here get is ready got e =
    (same-Did a i clifd s at here, λ j ne. refl)
request-Did a i clifd c bytes undefined_request s at here get is ready got e = tt
request-Did a i clifd c bytes ended s at here get is ready got e =
    inr (c, clifd, bytes, get, is, ready, got, e)
request-Did a i clifd c bytes stuck s at here get is ready got e = tt

dropped-Did :
    (a : Answers) (i clifd : ℕ) (s : Server)
    → IsServing s
    → fd_at (entries s.clients.client) i ≡ some clifd
    → gone a clifd ≡ true
    → Did a i s (dropped clifd (client_del (pos clifd) s.clients) (logged a s))
dropped-Did a i clifd s v at here =
    let (cs, run) = client_del_finds clifd s.clients i at in
    let (f, _) = client_del-Freed clifd s.clients v.sized run in
    let place : f.place ≡ i = v.single f.place i clifd f.was at in
    rw run (
      λ fd.
          subst
            (λ o. without_fd clifd s.allset fd ≡ (s.allset fd && not (has_fd o fd && gone a fd)))
            (sym at) (dropped_bit s.allset (gone a) fd clifd here),
      λ j ne. f.others j (λ p. ne (sym place ∙ p)),
    )

read-Did :
    (a : Answers) (i clifd : ℕ) (c : Client) (r : Option (List ℕ)) (s : Server)
    → IsServing s
    → fd_at (entries s.clients.client) i ≡ some clifd
    → get_elem? (entries s.clients.client) i ≡ some c
    → c.fd ≡ pos clifd
    → a.rset clifd ≡ true
    → a.read clifd ≡ r
    → Did a i s (serve_read a clifd c.uid r s)
read-Did a i clifd c none s v at get is ready e = inl (c, clifd, get, is, ready, e)
read-Did a i clifd c (some []) s v at get is ready e =
    dropped-Did a i clifd s v at (rw ready (ap is_eof e))
read-Did a i clifd c (some (b ∷ bs)) s v at get is ready e =
    request-Did a i clifd c (b ∷ bs)
      (handle_request (suc (length (b ∷ bs))) (a.kernel clifd) c.uid (b ∷ bs) s.globals) s at
      (rw ready (ap is_eof e)) get is ready e refl

fd-Did :
    (a : Answers) (i : ℕ) (c : Client) (fd : ℤ) (s : Server)
    → IsServing s
    → fd_at (entries s.clients.client) i ≡ in_use fd
    → get_elem? (entries s.clients.client) i ≡ some c
    → c.fd ≡ fd
    → Did a i s (serve_fd a fd c.uid s)
fd-Did a i c (negsuc e) s v at get is = (
  λ fd.
      subst (λ o. s.allset fd ≡ (s.allset fd && not (has_fd o fd && gone a fd))) (sym at)
        (and_true (s.allset fd)),
  λ j ne. refl,
)
fd-Did a i c (pos clifd) s v at get is = elim (Bool-cases (a.rset clifd)) [
  | inl ready ↦ rw ready (read-Did a i clifd c (a.read clifd) s v at get is ready refl)
  | inr idle ↦ rw idle (same-Did a i clifd s at (rw idle refl), λ j ne. refl)
]

pub entry-Did :
    (a : Answers) (i : ℕ) (s : Server)
    → IsServing s
    → i < count s.maxi
    → Did a i s (serve_entry a (get_elem? (entries s.clients.client) i) s)
entry-Did a i s v h =
    let (c, at) = get_inside (entries s.clients.client) i (omega (arith, v.inside)) in
    subst (λ o. Did a i s (serve_entry a o s)) (sym at)
      (fd-Did a i c c.fd s v (fd_at-get (entries s.clients.client) i at) at refl)
