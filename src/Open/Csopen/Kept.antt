-- ===== src/Open/Csopen/Kept.antt =====
-- The one connection that `csopen` of my-src/Chapter-17/open-2/17-25.c keeps.
use mathlib.Core.Path.{subst}
use my_apue.Prelude.{
  ℕ, ◌≡◌, refl, sym, ap, ◌∙◌, Option, none, some, Bool, true, false, ◌||◌, List, [], ◌∷◌, ◌++◌, leb,
  ◌==◌, if◌then◌else◌, length, take, arith, Bool-cases, inl, inr,
}
use my_apue.Prelude.Int.{ℤ, pos, negsuc, ◌==ℤ◌}
use my_apue.Open.Request.{cs_open, csopen_request}
use my_apue.Open.Request.Text.{decimal}
use my_apue.Open.Connect.{World, open_fd, cli_conn}
use my_apue.Open.Connect.Client.{new_fd, IsNew, first_error, Connected, ConnEnds, cli_conn-ConnEnds}
use my_apue.Open.Csopen.{
  Caller, Ask, Asked, asked, overflow, installed, opens, wrote, send_request, after_conn, on_csfd,
  csopen, Reached, at_start, after_call,
}

abbrev pub AllOn : ℕ → List (ℕ × List ℕ) → Type 0
AllOn fd [] = Unit {0}
AllOn fd ((n, bytes) ∷ sent) = (n ≡ fd) × AllOn fd sent

abbrev pub member : ℕ → List ℕ → Bool
member i [] = false
member i (n ∷ ns) = i == n || member i ns

-- The descriptors from before, the connection, and what has come over it.
abbrev pub held : World → ℕ → List ℕ → ℕ → Bool
held w fd got i = w.open_fds i || (i == fd || member i got)

-- No connection and nothing sent; or one connection, on which everything has been sent.
abbrev pub KeepsOne : World → ℤ → Caller → Type 0
KeepsOne w (negsuc e) s =
    (s.sent ≡ []) × (s.got ≡ []) × ((i : ℕ) → s.world.open_fds i ≡ w.open_fds i)
KeepsOne w (pos fd) s = AllOn fd s.sent × ((i : ℕ) → s.world.open_fds i ≡ held w fd s.got i)

abbrev KeptAfter : World → Asked → Type 0
KeptAfter w overflow = Unit {0}
KeptAfter w (asked r s) = KeepsOne w s.csfd s

AllOn-more :
    (fd : ℕ) (sent : List (ℕ × List ℕ)) (bytes : List ℕ)
    → AllOn fd sent
    → AllOn fd (sent ++ (fd, bytes) ∷ [])
AllOn-more fd [] bytes h = (refl, tt)
AllOn-more fd ((n, b) ∷ sent) bytes (e, h) = (e, AllOn-more fd sent bytes h)

one_more_held :
    (w : World) (fd n : ℕ) (got : List ℕ) (fds : ℕ → Bool)
    → ((i : ℕ) → fds i ≡ held w fd got i)
    → (i : ℕ) → (open_fd n (record w { open_fds = fds })).open_fds i ≡ held w fd (n ∷ got) i
one_more_held w fd n got fds h i = elim (Bool-cases (i == n)) [
  | inl same ↦ rw same (ground arith)
  | inr other ↦ rw other (h i)
]

opens-KeepsOne :
    (w : World) (fd : ℕ) (fds : List ℕ) (s : Caller)
    → KeepsOne w (pos fd) s
    → KeepsOne w (pos fd) (opens fds s)
opens-KeepsOne w fd [] s h = h
opens-KeepsOne w fd (n ∷ fds) s h =
    let (on, held_before) = opens-KeepsOne w fd fds s h in
    (on, one_more_held w fd n (opens fds s).got (opens fds s).world.open_fds held_before)

opens-csfd : (fds : List ℕ) (s : Caller) → (opens fds s).csfd ≡ s.csfd
opens-csfd [] s = refl
opens-csfd (fd ∷ fds) s = opens-csfd fds s

wrote-KeepsOne :
    (w : World) (fd : ℕ) (z : ℤ) (request : List ℕ) (s : Caller)
    → KeepsOne w (pos fd) s
    → KeepsOne w (pos fd) (wrote z fd request s)
wrote-KeepsOne w fd (pos n) request s (on, h) = (AllOn-more fd s.sent (take n request) on, h)
wrote-KeepsOne w fd (negsuc e) request s h = h

wrote-csfd : (fd : ℕ) (z : ℤ) (request : List ℕ) (s : Caller) → (wrote z fd request s).csfd ≡ s.csfd
wrote-csfd fd (pos n) request s = refl
wrote-csfd fd (negsuc e) request s = refl

send-KeptAfter :
    (w : World) (a : Ask) (fd : ℕ) (s : Caller)
    → s.csfd ≡ pos fd
    → KeepsOne w (pos fd) s
    → KeptAfter w (send_request a fd s)
send-KeptAfter w a fd s at h =
    let request = csopen_request a.name a.oflag in
    let s' = wrote a.writev fd request s in
    let fds : List ℕ = if a.control_ok then installed a.user a.arrivals else [] in
    let at' : s'.csfd ≡ pos fd = wrote-csfd fd a.writev request s ∙ at in
    let sent = wrote-KeepsOne w fd a.writev request s h in
    elim (Bool-cases (leb 12 (length (32 ∷ decimal a.oflag)))) [
      | inl over ↦ rw over tt
      | inr fits ↦ elim (Bool-cases (a.writev ==ℤ pos (length request))) [
        | inl whole ↦
            rw fits (rw whole (rw (opens-csfd fds s' ∙ at') (opens-KeepsOne w fd fds s' sent)))
        | inr short ↦ rw fits (rw short (rw at' sent))
      ]
    ]

-- `cli_conn` adds its descriptor to those from before.
connected_held :
    (w : World) (a : Ask) (fd : ℕ) (w' : World) (s : Caller)
    → Connected a.kernel s.world (pos fd) w'
    → fd ≡ new_fd a.kernel.socket
    → ((i : ℕ) → s.world.open_fds i ≡ w.open_fds i)
    → (i : ℕ) → w'.open_fds i ≡ held w fd [] i
connected_held w a fd w' s ends here same i = elim (Bool-cases (i == fd)) [
  | inl is_fd ↦
      let at : i ≡ new_fd a.kernel.socket = ground arith in
      let opened : w'.open_fds i ≡ true = ap w'.open_fds at ∙ ends.opened in rw is_fd (ground arith)
  | inr other ↦
      let before = ends.other_fds i (λ p. ground arith) ∙ same i in rw other (ground arith)
]

conn-KeptAfter :
    (w : World) (a : Ask) (e : Option ℕ) (c : ℤ × World) (s : Caller)
    → ConnEnds a.kernel s.world e c
    → (s.sent ≡ []) × (s.got ≡ []) × ((i : ℕ) → s.world.open_fds i ≡ w.open_fds i)
    → KeptAfter w (after_conn a c s)
conn-KeptAfter w a (some e) (negsuc n, w') s ends (sent, got, same) =
    (sent, got, λ i. ends.fds i ∙ same i)
conn-KeptAfter w a (some e) (pos fd, w') s ends h = let no = ends.negative in cc
conn-KeptAfter w a none (negsuc n, w') s ends h = let no = ends.value in cc
conn-KeptAfter w a none (pos fd, w') s ends (sent, got, same) =
    let value = ends.value in
    let here : fd ≡ new_fd a.kernel.socket = cc in
    send-KeptAfter w a fd (record s { csfd = pos fd; world = w' }) refl
      (
        subst (AllOn fd) (sym sent) tt,
        subst (λ ns. (i : ℕ) → w'.open_fds i ≡ held w fd ns i) (sym got)
            (connected_held w a fd w' s ends here same),
      )

csopen-KeptAfter :
    (w : World) (a : Ask) (z : ℤ) (s : Caller)
    → s.csfd ≡ z
    → IsNew s.world.open_fds a.kernel.socket
    → KeepsOne w z s
    → KeptAfter w (on_csfd a z s)
csopen-KeptAfter w a (pos fd) s e fresh h = send-KeptAfter w a fd s e h
csopen-KeptAfter w a (negsuc n) s e fresh h =
    conn-KeptAfter w a (first_error a.kernel.socket a.kernel.bind a.kernel.chmod a.kernel.connect)
      (cli_conn a.kernel cs_open s.world) s
      (cli_conn-ConnEnds a.kernel cs_open s.world (omega arith) fresh) h

-- In every state that calls of `csopen` come to, when each new socket has a descriptor that was not open: either
-- `csfd` is negative, nothing has been written or installed, opens, and the descriptors are those from before the
-- first call; or there is one connection, `csfd`, all that any call has written is on it, and the open
-- descriptors are those from before, this one, and those that have come with
-- messages, also where `recv_fd` does not return them.
pub Reached-KeepsOne : {w : World} {s : Caller} → Reached w s → KeepsOne w s.csfd s
unfolding csopen
Reached-KeepsOne at_start = (refl, refl, λ i. refl)
Reached-KeepsOne {w} (after_call {s} r a fresh e) =
    subst (KeptAfter w) e (csopen-KeptAfter w a s.csfd s refl fresh (Reached-KeepsOne r))
