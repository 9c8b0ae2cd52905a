-- ===== src/Open/Server/Rounds.antt =====
-- The rounds of `loop`, my-src/Chapter-17/open-2/17-29.c.
use mathlib.Core.Path.{subst}
use my_apue.Prelude.{
  ℕ, zero, suc, ◌+◌, ◌≤◌, ◌<◌, ◌≡◌, refl, sym, ◌∙◌, ◌⊎◌, inl, inr, Option, none, some, Bool, true,
  false, List, [], ◌∷◌, arith, ltb, length, get_elem?, Bool-cases, Option-cases,
}
use my_apue.Prelude.Int.{ℤ, pos, negsuc}
use my_apue.Open.Clients.{Client, entries, client_add, client_del}
use my_apue.Open.Request.{
  Globals, Handled, answered, undefined_request, ended, stuck, handle_request,
}
use my_apue.Open.Request.Bounds.{Finishes, handle_request-Finishes}
use my_apue.Open.Server.{
  fd_setsize, Server, Answers, Round, goes, quits, undefined, unfinished, count, accept_client,
  dropped, logged, after_request, serve_read, serve_fd, serve_entry, scan_clients, round, IsFresh,
  Reached, at_start, after_round,
}
use my_apue.Open.Server.Entries.{client_add-Took, client_del-Freed}
use my_apue.Open.Server.Laws.{
  IsServing, begin-IsServing, added-IsServing, dropped-IsServing, logged-IsServing, with_client,
}
use my_apue.Open.Server.Scans.{Asked, Within, Within-here, Within-later}

-- A step of the scan: it goes on with the same `maxi`, or ends the process, or is undefined behaviour, and
-- then `Bad`.
abbrev pub Kept : Type 0 → Server → Round → Type 0
Kept Bad s (goes s') = IsServing s' × (s'.maxi ≡ s.maxi)
Kept Bad s quits = Unit {0}
Kept Bad s undefined = Bad
Kept Bad s unfinished = ⊥

dropped-Kept :
    (Bad : Type 0) (a : Answers) (clifd : ℕ) (s : Server)
    → IsServing s
    → Kept Bad s (dropped clifd (client_del (pos clifd) s.clients) (logged a s))
dropped-Kept Bad a clifd s v = elim (Option-cases (client_del (pos clifd) s.clients)) [
  | inl missing ↦ rw missing tt
  | inr (cs, done) ↦
      let (f, sized) = client_del-Freed clifd s.clients v.sized done in
      rw done (dropped-IsServing clifd cs (logged a s) (logged-IsServing a s v) f sized, refl)
]

-- A request changes neither the table nor what is watched.
request-Kept :
    (a : Answers) (i clifd : ℕ) (c : Client) (bytes : List ℕ) (r : Handled) (s : Server)
    → Finishes r
    → IsServing s
    → get_elem? (entries s.clients.client) i ≡ some c
    → c.fd ≡ pos clifd
    → a.rset clifd ≡ true
    → a.read clifd ≡ some bytes
    → handle_request (suc (length bytes)) (a.kernel clifd) c.uid bytes s.globals ≡ r
    → Kept (Asked a undefined_request i s) s (after_request a clifd r s)
request-Kept a i clifd c bytes (answered msgs newfd g) s h v at is ready got e = (
  logged-IsServing a _ (record {
    sized = v.sized;
    listening = v.listening;
    watched = v.watched;
    owned = v.owned;
    single = v.single;
    opened = v.opened;
    high = v.high;
    inside = v.inside;
  }),
  refl,
)
request-Kept a i clifd c bytes undefined_request s h v at is ready got e =
    (c, clifd, bytes, at, is, ready, got, e)
request-Kept a i clifd c bytes ended s h v at is ready got e = tt
request-Kept a i clifd c bytes stuck s h v at is ready got e = absurd h

read-Kept :
    (a : Answers) (i clifd : ℕ) (c : Client) (r : Option (List ℕ)) (s : Server)
    → IsServing s
    → get_elem? (entries s.clients.client) i ≡ some c
    → c.fd ≡ pos clifd
    → a.rset clifd ≡ true
    → a.read clifd ≡ r
    → Kept (Asked a undefined_request i s) s (serve_read a clifd c.uid r s)
read-Kept a i clifd c none s v at is ready got = tt
read-Kept a i clifd c (some []) s v at is ready got = dropped-Kept _ a clifd s v
read-Kept a i clifd c (some (b ∷ bs)) s v at is ready got =
    request-Kept a i clifd c (b ∷ bs)
      (handle_request (suc (length (b ∷ bs))) (a.kernel clifd) c.uid (b ∷ bs) s.globals) s
      (handle_request-Finishes (suc (length (b ∷ bs))) (a.kernel clifd) c.uid (b ∷ bs) s.globals
        (omega arith))
      v at is ready got refl

fd-Kept :
    (a : Answers) (i : ℕ) (c : Client) (fd : ℤ) (s : Server)
    → IsServing s
    → get_elem? (entries s.clients.client) i ≡ some c
    → c.fd ≡ fd
    → Kept (Asked a undefined_request i s) s (serve_fd a fd c.uid s)
fd-Kept a i c (negsuc e) s v at is = (v, refl)
fd-Kept a i c (pos clifd) s v at is = elim (Bool-cases (a.rset clifd)) [
  | inl ready ↦ rw ready (read-Kept a i clifd c (a.read clifd) s v at is ready refl)
  | inr idle ↦ rw idle (v, refl)
]

pub get_inside :
    (cs : List Client) (i : ℕ) → i < length cs → (c : Client) × (get_elem? cs i ≡ some c)
get_inside [] i h = absurd (omega arith)
get_inside (c ∷ cs) zero h = (c, refl)
get_inside (c ∷ cs) (suc i) h = get_inside cs i (omega arith)

pub entry-Kept :
    (a : Answers) (i : ℕ) (s : Server)
    → IsServing s
    → i < count s.maxi
    → Kept
        (Asked a undefined_request i s)
        s
        (serve_entry a (get_elem? (entries s.clients.client) i) s)
entry-Kept a i s v h =
    let (c, at) = get_inside (entries s.clients.client) i (omega (arith, v.inside)) in
    subst (λ o. Kept (Asked a undefined_request i s) s (serve_entry a o s)) (sym at)
      (fd-Kept a i c c.fd s v at refl)

Kept-trans :
    {Bad Bad' : Type 0} (s s' : Server) (r : Round)
    → s'.maxi ≡ s.maxi
    → (Bad' → Bad)
    → Kept Bad' s' r
    → Kept Bad s r
Kept-trans s s' (goes t) same less (v, e) = (v, e ∙ same)
Kept-trans s s' quits same less h = tt
Kept-trans s s' undefined same less h = less h
Kept-trans s s' unfinished same less h = h

-- The scan of one entry more.
next-Kept :
    (a : Answers) (n i : ℕ) (s : Server) (r : Round)
    → serve_entry a (get_elem? (entries s.clients.client) i) s ≡ r
    → Kept (Asked a undefined_request i s) s r
    → ((s' : Server)
        → IsServing s'
        → s'.maxi ≡ s.maxi
        → Kept (Within (Asked a undefined_request) a n (suc i) s') s' (scan_clients a n (suc i) s'))
    → Kept (Within (Asked a undefined_request) a (suc n) i s) s (elim r [
      | goes s' ↦ scan_clients a n (suc i) s'
      | quits ↦ quits
      | undefined ↦ undefined
      | unfinished ↦ unfinished
    ])
next-Kept a n i s (goes s') e (v, same) later =
    Kept-trans s s' (scan_clients a n (suc i) s') same
      (Within-later (Asked a undefined_request) a n i s s' e) (later s' v same)
next-Kept a n i s quits e h later = tt
next-Kept a n i s undefined e h later = Within-here (Asked a undefined_request) a n i s h
next-Kept a n i s unfinished e h later = h

scan-Kept :
    (a : Answers) (n i : ℕ) (s : Server)
    → IsServing s
    → i + n ≤ count s.maxi
    → Kept (Within (Asked a undefined_request) a n i s) s (scan_clients a n i s)
unfolding scan_clients
scan-Kept a zero i s v h = (v, refl)
scan-Kept a (suc n) i s v h =
    next-Kept a n i s (serve_entry a (get_elem? (entries s.clients.client) i) s) refl
      (entry-Kept a i s v (omega arith))
      (λ s' v' same.
        scan-Kept a n (suc i) s' v'
          (subst (λ m. suc i + n ≤ count m) (sym same) (omega (arith, h))))

-- What is undefined behaviour in a round: a descriptor from `FD_SETSIZE` on, when a client connects, or
-- else a request.
abbrev pub Unplaced : Answers → Server → Type 0
Unplaced a s =
    ((a.rset s.listenfd ≡ true) × (fd : ℕ) × (a.accepted ≡ pos fd) × (fd_setsize ≤ fd))
    ⊎ ((a.rset s.listenfd ≡ false) × Within (Asked a undefined_request) a (count s.maxi) 0 s)

abbrev pub Keeps : Answers → Server → Round → Type 0
Keeps a s (goes t) = IsServing t
Keeps a s quits = Unit {0}
Keeps a s undefined = Unplaced a s
Keeps a s unfinished = ⊥

Kept-Keeps :
    (a : Answers) (s : Server) (r : Round)
    → a.rset s.listenfd ≡ false
    → Kept (Within (Asked a undefined_request) a (count s.maxi) 0 s) s r
    → Keeps a s r
Kept-Keeps a s (goes t) quiet (v, _) = v
Kept-Keeps a s quits quiet h = tt
Kept-Keeps a s undefined quiet h = inr (quiet, h)
Kept-Keeps a s unfinished quiet h = absurd h

accept-Keeps :
    (a : Answers) (z : ℤ) (s : Server)
    → IsServing s
    → IsFresh s z
    → a.rset s.listenfd ≡ true
    → a.accepted ≡ z
    → Keeps a s (accept_client a z s)
accept-Keeps a (negsuc e) s v fresh connecting is = tt
accept-Keeps a (pos clifd) s v fresh connecting is =
    elim (Option-cases (client_add 2 a.junk a.memory (pos clifd) a.uid s.clients)) [
      | inl out ↦ rw out tt
      | inr ((i, cs), run) ↦ elim (Bool-cases (ltb clifd fd_setsize)) [
        | inl fits ↦
            let (t, sized) = client_add-Took 2 a.junk a.memory clifd a.uid s.clients v.sized run in
            rw run (
              rw fits (
                logged-IsServing a (with_client clifd i cs s)
                  (added-IsServing clifd i cs s v fresh t sized)))
        | inr high ↦ rw run (rw high (inl (connecting, clifd, is, ground arith)))
      ]
    ]

round-Keeps :
    (a : Answers) (s : Server) → IsServing s → IsFresh s a.accepted → Keeps a s (round a s)
unfolding round
round-Keeps a s v fresh = elim (Bool-cases a.select_ok) [
  | inr failed ↦ rw failed tt
  | inl selected ↦ elim (Bool-cases (a.rset s.listenfd)) [
    | inl connecting ↦
        rw selected (rw connecting (accept-Keeps a a.accepted s v fresh connecting refl))
    | inr reading ↦ rw selected (
        rw reading (
          Kept-Keeps a s (scan_clients a (count s.maxi) 0 s) reading
            (scan-Kept a (count s.maxi) 0 s v (omega arith))))
  ]
]

pub Reached-IsServing :
    {listenfd : ℕ} {others : ℕ → Bool} {g : Globals} {s : Server}
    → Reached listenfd others g s
    → IsServing s
Reached-IsServing {listenfd} {others} {g} at_start = begin-IsServing listenfd others g
Reached-IsServing (after_round {s} r a fresh e) =
    subst (Keeps a s) e (round-Keeps a s (Reached-IsServing r) fresh)

-- From every state that `loop` comes to, when `serv_accept` gives descriptors that are not open, a round
-- ends the process or goes on to a state in which what is watched is `listenfd` and the descriptors of the
-- clients, each in one entry of `client` up to `maxi`, all open and none above `maxfd`. It stays inside
-- `client` and finishes. It is undefined behaviour only when a client connects on a descriptor from
-- `FD_SETSIZE` on, or when the scan has come to a client whose descriptor `select` reports and whose request
-- is undefined: by a number too large for `atoi` or by an error text with a conversion in it.
pub Reached-Keeps :
    {listenfd : ℕ} {others : ℕ → Bool} {g : Globals} (s : Server) (a : Answers)
    → Reached listenfd others g s
    → IsFresh s a.accepted
    → Keeps a s (round a s)
Reached-Keeps s a r fresh = round-Keeps a s (Reached-IsServing r) fresh
