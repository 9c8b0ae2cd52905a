-- ===== src/Ruptime/Start.antt =====
-- The sockets of the servers of my-src/Chapter-16, and the loops that look for an address (16-17.c, 16-18.c).
use mathlib.Core.Path.{subst}
use my_apue.Prelude.{
  ℕ, zero, suc, ◌≡◌, refl, sym, ap, ◌∙◌, ◌⊎◌, inl, inr, Option, none, some, Bool, true, false, not,
  ◌&&◌, ◌||◌, List, [], ◌∷◌, if◌then◌else◌,
}
use my_apue.Prelude.Int.{pos, minus_one}
use my_apue.Ruptime.{Fds, open_fd}
use my_apue.Ruptime.Attempts.{close-open}
use my_apue.Ruptime.Server.{
  SockType, stream, listens, Setup, Init, errout, bind_socket, init_server, init_reusing, listening,
  qlen, Node, init_node, after_init, start, after_init_18, start_18,
}

-- A new socket is on a descriptor that was not open.
abbrev pub Fresh : Fds → Option ℕ → Type 0
Fresh fds none = Unit {0}
Fresh fds (some fd) = fds fd ≡ false

-- Every call succeeds for a socket that listens, or one fails.
abbrev pub works : SockType → Setup → Bool
works type c = c.bind && (not (listens type) || c.listen)

-- What comes of the calls: a socket beside the descriptors before, with a queue when its type listens; or
-- -1, with the descriptors as before.
abbrev pub Inits : SockType → ℕ → Bool → Option ℕ → Fds → Init → Type 0
Inits type queue works none fds r = r ≡ (minus_one, none, fds)
Inits type queue works (some fd) fds r = r ≡ (
    if works
    then (pos fd, (if listens type then some queue else none), open_fd fd fds)
    else (minus_one, none, fds))

module _ (fd : ℕ) (fds : Fds) (new : fds fd ≡ false) where
  errout-closes : errout fd (open_fd fd fds) ≡ (minus_one, none, fds)
  errout-closes = ap (λ f. (minus_one, none, f)) (close-open fd fds new)

  bound-Inits :
      (binds has_queue queues : Bool) (ready : Init)
      → (if not binds
          then errout fd (open_fd fd fds)
          else if has_queue && not queues
          then errout fd (open_fd fd fds)
          else ready)
        ≡ (if binds && (not has_queue || queues) then ready else (minus_one, none, fds))
  bound-Inits false has_queue queues ready = errout-closes
  bound-Inits true false queues ready = refl
  bound-Inits true true false ready = errout-closes
  bound-Inits true true true ready = refl

  reused-Inits :
      (reuses works : Bool) (bound ready : Init)
      → bound ≡ (if works then ready else (minus_one, none, fds))
      → (if not reuses then errout fd (open_fd fd fds) else bound)
        ≡ (if reuses && works then ready else (minus_one, none, fds))
  reused-Inits false works bound ready e = errout-closes
  reused-Inits true works bound ready e = e

init_server-Inits :
    (type : SockType) (queue : ℕ) (c : Setup) (socket : Option ℕ) (fds : Fds)
    → Fresh fds socket
    → Inits type queue (works type c) socket fds (init_server type queue c socket fds)
unfolding init_server bind_socket
init_server-Inits type queue c none fds new = refl
init_server-Inits type queue c (some fd) fds new =
    bound-Inits fd fds new c.bind (listens type) c.listen _

-- `init_server` of 16-12.c, with a queue of length `queue`, and of 16-22.c, with an address of length
-- `alen`, on a socket that was not open: when each call that they make succeeds, they return it, open beside
-- what was, with a queue when its type has one, of length `queue` and, in 16-22.c, `alen`; otherwise they
-- return -1 with the descriptors as before.
pub init_servers-Inits :
    (type : SockType) (queue alen : ℕ) (c : Setup) (socket : Option ℕ) (fds : Fds)
    → Fresh fds socket
    → Inits type queue (works type c) socket fds (init_server type queue c socket fds)
      × Inits type alen (c.reuse && works type c) socket fds (init_reusing type alen c socket fds)
unfolding init_reusing bind_socket
init_servers-Inits type queue alen c none fds new =
    (init_server-Inits type queue c none fds new, refl)
init_servers-Inits type queue alen c (some fd) fds new = (
  init_server-Inits type queue c (some fd) fds new,
  reused-Inits fd fds new c.reuse (works type c) _ _
      (bound-Inits fd fds new c.bind (listens type) c.listen _),
)

-- The address has a socket and its calls succeed; or not.
abbrev pub Works : Setup → ℕ → Type 0
Works c fd = (c.socket ≡ some fd) × (works stream c ≡ true)

abbrev pub Fails : Setup → Type 0
Fails c = (c.socket ≡ none) ⊎ (works stream c ≡ false)

pub works-init :
    (a : Node) (n : ℕ) (fd : ℕ) (fds : Fds)
    → Works (a n) fd
    → fds fd ≡ false
    → init_node a n fds ≡ (pos fd, some qlen, open_fd fd fds)
works-init a n fd fds (at, good) new =
    subst (λ s. init_server stream qlen (a n) s fds ≡ (pos fd, some qlen, open_fd fd fds)) (sym at)
      (init_server-Inits stream qlen (a n) (some fd) fds new
        ∙ ap (λ b. if b then (pos fd, some qlen, open_fd fd fds) else (minus_one, none, fds)) good)

fails-socket :
    (c : Setup) (socket : Option ℕ) (fds : Fds)
    → (socket ≡ none) ⊎ (works stream c ≡ false)
    → Fresh fds socket
    → init_server stream qlen c socket fds ≡ (minus_one, none, fds)
fails-socket c none fds bad new = init_server-Inits stream qlen c none fds new
fails-socket c (some fd) fds (inl e) new = cc
fails-socket c (some fd) fds (inr bad) new =
    init_server-Inits stream qlen c (some fd) fds new
    ∙ ap (λ b. if b then (pos fd, some qlen, open_fd fd fds) else (minus_one, none, fds)) bad

Fails-init :
    (a : Node) (n : ℕ) (fds : Fds)
    → Fails (a n)
    → Fresh fds (a n).socket
    → init_node a n fds ≡ (minus_one, none, fds)
Fails-init a n fds bad new = fails-socket (a n) (a n).socket fds bad new

-- The first address that works, in turn `n` and after; its socket.
abbrev pub FirstWorks : Fds → List Node → ℕ → ℕ → Type 0
FirstWorks fds [] n fd = ⊥
FirstWorks fds (a ∷ addresses) n fd =
    (Works (a n) fd × (fds fd ≡ false))
    ⊎ ((Fails (a n) × Fresh fds (a n).socket) × FirstWorks fds addresses (suc n) fd)

pub start-FirstWorks :
    (addresses : List Node) (n fd : ℕ) (fds : Fds)
    → FirstWorks fds addresses n fd
    → start addresses n fds ≡ listening fd (some qlen) (open_fd fd fds)
unfolding start
start-FirstWorks [] n fd fds f = absurd f
start-FirstWorks (a ∷ addresses) n fd fds (inl (good, new)) =
    ap (λ r. after_init r (λ fds'. start addresses (suc n) fds')) (works-init a n fd fds good new)
start-FirstWorks (a ∷ addresses) n fd fds (inr ((bad, new), f)) =
    ap (λ r. after_init r (λ fds'. start addresses (suc n) fds')) (Fails-init a n fds bad new)
    ∙ start-FirstWorks addresses (suc n) fd fds f

module _ (a b : Node) (addresses : List Node) (fds : Fds) (first_fails : Fails (a 0))
    (first_new : Fresh fds (a 0).socket) (fails : (n : ℕ) → Fails (b (suc n)))
    (new : (n : ℕ) → Fresh fds (b (suc n)).socket) where
  stuck_at_b : (fuel n : ℕ) → start_18 fuel (a ∷ b ∷ addresses) (b ∷ addresses) (suc n) fds ≡ none
  unfolding start_18
  stuck_at_b zero n = refl
  stuck_at_b (suc fuel) n =
      ap
        (λ r.
          after_init_18 r
            (λ fds'. start_18 fuel (a ∷ b ∷ addresses) (b ∷ addresses) (suc (suc n)) fds'))
        (Fails-init b (suc n) fds (fails n) (new n))
      ∙ stuck_at_b fuel (suc n)

  stuck_at_a : (fuel : ℕ) → start_18 fuel (a ∷ b ∷ addresses) (a ∷ b ∷ addresses) 0 fds ≡ none
  unfolding start_18
  stuck_at_a zero = refl
  stuck_at_a (suc fuel) =
      ap (λ r. after_init_18 r (λ fds'. start_18 fuel (a ∷ b ∷ addresses) (b ∷ addresses) 1 fds'))
        (Fails-init a 0 fds first_fails first_new)
      ∙ stuck_at_b fuel 0

  -- When the first address fails, and the second each time that it is tried, with new sockets if any, the loop
  -- of 16-17.c goes on to the addresses after them, and the loop of 16-18.c never ends, whatever they are.
  pub starts_differ :
      (start (a ∷ b ∷ addresses) 0 fds ≡ start addresses 2 fds)
      × ((fuel : ℕ) → start_18 fuel (a ∷ b ∷ addresses) (a ∷ b ∷ addresses) 0 fds ≡ none)
  unfolding start
  starts_differ = (
    ap (λ r. after_init r (λ fds'. start (b ∷ addresses) 1 fds'))
          (Fails-init a 0 fds first_fails first_new)
        ∙ ap (λ r. after_init r (λ fds'. start addresses 2 fds'))
            (Fails-init b 1 fds (fails 0) (new 0)),
    stuck_at_a,
  )
