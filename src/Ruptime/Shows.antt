-- ===== src/Ruptime/Shows.antt =====
-- What the client of my-src/Chapter-16/16-16.c shows of what the server of 16-17.c sends.
use mathlib.Core.Path.{subst}
use my_apue.Prelude.{
  ℕ, suc, ◌+◌, ◌<◌, ◌≡◌, refl, sym, ap, ◌∙◌, ◌⊎◌, inl, inr, Option, none, some, List, [], ◌∷◌, ◌++◌,
  length, arith,
}
use my_apue.Ruptime.{Fds}
use my_apue.Ruptime.Connect.{Attempt, connected, no_socket, Connected, connect_retry}
use my_apue.Ruptime.Attempts.{New, Refused, Attempts, connect_retry-Attempts}
use my_apue.Ruptime.Service.{prints, send_uptime}
use my_apue.Ruptime.Client.{
  Recv, got, recv_failed, Ran, exits, print_uptime, Address, after_connect, try_addresses,
  client_main,
}
use my_apue.Ruptime.Stream.{Text, joined, send_lines-joined}

-- The pieces in which a stream is received: none of them empty.
abbrev pub Pieces : List ℕ → List Recv → Type 0
Pieces out [] = out ≡ []
Pieces out (got [] ∷ rs) = ⊥
Pieces out (got (c ∷ cs) ∷ rs) = (rest : List ℕ) × (out ≡ (c ∷ cs) ++ rest) × Pieces rest rs
Pieces out (recv_failed ∷ rs) = ⊥

print_uptime-Pieces :
    (out : List ℕ) (rs : List Recv) → Pieces out rs → print_uptime rs ≡ exits 0 out
unfolding print_uptime
print_uptime-Pieces out [] p = ap (exits 0) (sym p)
print_uptime-Pieces out (got [] ∷ rs) p = absurd p
print_uptime-Pieces out (got (c ∷ cs) ∷ rs) (rest, cut, p) =
    rw (print_uptime-Pieces rest rs p) (ap (exits 0) (sym cut))
print_uptime-Pieces out (recv_failed ∷ rs) p = absurd p

-- An address whose sockets are new, and whose connections receive what the server sends for the output `out`.
abbrev pub Serves : List ℕ → Fds → Address → Type 0
Serves out fds a =
    ((n : ℕ) → New fds (a.attempt n))
    × ((sent : List (List ℕ)) × (send_uptime (prints out) ≡ some sent)
        × Pieces (joined sent) a.recvs)

abbrev pub AllServe : List ℕ → Fds → List Address → Type 0
AllServe out fds [] = Unit {0}
AllServe out fds (a ∷ addresses) = Serves out fds a × AllServe out fds addresses

abbrev joined_sent : Option (List (List ℕ)) → List ℕ
joined_sent none = []
joined_sent (some sent) = joined sent

-- One of at most 7 attempts connects, after others that were refused.
abbrev pub Reaches : Address → Type 0
Reaches a =
    (i : ℕ) × (fd : ℕ) × (i < 7)
    × ((h : ℕ) → h < i → Refused (a.attempt h))
    × (a.attempt i ≡ connected fd)

-- Seven attempts are refused, or one has no socket after others that were refused.
abbrev pub Misses : Address → Type 0
Misses a =
    (i : ℕ) × ((h : ℕ) → h < i → Refused (a.attempt h))
    × ((i ≡ 7) ⊎ ((i < 7) × (a.attempt i ≡ no_socket)))

-- The first address that is reached shows the output, and without one the program exits with 1.
abbrev pub Shows : List ℕ → List Address → Ran → Type 0
Shows out [] run = run ≡ exits 1 []
Shows out (a ∷ addresses) run =
    (Reaches a × (run ≡ exits 0 out)) ⊎ (Misses a × Shows out addresses run)

zero_add : (n : ℕ) → 0 + n ≡ n
zero_add n = omega arith

from_0 :
    (attempt : ℕ → Attempt) (i : ℕ)
    → ((h : ℕ) → h < i → Refused (attempt (0 + h)))
    → (h : ℕ) → h < i
    → Refused (attempt h)
from_0 attempt i before h low = subst (λ n. Refused (attempt n)) (zero_add h) (before h low)

module _ (fuel : ℕ) (out : List ℕ) (t : Text out) (enough : 7 < fuel) (fds : Fds) where
  received : (a : Address) → Serves out fds a → print_uptime a.recvs ≡ exits 0 out
  unfolding send_uptime
  received a (new, (sent, is_sent, pieces)) =
      let whole : joined sent ≡ out =
        ap joined_sent (sym is_sent) ∙ send_lines-joined (suc (length out)) out t (omega arith) in
      print_uptime-Pieces (joined sent) a.recvs pieces ∙ ap (exits 0) whole

  first-Shows :
      (a : Address) (addresses : List Address) (r : Connected)
      → Serves out fds a
      → Attempts a.attempt fds 0 7 r
      → Shows out addresses (try_addresses fuel addresses fds)
      → Shows out
          (a ∷ addresses)
          (after_connect r a.recvs (λ fds'. try_addresses fuel addresses fds'))
  unfolding after_connect
  first-Shows a addresses r serves (i, before, inl (fd, low, hit, run)) rest = rw run (
      inl (
        (i, fd, low, from_0 a.attempt i before, ap a.attempt (sym (zero_add i)) ∙ hit),
        received a serves,
      ))
  first-Shows a addresses r serves (i, before, inr (inl all, run)) rest =
      rw run (inr ((i, from_0 a.attempt i before, inl all), rest))
  first-Shows a addresses r serves (i, before, inr (inr (low, stop), run)) rest = rw run (
      inr ((i, from_0 a.attempt i before, inr (low, ap a.attempt (sym (zero_add i)) ∙ stop)), rest))

  try_addresses-Shows :
      (addresses : List Address)
      → AllServe out fds addresses
      → Shows out addresses (try_addresses fuel addresses fds)
  unfolding try_addresses
  try_addresses-Shows [] s = refl
  try_addresses-Shows (a ∷ addresses) (serves, s) =
      first-Shows a addresses (connect_retry fuel a.attempt fds) serves
        (connect_retry-Attempts fuel a.attempt fds enough serves.0)
        (try_addresses-Shows addresses s)

  -- The client, with fuel for 8 tests of each loop and a list of addresses where every connection receives,
  -- in whatever pieces, what the server sends for the output `out` of `uptime`, a text: it writes `out` and
  -- exits with 0 when an address is reached, and the first one in the list is; it writes nothing and exits with
  -- 1 when all are missed.
  pub client_main-Shows :
      (addresses : List Address)
      → AllServe out fds addresses
      → Shows out addresses (client_main fuel 2 (some addresses) fds)
  unfolding client_main
  client_main-Shows addresses s = try_addresses-Shows addresses s
