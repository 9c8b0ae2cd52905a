-- ===== src/Open/Server/Scans.antt =====
-- How far the scan of `loop` has come, my-src/Chapter-17/open-2/17-29.c, and the request that it meets.
use mathlib.Core.Path.{subst}
use my_apue.Prelude.{ℕ, suc, ◌+◌, ◌<◌, ◌≡◌, refl, some, true, List, arith, length, get_elem?}
use my_apue.Prelude.Int.{pos}
use my_apue.Open.Clients.{Client, entries}
use my_apue.Open.Request.{Handled, handle_request}
use my_apue.Open.Server.{Server, Answers, goes, serve_entry, scan_clients}

-- What the request that has come from the client of entry `i`, on a descriptor that `select` reports, is
-- answered with.
abbrev pub Asked : Answers → Handled → ℕ → Server → Type 0
Asked a h i s =
    (c : Client) × (fd : ℕ) × (bytes : List ℕ) × (get_elem? (entries s.clients.client) i ≡ some c)
    × (c.fd ≡ pos fd)
    × (a.rset fd ≡ true)
    × (a.read fd ≡ some bytes)
    × (handle_request (suc (length bytes)) (a.kernel fd) c.uid bytes s.globals ≡ h)

-- A scan of `n` entries from index `i` on has come to one of them in a state where `P` holds of it.
abbrev pub Within : (ℕ → Server → Type 0) → Answers → ℕ → ℕ → Server → Type 0
Within P a n i s = (k : ℕ) × (t : Server) × (k < n) × (scan_clients a k i s ≡ goes t) × P (i + k) t

pub Within-here :
    (P : ℕ → Server → Type 0) (a : Answers) (n i : ℕ) (s : Server) → P i s → Within P a (suc n) i s
unfolding scan_clients
Within-here P a n i s h =
    let same : i ≡ i + 0 = omega arith in (0, s, omega arith, refl, subst (λ j. P j s) same h)

pub Within-later :
    (P : ℕ → Server → Type 0) (a : Answers) (n i : ℕ) (s s' : Server)
    → serve_entry a (get_elem? (entries s.clients.client) i) s ≡ goes s'
    → Within P a n (suc i) s'
    → Within P a (suc n) i s
unfolding scan_clients
Within-later P a n i s s' e (k, t, low, run, h) =
    let same : suc i + k ≡ i + suc k = omega arith in
    (suc k, t, omega arith, rw (scan_clients, e) run, subst (λ j. P j t) same h)
