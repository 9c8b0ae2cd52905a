-- ===== src/Ruptime/Forking/Agree.antt =====
-- The servers of my-src/Chapter-16/16-17.c and 16-18.c do the same for their clients.
use my_apue.Prelude.{ℕ, ◌≡◌, refl, some, true, false, List, [], ◌∷◌, length}
use my_apue.Ruptime.{Fds}
use my_apue.Ruptime.Attempts.{close-open}
use my_apue.Ruptime.Service
use my_apue.Ruptime.Stream.{Text, joined, Prints, serve-Sends, Sends}
use my_apue.Ruptime.Forking.{Turn, forked, waiting, serve}

-- A client: its connection, and what `uptime` prints when it is served.
abbrev pub Client : Type 0
Client = ℕ × List ℕ

-- The clients as they come to the server of 16-17.c, and to that of 16-18.c.
abbrev pub turns_17 : List Client → List Service.Turn
turns_17 [] = []
turns_17 ((fd, out) ∷ clients) = Service.accepted fd (Service.prints out) ∷ turns_17 clients

abbrev pub turns_18 : List Client → List Turn
turns_18 [] = []
turns_18 ((fd, out) ∷ clients) =
    forked fd (record { dup_output = true; dup_error = true; exec = some out }) ∷ turns_18 clients

abbrev pub streams : List (ℕ × List (List ℕ)) → List Client
streams [] = []
streams ((fd, sent) ∷ log) = (fd, joined sent) ∷ streams log

-- New connections, and texts without null bytes.
abbrev pub New : Fds → List Client → Type 0
New fds [] = Unit {0}
New fds ((fd, out) ∷ clients) = (fds fd ≡ false) × Text out × New fds clients

pub New-Prints :
    (fds : Fds) (clients : List Client) → New fds clients → Prints fds (turns_17 clients)
New-Prints fds [] new = tt
New-Prints fds ((fd, out) ∷ clients) (new, text, rest) = (new, text, New-Prints fds clients rest)

pub Sends-streams :
    (clients : List Client) (log : List (ℕ × List (List ℕ)))
    → Sends (turns_17 clients) log
    → streams log ≡ clients
Sends-streams [] [] s = refl
Sends-streams [] (l ∷ log) s = absurd s
Sends-streams ((fd, out) ∷ clients) [] s = absurd s
Sends-streams ((fd, out) ∷ clients) ((fd', sent) ∷ log) (same, whole, rest) =
    rw (same, whole, Sends-streams clients log rest) refl

forks-clients :
    (clients : List Client) (parents : List Fds) (fds : Fds)
    → New fds clients
    → serve (turns_18 clients) parents fds ≡ waiting (length parents) fds clients
unfolding serve
forks-clients [] parents fds new = refl
forks-clients ((fd, out) ∷ clients) parents fds (new, text, rest) =
    rw (close-open fd fds new, forks-clients clients parents fds rest) refl

-- When clients come on new descriptors, `uptime` prints text, and fork, dup2 and execl succeed, the servers of
-- 16-17.c and of 16-18.c both send each client, in order, what `uptime` prints, the first in pieces, and wait
-- for the next with the descriptors that were open before, in the process that began.
pub serves_agree :
    (clients : List Client) (fds : Fds)
    → New fds clients
    → ((log : List (ℕ × List (List ℕ))) × (Service.serve (turns_17 clients) fds
          ≡ Service.waiting fds log)
        × (streams log ≡ clients))
      × (serve (turns_18 clients) [] fds ≡ waiting 0 fds clients)
serves_agree clients fds new =
    let (log, run, sends) = serve-Sends (turns_17 clients) fds (New-Prints fds clients new) in
    ((log, run, Sends-streams clients log sends), forks-clients clients [] fds new)
