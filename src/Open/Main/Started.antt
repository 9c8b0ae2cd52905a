-- ===== src/Open/Main/Started.antt =====
-- How the open server starts, my-src/Chapter-17/open-2/17-28.c.
use my_apue.Prelude.{
  ℕ, suc, ◌≡◌, refl, ap, ◌⊎◌, inl, inr, Option, some, Bool, List, [], ◌∷◌, ◌++◌, map, replicate,
}
use my_apue.Daemonize.{Fate, Process, Calls, daemonize, closed_limit}
use my_apue.Daemonize
use my_apue.Daemonize.Daemon.{Daemon, Daemons, daemonize-Daemon}
use my_apue.Open.Main.{
  Opt, debugs, unrecognized, getopt, Flags, Options, options, refuses, read_options, Ended, exits,
  loops, from_fate, after_options, serve_main,
}

-- A process that loops is a daemon that logs to `syslog`.
abbrev pub LoopsAsDaemon : Option (Option ℕ) → Ended → Type 0
LoopsAsDaemon limit (exits n) = Unit {0}
LoopsAsDaemon limit (loops f p) =
    (f.log_to_stderr ≡ 0) × ((max : Option ℕ) × (limit ≡ some max) × Daemon (closed_limit max) p)

abbrev pub AllEnded : (Ended → Type 0) → List Ended → Type 0
AllEnded P [] = Unit {0}
AllEnded P (e ∷ es) = P e × AllEnded P es

-- What the options come to: an option that is not d refuses the rest, a d is for the terminal, and without
-- options the server is a daemon.
abbrev pub Starts : List Opt → Calls → Process → List Ended → Type 0
Starts opts c p r =
    ((before optopt : ℕ) × (rest : List Opt) × (opts
        ≡ replicate before debugs ++ unrecognized optopt ∷ rest)
      × (r ≡ exits 1 ∷ []))
    ⊎ (((n : ℕ) × (opts ≡ replicate (suc n) debugs)
          × (r ≡ loops (record { debug = 1; log_to_stderr = 1 }) p ∷ []))
        ⊎ ((opts ≡ []) × AllEnded (LoopsAsDaemon c.getrlimit) r))

-- What the loop over the options finds.
abbrev Found : List Opt → Flags → Options → Type 0
Found opts f (options f') =
    ((opts ≡ []) × (f' ≡ f))
    ⊎ ((n : ℕ) × (opts ≡ replicate (suc n) debugs) × (f' ≡ record { debug = 1; log_to_stderr = 1 }))
Found opts f (refuses c) =
    (before : ℕ) × (rest : List Opt) × (opts ≡ replicate before debugs ++ unrecognized c ∷ rest)

Found-debugs :
    (opts : List Opt) (f : Flags) (r : Options)
    → Found opts (record { debug = 1; log_to_stderr = 1 }) r
    → Found (debugs ∷ opts) f r
Found-debugs opts f (options f') (inl (none_left, e)) = inr (0, ap (λ os. debugs ∷ os) none_left, e)
Found-debugs opts f (options f') (inr (n, all, e)) = inr (suc n, ap (λ os. debugs ∷ os) all, e)
Found-debugs opts f (refuses c) (before, rest, e) = (suc before, rest, ap (λ os. debugs ∷ os) e)

read_options-Found : (opts : List Opt) (f : Flags) → Found opts f (read_options opts f)
unfolding read_options
read_options-Found [] f = inl (refl, refl)
read_options-Found (debugs ∷ opts) f =
    Found-debugs opts f _ (read_options-Found opts (record { debug = 1; log_to_stderr = 1 }))
read_options-Found (unrecognized c ∷ opts) f = (0, opts, refl)

from_fates :
    (limit : Option (Option ℕ)) (f : Flags) (fates : List Fate)
    → f.log_to_stderr ≡ 0
    → Daemons limit fates
    → AllEnded (LoopsAsDaemon limit) (map (from_fate f) fates)
from_fates limit f [] e d = tt
from_fates limit f (Daemonize.exits n ∷ fates) e (_, d) = (tt, from_fates limit f fates e d)
from_fates limit f (Daemonize.goes_on p ∷ fates) e (here, d) =
    ((e, here), from_fates limit f fates e d)

after_options-Starts :
    (opts : List Opt) (c : Calls) (p : Process) (o : Options)
    → Found opts (record { debug = 0; log_to_stderr = 0 }) o
    → Starts opts c p (after_options c p o)
after_options-Starts opts c p (refuses c') (before, rest, e) = inl (before, c', rest, e, refl)
after_options-Starts opts c p (options f) (inl (e, is)) = rw is (
    inr (
      inr (
        e,
        from_fates c.getrlimit (record { debug = 0; log_to_stderr = 0 }) (daemonize c p) refl
            (daemonize-Daemon c p),
      )))
after_options-Starts opts c p (options f) (inr (n, e, is)) = rw is (inr (inl (n, e, refl)))

-- `main` of the open server exits with 1 at the first option that is not d, and makes no process; with options
-- that are all d the caller itself runs `loop`, as it is, and logs to stderr; without options every process that
-- runs `loop` is a daemon as `daemonize` makes it, and does not log to stderr, whichever of its calls fail.
pub serve_main-Starts :
    (permutes : Bool) (args : List (List ℕ)) (c : Calls) (p : Process)
    → Starts (getopt permutes args) c p (serve_main permutes args c p)
unfolding serve_main
serve_main-Starts permutes args c p =
    after_options-Starts (getopt permutes args) c p _
      (read_options-Found (getopt permutes args) (record { debug = 0; log_to_stderr = 0 }))
