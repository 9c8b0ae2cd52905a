-- ===== src/Open/Main.antt =====
-- `main` of the open server, my-src/Chapter-17/open-2/17-28.c, over `daemonize` of Chapter-13/13-1.c and
-- `loop` of 17-29.c.
pub mod Started
mod Tests
use my_apue.Prelude.{ℕ, Bool, List, [], ◌∷◌, ◌++◌, ◌==◌, if◌then◌else◌, map, Option, none, some}
use my_apue.Prelude.Bytes.{same_bytes}
use my_apue.Daemonize
use my_apue.Open.Request.{Globals}

-- What `getopt` returns before EOF: 'd', or '?' with `optopt`.
pub data Opt : Type 0 where
  debugs : Opt
  unrecognized : ℕ → Opt

-- The letters behind the dash of an argument that holds options.
abbrev letters : List ℕ → Option (List ℕ)
letters [] = none
letters (c ∷ []) = none
letters (c ∷ d ∷ cs) = if c == 45 then some (d ∷ cs) else none

abbrev opt : ℕ → Opt
opt c = if c == 100 then debugs else unrecognized c

-- `getopt(argc, argv, "d")` until it returns EOF: "--" ends it, and an argument without options is passed
-- over or ends it as well, by the library's setting.
unfoldable pub getopt : Bool → List (List ℕ) → List Opt
getopt permutes [] = []
getopt permutes (arg ∷ args) =
    let rest = getopt permutes args in
    elim (letters arg) [
      | none ↦ if permutes then rest else []
      | some cs ↦ if same_bytes cs (45 ∷ []) then [] else map opt cs ++ rest
    ]

-- `debug` and `log_to_stderr`
pub record Flags : Type 0 where
  pub debug : ℕ
  pub log_to_stderr : ℕ

-- The loop over the options ends with the flags, or with `err_quit` and `optopt`.
pub data Options : Type 0 where
  options : Flags → Options
  refuses : ℕ → Options

unfoldable pub read_options : List Opt → Flags → Options
read_options [] f = options f
read_options (debugs ∷ opts) f = read_options opts (record { debug = 1; log_to_stderr = 1 })
read_options (unrecognized c ∷ opts) f = refuses c

-- What becomes of a process: it exits with a status, or calls `loop`.
pub data Ended : Type 0 where
  exits : ℕ → Ended
  loops : Flags → Daemonize.Process → Ended

abbrev pub from_fate : Flags → Daemonize.Fate → Ended
from_fate f (Daemonize.exits n) = exits n
from_fate f (Daemonize.goes_on p) = loops f p

abbrev pub after_options : Daemonize.Calls → Daemonize.Process → Options → List Ended
after_options c p (refuses optopt) = exits 1 ∷ []
after_options c p (options f) =
    let fates = Daemonize.daemonize c p in
    if f.debug == 0 then map (from_fate f) fates else loops f p ∷ []

unfoldable pub serve_main : Bool → List (List ℕ) → Daemonize.Calls → Daemonize.Process → List Ended
serve_main permutes args c p =
    after_options c p
      (read_options (getopt permutes args) (record { debug = 0; log_to_stderr = 0 }))
