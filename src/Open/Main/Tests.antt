-- ===== src/Open/Main/Tests.antt =====
-- Starts of the open server, my-src/Chapter-17/open-2/17-28.c.
use my_apue.Prelude.{
  ℕ, ◌≡◌, refl, ap, none, some, true, false, List, [], ◌∷◌, map, ◌==◌, if◌then◌else◌, arith,
}
use my_apue.Prelude.Bytes.{same_bytes}
use my_apue.Daemonize.{other, Process, Calls}
use my_apue.Daemonize.Returns
use my_apue.Open.Main.{
  debugs, unrecognized, getopt, Flags, read_options, exits, loops, from_fate, serve_main,
}
use my_apue.Open.Main.Started.{Starts, serve_main-Starts}

abbrev caller : Process
caller = record {
  umask = 18;
  session_leader = false;
  terminal = true;
  ignores_sighup = false;
  directory = (104 ∷ []) ∷ [];
  fds = λ n. if n == 1 then some (other 1) else none;
}

abbrev calls : Calls
calls = record {
  getrlimit = some (some 5);
  soft_limit = 4;
  fork = true;
  sigaction = true;
  fork_2 = true;
  chdir = true;
  open_null = true;
}

-- "-d", "-dx", "file", "--"
abbrev d_option : List ℕ
d_option = 45 ∷ 100 ∷ []

abbrev dx_option : List ℕ
dx_option = 45 ∷ 100 ∷ 120 ∷ []

abbrev file : List ℕ
file = 102 ∷ 105 ∷ 108 ∷ 101 ∷ []

abbrev dashes : List ℕ
dashes = 45 ∷ 45 ∷ []

past_file : getopt true (file ∷ dx_option ∷ dashes ∷ d_option ∷ []) ≡ debugs ∷ unrecognized 120 ∷ []
unfolding getopt same_bytes
past_file = refl

not_past_file : getopt false (file ∷ dx_option ∷ []) ≡ []
unfolding getopt same_bytes
not_past_file = refl

as_debugger :
    serve_main false (d_option ∷ []) calls caller
    ≡ loops (record { debug = 1; log_to_stderr = 1 }) caller ∷ []
unfolding serve_main getopt same_bytes read_options
as_debugger = refl

refused : serve_main false (dx_option ∷ []) calls caller ≡ exits 1 ∷ []
unfolding serve_main getopt same_bytes read_options
refused = refl

serve_main-Starts_example :
    Starts (debugs ∷ []) calls caller (serve_main true (d_option ∷ []) calls caller)
unfolding getopt same_bytes
serve_main-Starts_example = serve_main-Starts true (d_option ∷ []) calls caller

abbrev succeeds : Returns.Succeeds calls (some 5)
succeeds = record {
  limits = refl;
  low = omega arith;
  high = omega arith;
  forks = refl;
  ignores = refl;
  forks_2 = refl;
  moves = refl;
  opens = refl;
}

abbrev flags : Flags
flags = record { debug = 0; log_to_stderr = 0 }

-- Without options the grandchild runs `loop`.
by_daemon :
    serve_main true [] calls caller ≡ exits 0 ∷ loops flags (Returns.daemon 5 caller) ∷ exits 0 ∷ []
unfolding serve_main getopt read_options
by_daemon = ap (map (from_fate flags)) (Returns.daemonize-goes_on calls caller (some 5) succeeds)
