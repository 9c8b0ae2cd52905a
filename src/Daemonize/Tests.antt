-- ===== src/Daemonize/Tests.antt =====
-- Runs of `daemonize` (my-src/Chapter-13/13-1.c).
use my_apue.Prelude.{◌≡◌, refl, none, some, true, false, [], ◌∷◌, ◌==◌, if◌then◌else◌, arith}
use my_apue.Daemonize.{
  other, Process, Calls, exits, goes_on, close_below, lowest_free, new_fd, standard_fds,
  after_forks, after_limit, daemonize,
}
use my_apue.Daemonize.Daemon.{Daemons, daemonize-Daemon}
use my_apue.Daemonize.Returns.{daemon, daemonize-goes_on}

-- A shell's child, with six descriptors.
abbrev caller : Process
caller = record {
  umask = 18;
  session_leader = false;
  terminal = true;
  ignores_sighup = false;
  directory = (104 ∷ []) ∷ [];
  fds = λ n. if n == 6 then some (other 6) else if n == 1 then some (other 1) else none;
}

abbrev calls : Calls
calls = record {
  getrlimit = some (some 5);
  soft_limit = 4;
  fork = true;
  sigaction = true;
  fork_2 = true;
  chdir = true;
  open_null = true;
}

-- Without /dev/null the daemon exits.
no_null : daemonize (record calls { open_null = false }) caller ≡ exits 0 ∷ exits 1 ∷ exits 0 ∷ []
unfolding daemonize after_limit after_forks standard_fds new_fd lowest_free close_below
no_null = refl

daemonize-goes_on_example :
    daemonize calls caller ≡ exits 0 ∷ goes_on (daemon 5 caller) ∷ exits 0 ∷ []
daemonize-goes_on_example = daemonize-goes_on calls caller (some 5) (record {
  limits = refl;
  low = omega arith;
  high = omega arith;
  forks = refl;
  ignores = refl;
  forks_2 = refl;
  moves = refl;
  opens = refl;
})

daemonize-Daemon_example : Daemons (some (some 5)) (daemonize calls caller)
daemonize-Daemon_example = daemonize-Daemon calls caller
