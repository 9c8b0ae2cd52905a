-- ===== src/Daemonize/Returns.antt =====
-- The return from `daemonize` (my-src/Chapter-13/13-1.c) when nothing fails.
use my_apue.Prelude.{
  ℕ, zero, suc, ◌≤◌, ◌<◌, ◌≡◌, refl, ap, ◌∙◌, Option, none, some, true, false, [], ◌∷◌, arith,
}
use my_apue.Daemonize.{
  File, dev_null, Fds, Process, Calls, exits, goes_on, set_fd, close_below, new_fd, lowest_free,
  closed_limit, standard_fds, after_forks, after_limit, daemonize,
}
use my_apue.Daemonize.Daemon.{nulls, close_below-none}

-- Every call succeeds; new descriptors are below the limit to which `daemonize` closes them.
pub record Succeeds (c : Calls) (max : Option ℕ) : Type 0 where
  pub limits : c.getrlimit ≡ some max
  pub low : c.soft_limit ≤ closed_limit max
  pub high : 3 ≤ c.soft_limit
  pub forks : c.fork ≡ true
  pub ignores : c.sigaction ≡ true
  pub forks_2 : c.fork_2 ≡ true
  pub moves : c.chdir ≡ true
  pub opens : c.open_null ≡ true

-- A free descriptor after `used` ones.
lowest_free-first : (n fd : ℕ) (fds : Fds) → fds fd ≡ none → lowest_free (suc n) fd fds ≡ some fd
unfolding lowest_free
lowest_free-first n fd fds e = rw e refl

lowest_free-next :
    (n fd : ℕ) (file : File) (fds : Fds)
    → fds fd ≡ some file
    → lowest_free (suc n) fd fds ≡ lowest_free n (suc fd) fds
unfolding lowest_free
lowest_free-next n fd file fds e = rw e refl

-- `new_fd` on a free descriptor.
new_fd-lowest :
    (limit : ℕ) (file : File) (fds : Fds) (k : ℕ)
    → lowest_free limit 0 fds ≡ some k
    → new_fd limit (some file) fds ≡ (some k, set_fd k (some file) fds)
unfolding new_fd
new_fd-lowest limit file fds k e = rw e refl

module _ (c : Calls) (l : ℕ) (p : Process) where
  abbrev fds_1 : Fds
  fds_1 = set_fd 0 (some dev_null) p.fds

  abbrev fds_2 : Fds
  fds_2 = set_fd 1 (some dev_null) fds_1

  standard_fds-opens :
      c.soft_limit ≡ suc (suc (suc l))
      → c.open_null ≡ true
      → p.fds 0 ≡ none
      → p.fds 1 ≡ none
      → p.fds 2 ≡ none
      → standard_fds c p ≡ goes_on (record p { fds = nulls p.fds })
  unfolding standard_fds
  standard_fds-opens size opens free_0 free_1 free_2 =
      let first =
        new_fd-lowest (suc (suc (suc l))) dev_null p.fds 0
          (lowest_free-first (suc (suc l)) 0 p.fds free_0) in
      let second = new_fd-lowest (suc (suc (suc l))) dev_null fds_1 1 (
        lowest_free-next (suc (suc l)) 0 dev_null fds_1 refl
        ∙ lowest_free-first (suc l) 1 fds_1 free_1) in
      let third = new_fd-lowest (suc (suc (suc l))) dev_null fds_2 2 (
        lowest_free-next (suc (suc l)) 0 dev_null fds_2 refl
        ∙ lowest_free-next (suc l) 1 dev_null fds_2 refl
        ∙ lowest_free-first l 2 fds_2 free_2) in
      rw (size, opens) (rw first (rw second (rw third refl)))

three_more : (n : ℕ) → 3 ≤ n → (l : ℕ) × (n ≡ suc (suc (suc l)))
three_more zero h = absurd (omega arith)
three_more (suc zero) h = absurd (omega arith)
three_more (suc (suc zero)) h = absurd (omega arith)
three_more (suc (suc (suc l))) h = (l, refl)

-- The process that `daemonize` leaves.
abbrev pub daemon : ℕ → Process → Process
daemon m p = record {
  umask = 0;
  session_leader = true;
  terminal = false;
  ignores_sighup = true;
  directory = [];
  fds = nulls (close_below m p.fds);
}

after_limit-goes_on :
    (c : Calls) (p : Process) (max : Option ℕ)
    → Succeeds c max
    → after_limit c p (some max) ≡ exits 0 ∷ goes_on (daemon (closed_limit max) p) ∷ exits 0 ∷ []
unfolding after_limit after_forks
after_limit-goes_on c p max s =
    let m = closed_limit max in
    let (l, size) = three_more c.soft_limit s.high in
    let closed : (n : ℕ) → n < 3 → close_below m p.fds n ≡ none = λ n low.
      close_below-none m p.fds n
        (let below = s.low in let high = s.high in omega (arith, low, below, high)) in
    let leader = record p {
      umask = 0;
      session_leader = true;
      terminal = false;
      ignores_sighup = true;
      directory = [];
      fds = close_below m p.fds;
    } in
    let opens =
      standard_fds-opens c l leader size s.opens (closed 0 (omega arith)) (closed 1 (omega arith))
        (closed 2 (omega arith)) in
    rw (s.forks, s.ignores, s.forks_2, s.moves) (ap (λ fate. exits 0 ∷ fate ∷ exits 0 ∷ []) opens)

-- When every call succeeds and new descriptors are below a limit of at least 3 to which the call closes all,
-- `daemonize` returns in one process, the child of the caller, with the attributes of a daemon, with /dev/null on
-- 0, 1 and 2 and its other descriptors as the loop leaves them; the caller and the second child exit with 0.
pub daemonize-goes_on :
    (c : Calls) (p : Process) (max : Option ℕ)
    → Succeeds c max
    → daemonize c p ≡ exits 0 ∷ goes_on (daemon (closed_limit max) p) ∷ exits 0 ∷ []
unfolding daemonize
daemonize-goes_on c p max s = rw s.limits (after_limit-goes_on c p max s)
