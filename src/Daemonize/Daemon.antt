-- ===== src/Daemonize/Daemon.antt =====
-- What a process is that returns from `daemonize`, my-src/Chapter-13/13-1.c.
use mathlib.Core.Path.{subst}
use my_apue.Prelude.{
  ℕ, zero, suc, ◌≤◌, ◌<◌, ◌≡◌, refl, sym, ap, ◌∙◌, Option, none, some, Bool, true, false, not, ◌||◌,
  List, [], ◌∷◌, ◌==◌, if◌then◌else◌, arith, Bool-cases, inl, inr,
}
use my_apue.Daemonize.{
  File, dev_null, Fds, Process, Calls, Fate, exits, goes_on, set_fd, close_below, put_fd, new_fd,
  lowest_free, is_fd, closed_limit, standard_fds, after_forks, after_limit, daemonize,
}

-- Without a terminal, in /, with SIGHUP ignored and umask 0, with /dev/null on the standard descriptors, and
-- with no other descriptor below a limit; the leader of its session.
abbrev pub Daemon : ℕ → Process → Type 0
Daemon m p =
    (p.umask ≡ 0)
    × (p.terminal ≡ false)
    × (p.session_leader ≡ true)
    × (p.ignores_sighup ≡ true)
    × (p.directory ≡ [])
    × (p.fds 0 ≡ some dev_null)
    × (p.fds 1 ≡ some dev_null)
    × (p.fds 2 ≡ some dev_null)
    × ((n : ℕ) → 3 ≤ n → n < m → p.fds n ≡ none)

abbrev pub Fated : (Process → Type 0) → Fate → Type 0
Fated P (exits n) = Unit {0}
Fated P (goes_on p) = P p

-- Every process that goes on is a daemon.
abbrev pub Daemons : Option (Option ℕ) → List Fate → Type 0
Daemons limit [] = Unit {0}
Daemons limit (fate ∷ fates) =
    Fated (λ p. (max : Option ℕ) × (limit ≡ some max) × Daemon (closed_limit max) p) fate
    × Daemons limit fates

pub close_below-none : (m : ℕ) (fds : Fds) (n : ℕ) → n < m → close_below m fds n ≡ none
unfolding close_below
close_below-none zero fds n low = absurd (omega arith)
close_below-none (suc m) fds n low = elim (Bool-cases (n == m)) [
  | inl same ↦ rw same refl
  | inr differs ↦ (let low' : n < m = ground arith in rw differs (close_below-none m fds n low'))
]

put_fd-is :
    (r : Option ℕ) (file : File) (fds : Fds) (k : ℕ)
    → is_fd k (put_fd r file fds).0 ≡ true
    → (put_fd r file fds).1 ≡ set_fd k (some file) fds
put_fd-is none file fds k e = cc
put_fd-is (some fd) file fds k e =
    let same : fd ≡ k = ground arith in ap (λ i. set_fd i (some file) fds) same

-- The descriptors after a new one, which is `k`.
new_fd-is :
    (limit : ℕ) (file : Option File) (fds : Fds) (k : ℕ)
    → is_fd k (new_fd limit file fds).0 ≡ true
    → (f : File) × (file ≡ some f) × ((new_fd limit file fds).1 ≡ set_fd k (some f) fds)
unfolding new_fd
new_fd-is limit none fds k e = cc
new_fd-is limit (some f) fds k e = (f, refl, put_fd-is (lowest_free limit 0 fds) f fds k e)

Fated-if :
    (P : Process → Type 0) (b0 b1 b2 : Bool) (p : Process)
    → (b0 ≡ true → b1 ≡ true → b2 ≡ true → P p)
    → Fated P (if not b0 || (not b1 || not b2) then exits 1 else goes_on p)
Fated-if P false b1 b2 p f = tt
Fated-if P true false b2 p f = tt
Fated-if P true true false p f = tt
Fated-if P true true true p f = f refl refl refl

null_file : (b : Bool) (f : File) → (if b then some dev_null else none) ≡ some f → f ≡ dev_null
null_file true f e = cc
null_file false f e = cc

-- /dev/null on 0, 1 and 2, and the others as before.
abbrev pub nulls : Fds → Fds
nulls fds = set_fd 2 (some dev_null) (set_fd 1 (some dev_null) (set_fd 0 (some dev_null) fds))

three_nulls :
    (f0 f1 f2 : File) (fds fds0 fds1 fds2 : Fds)
    → f0 ≡ dev_null
    → fds0 ≡ set_fd 0 (some f0) fds
    → fds0 0 ≡ some f1
    → fds1 ≡ set_fd 1 (some f1) fds0
    → fds1 0 ≡ some f2
    → fds2 ≡ set_fd 2 (some f2) fds1
    → fds2 ≡ nulls fds
three_nulls f0 f1 f2 fds fds0 fds1 fds2 null is0 at1 is1 at2 is2 =
    let first : fds0 0 ≡ some f0 = ap (λ x. x 0) is0 in
    let kept : fds1 0 ≡ fds0 0 = ap (λ x. x 0) is1 in
    let f1_null : f1 ≡ dev_null = cc in
    let f2_null : f2 ≡ dev_null = cc in
    let fds0_null : fds0 ≡ set_fd 0 (some dev_null) fds =
      is0 ∙ ap (λ f. set_fd 0 (some f) fds) null in
    let fds1_null : fds1 ≡ set_fd 1 (some dev_null) (set_fd 0 (some dev_null) fds) =
      is1 ∙ ap (λ f. set_fd 1 (some f) fds0) f1_null ∙ ap (set_fd 1 (some dev_null)) fds0_null in
    is2 ∙ ap (λ f. set_fd 2 (some f) fds1) f2_null ∙ ap (set_fd 2 (some dev_null)) fds1_null

standard_fds-nulls :
    (c : Calls) (p : Process) → Fated (λ q. q ≡ record p { fds = nulls p.fds }) (standard_fds c p)
unfolding standard_fds
standard_fds-nulls c p =
    let null : Option File = if c.open_null then some dev_null else none in
    let r0 = new_fd c.soft_limit null p.fds in
    let r1 = new_fd c.soft_limit (r0.1 0) r0.1 in
    let r2 = new_fd c.soft_limit (r1.1 0) r1.1 in
    Fated-if (λ q. q ≡ record p { fds = nulls p.fds }) (is_fd 0 r0.0) (is_fd 1 r1.0) (is_fd 2 r2.0)
      (record p { fds = r2.1 })
      (λ e0 e1 e2.
        let (f0, is0, fds0) = new_fd-is c.soft_limit null p.fds 0 e0 in
        let (f1, is1, fds1) = new_fd-is c.soft_limit (r0.1 0) r0.1 1 e1 in
        let (f2, is2, fds2) = new_fd-is c.soft_limit (r1.1 0) r1.1 2 e2 in
        let at0 : f0 ≡ dev_null = null_file c.open_null f0 is0 in
        ap (λ fds. record p { fds = fds })
          (three_nulls f0 f1 f2 p.fds r0.1 r1.1 r2.1 (null_file c.open_null f0 is0) fds0 is1 fds1
            is2 fds2))

Fated-map :
    (P Q : Process → Type 0) (fate : Fate)
    → ((p : Process) → P p → Q p)
    → Fated P fate
    → Fated Q fate
Fated-map P Q (exits n) f h = tt
Fated-map P Q (goes_on p) f h = f p h

nulls-Daemon :
    (m : ℕ) (p : Process)
    → p.umask ≡ 0
    → p.terminal ≡ false
    → p.session_leader ≡ true
    → p.ignores_sighup ≡ true
    → Daemon m (record p { directory = []; fds = nulls (close_below m p.fds) })
nulls-Daemon m p mask terminal leader ignoring = (
  mask,
  terminal,
  leader,
  ignoring,
  refl,
  refl,
  refl,
  refl,
  λ n low high.
      (let not_0 : (n == 0) ≡ false = ground arith in
        let not_1 : (n == 1) ≡ false = ground arith in
        let not_2 : (n == 2) ≡ false = ground arith in
        rw (not_2, not_1, not_0) (close_below-none m p.fds n high)),
)

after_forks-Daemon :
    (c : Calls) (m : ℕ) (p : Process)
    → p.umask ≡ 0
    → p.terminal ≡ false
    → p.session_leader ≡ true
    → p.ignores_sighup ≡ true
    → Fated (Daemon m) (after_forks c m p)
unfolding after_forks
after_forks-Daemon c m p mask terminal leader ignoring =
    let closed = record p { directory = []; fds = close_below m p.fds } in
    elim (Bool-cases c.chdir) [
      | inl moves ↦ rw moves (
          Fated-map (λ q. q ≡ record closed { fds = nulls closed.fds }) (Daemon m)
            (standard_fds c closed)
            (λ q e. subst (Daemon m) (sym e) (nulls-Daemon m p mask terminal leader ignoring))
            (standard_fds-nulls c closed))
      | inr stays ↦ rw stays tt
    ]

by_calls :
    (limit : Option (Option ℕ)) (forks ignores forks_2 : Bool) (fate : Fate)
    → Fated (λ p. (max : Option ℕ) × (limit ≡ some max) × Daemon (closed_limit max) p) fate
    → Daemons limit (
        if not forks
        then exits 1 ∷ []
        else if not ignores
        then exits 0 ∷ exits 1 ∷ []
        else if not forks_2
        then exits 0 ∷ exits 1 ∷ []
        else exits 0 ∷ fate ∷ exits 0 ∷ [])
by_calls limit false ignores forks_2 fate h = (tt, tt)
by_calls limit true false forks_2 fate h = (tt, (tt, tt))
by_calls limit true true false fate h = (tt, (tt, tt))
by_calls limit true true true fate h = (tt, (h, (tt, tt)))

after_limit-Daemons :
    (c : Calls) (p : Process) (limit : Option (Option ℕ)) → Daemons limit (after_limit c p limit)
unfolding after_limit
after_limit-Daemons c p none = (tt, tt)
after_limit-Daemons c p (some max) =
    let leader = record p {
      umask = 0;
      session_leader = true;
      terminal = false;
      ignores_sighup = true;
    } in
    by_calls (some max) c.fork c.sigaction c.fork_2 (after_forks c (closed_limit max) leader) (
      Fated-map (Daemon (closed_limit max))
        (λ q. (max' : Option ℕ) × (some max ≡ some max') × Daemon (closed_limit max') q)
        (after_forks c (closed_limit max) leader) (λ q d. (max, refl, d))
        (after_forks-Daemon c (closed_limit max) leader refl refl refl refl))

-- Whichever of the calls fail, every process that returns from `daemonize` has umask 0, ignores SIGHUP, is in /,
-- has no controlling terminal, and has /dev/null on descriptors 0, 1 and 2 and no other descriptor open
-- below the hard limit, or below 1024 when that is infinite. It is, however, the leader of its session.
pub daemonize-Daemon : (c : Calls) (p : Process) → Daemons c.getrlimit (daemonize c p)
unfolding daemonize
daemonize-Daemon c p = after_limit-Daemons c p c.getrlimit
