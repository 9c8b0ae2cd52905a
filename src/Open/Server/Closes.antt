-- ===== src/Open/Server/Closes.antt =====
-- The clients that a scan of `loop` closes, my-src/Chapter-17/open-2/17-29.c.
use mathlib.Core.Path.{subst}
use my_apue.Prelude.{
  ℕ, zero, suc, ◌+◌, ◌≤◌, ◌<◌, ◌≡◌, refl, sym, ap, ◌∙◌, ◌≢◌, inl, inr, some, Bool, true, false, not,
  ◌&&◌, ◌||◌, List, arith, ◌==◌, get_elem?, Bool-cases,
}
use my_apue.Open.Clients.{Client, entries}
use my_apue.Open.Request.{Globals, undefined_request}
use my_apue.Open.Server.{
  Server, Answers, Round, goes, quits, undefined, unfinished, count, serve_entry, scan_clients,
  round, Reached,
}
use my_apue.Open.Server.Entries.{fd_at}
use my_apue.Open.Server.Laws.{IsServing}
use my_apue.Open.Server.Scans.{Asked, Within, Within-here, Within-later}
use my_apue.Open.Server.Rounds.{Reached-IsServing, Kept, entry-Kept}
use my_apue.Open.Server.Gone.{gone, has_fd, Refusal, Did, and_true, entry-Did}

-- Some of `n` entries from index `i` on has the descriptor.
abbrev pub within : ℕ → ℕ → List Client → ℕ → Bool
within zero i cs fd = false
within (suc n) i cs fd = has_fd (fd_at cs i) fd || within n (suc i) cs fd

-- What a scan of `n` entries from index `i` on does.
abbrev Scanned : Answers → ℕ → ℕ → Server → Round → Type 0
Scanned a n i s (goes t) =
    (fd : ℕ)
    → t.allset fd ≡ (s.allset fd && not (within n i (entries s.clients.client) fd && gone a fd))
Scanned a n i s quits = Within (Refusal a) a n i s
Scanned a n i s undefined = Within (Asked a undefined_request) a n i s
Scanned a n i s unfinished = ⊥

-- Entries before the range do not matter.
within-same :
    (n i k : ℕ) (cs ds : List Client) (fd : ℕ)
    → k < i
    → ((j : ℕ) → k ≢ j → fd_at ds j ≡ fd_at cs j)
    → within n i ds fd ≡ within n i cs fd
within-same zero i k cs ds fd h same = refl
within-same (suc n) i k cs ds fd h same =
    rw (same i (λ p. omega (arith, p)), within-same n (suc i) k cs ds fd (omega arith) same) refl

both_bits : (x h w g : Bool) → ((x && not (h && g)) && not (w && g)) ≡ (x && not ((h || w) && g))
both_bits true true w true = refl
both_bits true true true false = refl
both_bits true true false false = refl
both_bits true false w g = refl
both_bits false h w g = refl

after_entry :
    (a : Answers) (n i : ℕ) (s s' : Server) (r : Round)
    → ((fd : ℕ)
        → s'.allset fd
          ≡ (s.allset fd && not (has_fd (fd_at (entries s.clients.client) i) fd && gone a fd)))
    → ((j : ℕ) → i ≢ j → fd_at (entries s'.clients.client) j ≡ fd_at (entries s.clients.client) j)
    → serve_entry a (get_elem? (entries s.clients.client) i) s ≡ goes s'
    → Scanned a n (suc i) s' r
    → Scanned a (suc n) i s r
after_entry a n i s s' (goes t) set others e later = λ fd.
    later fd
    ∙ (ap (λ x. x && not (within n (suc i) (entries s'.clients.client) fd && gone a fd)) (set fd)
        ∙ (ap
              (λ x.
                (s.allset fd && not (has_fd (fd_at (entries s.clients.client) i) fd && gone a fd))
                && not (x && gone a fd))
              (within-same n (suc i) i (entries s.clients.client) (entries s'.clients.client) fd
                (omega arith) others)
            ∙ both_bits (s.allset fd) (has_fd (fd_at (entries s.clients.client) i) fd)
                (within n (suc i) (entries s.clients.client) fd) (gone a fd)))
after_entry a n i s s' quits set others e later = Within-later (Refusal a) a n i s s' e later
after_entry a n i s s' undefined set others e later =
    Within-later (Asked a undefined_request) a n i s s' e later
after_entry a n i s s' unfinished set others e later = later

next-Scanned :
    (a : Answers) (n i : ℕ) (s : Server) (r : Round)
    → serve_entry a (get_elem? (entries s.clients.client) i) s ≡ r
    → Kept (Asked a undefined_request i s) s r
    → Did a i s r
    → ((s' : Server)
        → IsServing s'
        → s'.maxi ≡ s.maxi
        → Scanned a n (suc i) s' (scan_clients a n (suc i) s'))
    → Scanned a (suc n) i s (elim r [
      | goes s' ↦ scan_clients a n (suc i) s'
      | quits ↦ quits
      | undefined ↦ undefined
      | unfinished ↦ unfinished
    ])
next-Scanned a n i s (goes s') e (v, same) (set, others) later =
    after_entry a n i s s' (scan_clients a n (suc i) s') set others e (later s' v same)
next-Scanned a n i s quits e h d later = Within-here (Refusal a) a n i s d
next-Scanned a n i s undefined e h d later = Within-here (Asked a undefined_request) a n i s h
next-Scanned a n i s unfinished e h d later = h

scan-Scanned :
    (a : Answers) (n i : ℕ) (s : Server)
    → IsServing s
    → i + n ≤ count s.maxi
    → Scanned a n i s (scan_clients a n i s)
unfolding scan_clients
scan-Scanned a zero i s v h = λ fd. and_true (s.allset fd)
scan-Scanned a (suc n) i s v h =
    next-Scanned a n i s (serve_entry a (get_elem? (entries s.clients.client) i) s) refl
      (entry-Kept a i s v (omega arith)) (entry-Did a i s v (omega arith))
      (λ s' v' same.
        scan-Scanned a n (suc i) s' v'
          (subst (λ m. suc i + n ≤ count m) (sym same) (omega (arith, h))))

within_finds :
    (n i j : ℕ) (cs : List Client) (fd : ℕ)
    → i ≤ j
    → j < i + n
    → fd_at cs j ≡ some fd
    → within n i cs fd ≡ true
within_finds zero i j cs fd low high e = absurd (omega arith)
within_finds (suc n) i j cs fd low high e = elim (Bool-cases (i == j)) [
  | inl here ↦
      let p : i ≡ j = ground arith in
      subst (λ o. has_fd o fd || within n (suc i) cs fd ≡ true) (sym (ap (fd_at cs) p ∙ e))
        (ground arith)
  | inr other ↦
      let found = within_finds n (suc i) j cs fd (ground arith) (omega arith) e in ground arith
]

-- What a round without a connection does.
abbrev pub Closes : Answers → Server → Round → Type 0
Closes a s (goes t) = (fd : ℕ) → t.allset fd ≡ (s.allset fd && not (gone a fd))
Closes a s quits = Within (Refusal a) a (count s.maxi) 0 s
Closes a s undefined = Within (Asked a undefined_request) a (count s.maxi) 0 s
Closes a s unfinished = ⊥

and_gone : (w g : Bool) → g ≡ false → (w && g) ≡ g
and_gone w g e = ground arith

watched_bits :
    (a : Answers) (s : Server)
    → IsServing s
    → a.rset s.listenfd ≡ false
    → (fd : ℕ)
    → (s.allset fd && not (within (count s.maxi) 0 (entries s.clients.client) fd && gone a fd))
      ≡ (s.allset fd && not (gone a fd))
watched_bits a s v quiet fd = elim (Bool-cases (s.allset fd)) [
  | inr off ↦ rw off refl
  | inl on ↦ elim (v.owned fd on) [
    | inl l ↦
        let idle : a.rset fd ≡ false = ap a.rset l ∙ quiet in
        let kept : gone a fd ≡ false = rw idle refl in
        ap (λ x. s.allset fd && not x)
          (and_gone (within (count s.maxi) 0 (entries s.clients.client) fd) (gone a fd) kept)
    | inr (j, e) ↦
        let (_, _, low) = v.watched j fd e in
        rw
          (within_finds (count s.maxi) 0 j (entries s.clients.client) fd (omega arith)
            (omega (arith, low)) e)
          refl
  ]
]

Scanned-Closes :
    (a : Answers) (s : Server) (r : Round)
    → IsServing s
    → a.rset s.listenfd ≡ false
    → Scanned a (count s.maxi) 0 s r
    → Closes a s r
Scanned-Closes a s (goes t) v quiet d = λ fd. d fd ∙ watched_bits a s v quiet fd
Scanned-Closes a s quits v quiet d = d
Scanned-Closes a s undefined v quiet d = d
Scanned-Closes a s unfinished v quiet d = d

-- In every state that `loop` comes to, a round in which `select` succeeds and reports no connection goes on
-- with just the descriptors watched on which it does not report the end of a file; or the scan comes to a
-- client whose descriptor `select` reports, and there the `read` fails, or the request read, in the state that
-- the entries before have led to, ends the process or is undefined behaviour.
pub Reached-Closes :
    {listenfd : ℕ} {others : ℕ → Bool} {g : Globals} (s : Server) (a : Answers)
    → Reached listenfd others g s
    → a.select_ok ≡ true
    → a.rset s.listenfd ≡ false
    → Closes a s (round a s)
unfolding round
Reached-Closes s a r selected quiet =
    let v = Reached-IsServing r in
    rw (selected, quiet)
      (Scanned-Closes a s (scan_clients a (count s.maxi) 0 s) v quiet
        (scan-Scanned a (count s.maxi) 0 s v (omega arith)))
