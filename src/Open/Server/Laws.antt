-- ===== src/Open/Server/Laws.antt =====
-- The invariant of `loop`, my-src/Chapter-17/open-2/17-29.c.
use my_apue.Prelude.{
  ℕ, suc, ◌≤◌, ◌<◌, ◌≡◌, refl, sym, ap, ◌∙◌, ◌≢◌, ◌⊎◌, inl, inr, Option, none, some, Bool, true,
  false, arith, ltb, ◌==◌, if◌then◌else◌, length, Bool-cases,
}
use my_apue.Prelude.Int.{ℤ, pos}
use my_apue.Open.Clients.{Clients, entries}
use my_apue.Open.Clients.Laws.{IsSized}
use my_apue.Open.Request.{Globals}
use my_apue.Open.Server.{Server, Answers, count, with_fd, without_fd, opens, logged, begin_loop}
use my_apue.Open.Server.Entries.{fd_at, fd_at_inside, Took, Freed}

-- What is watched is `listenfd` and the descriptors of the clients, each of one entry that the scan comes
-- to; all of it is open, and `maxfd` is no lower.
pub record IsServing (s : Server) : Type 0 where
  pub sized : IsSized s.clients
  pub listening : s.allset s.listenfd ≡ true
  pub watched :
      (j fd : ℕ)
      → fd_at (entries s.clients.client) j ≡ some fd
      → (s.allset fd ≡ true) × (fd ≢ s.listenfd) × (j < count s.maxi)
  pub owned :
      (fd : ℕ)
      → s.allset fd ≡ true
      → (fd ≡ s.listenfd) ⊎ ((j : ℕ) × (fd_at (entries s.clients.client) j ≡ some fd))
  pub single :
      (i j fd : ℕ)
      → fd_at (entries s.clients.client) i ≡ some fd
      → fd_at (entries s.clients.client) j ≡ some fd
      → i ≡ j
  pub opened : (fd : ℕ) → s.allset fd ≡ true → s.open_fds fd ≡ true
  pub high : (fd : ℕ) → s.allset fd ≡ true → fd ≤ s.maxfd
  pub inside : count s.maxi ≤ length (entries s.clients.client)

pub begin-IsServing :
    (listenfd : ℕ) (others : ℕ → Bool) (g : Globals) → IsServing (begin_loop listenfd others g)
begin-IsServing listenfd others g = record {
  sized = refl;
  listening = ground arith;
  watched = λ j fd e. cc;
  owned = λ fd e. inl (ground arith);
  single = λ i j fd e f. cc;
  opened = λ fd e. ground arith;
  high = λ fd e. ground arith;
  inside = omega arith;
}

with_fd_here : (n : ℕ) (set : ℕ → Bool) → with_fd n set n ≡ true
with_fd_here n set = ground arith

with_fd_keeps : (n : ℕ) (set : ℕ → Bool) (fd : ℕ) → set fd ≡ true → with_fd n set fd ≡ true
with_fd_keeps n set fd e = ground arith

with_fd_or :
    (n : ℕ) (set : ℕ → Bool) (fd : ℕ) → with_fd n set fd ≡ true → (fd ≡ n) ⊎ (set fd ≡ true)
with_fd_or n set fd e = ground arith

opens_keeps : (o : Option ℕ) (set : ℕ → Bool) (fd : ℕ) → set fd ≡ true → opens o set fd ≡ true
opens_keeps none set fd e = e
opens_keeps (some n) set fd e = with_fd_keeps n set fd e

pub logged-IsServing : (a : Answers) (s : Server) → IsServing s → IsServing (logged a s)
logged-IsServing a s v = record {
  sized = v.sized;
  listening = v.listening;
  watched = v.watched;
  owned = v.owned;
  single = v.single;
  opened = λ fd on. opens_keeps a.log_fd s.open_fds fd (v.opened fd on);
  high = v.high;
  inside = v.inside;
}

-- The table with one more client.
abbrev pub with_client : ℕ → ℕ → Clients → Server → Server
with_client clifd i cs s = record s {
  clients = cs;
  allset = with_fd clifd s.allset;
  open_fds = with_fd clifd s.open_fds;
  maxfd = if ltb s.maxfd clifd then clifd else s.maxfd;
  maxi = if ltb (count s.maxi) (suc i) then pos i else s.maxi;
}

higher :
    (m : ℤ) (i : ℕ)
    → (i < count (if ltb (count m) (suc i) then pos i else m))
      × (count m ≤ count (if ltb (count m) (suc i) then pos i else m))
higher m i = elim (Bool-cases (ltb (count m) (suc i))) [
  | inl more ↦ rw more (omega arith, ground arith)
  | inr less ↦ rw less (ground arith, omega arith)
]

module _ (clifd i : ℕ) (cs : Clients) (s : Server) (v : IsServing s)
    (fresh : s.open_fds clifd ≡ false)
    (t : Took clifd (entries s.clients.client) i (entries cs.client)) (sized : IsSized cs) where
  unwatched : s.allset clifd ≡ false
  unwatched = elim (Bool-cases (s.allset clifd)) [
    | inl on ↦ let o = v.opened clifd on in cc
    | inr off ↦ off
  ]

  -- An entry in use is the new one or an old one.
  added_entry :
      (j fd : ℕ)
      → fd_at (entries cs.client) j ≡ some fd
      → ((j ≡ i) × (fd ≡ clifd)) ⊎ (fd_at (entries s.clients.client) j ≡ some fd)
  added_entry j fd e = elim (Bool-cases (i == j)) [
    | inl here ↦
        let at_i : j ≡ i = ground arith in
        let same : fd ≡ clifd =
          let h = ap (fd_at (entries cs.client)) (sym at_i) ∙ e in let there = t.there in cc in
        inl (at_i, same)
    | inr other ↦ inr (sym (t.others j (λ p. ground arith)) ∙ e)
  ]

  added-watched :
      (j fd : ℕ)
      → fd_at (entries cs.client) j ≡ some fd
      → (with_fd clifd s.allset fd ≡ true)
        × (fd ≢ s.listenfd)
        × (j < count (with_client clifd i cs s).maxi)
  added-watched j fd e = elim (added_entry j fd e) [
    | inl (at_i, same) ↦
        rw (at_i, same)
          (
            with_fd_here clifd s.allset,
            (λ p. let l = v.listening in let u = unwatched in cc),
            (higher s.maxi i).0,
          )
    | inr old ↦
        let (on, other, low) = v.watched j fd old in
        (with_fd_keeps clifd s.allset fd on, other, omega (arith, low, (higher s.maxi i).1))
  ]

  added-owned :
      (fd : ℕ)
      → with_fd clifd s.allset fd ≡ true
      → (fd ≡ s.listenfd) ⊎ ((j : ℕ) × (fd_at (entries cs.client) j ≡ some fd))
  added-owned fd on = elim (with_fd_or clifd s.allset fd on) [
    | inl same ↦ inr (i, rw same t.there)
    | inr old ↦ elim (v.owned fd old) [
      | inl l ↦ inl l
      | inr (j, e) ↦ inr (
        j,
        t.others j
              (λ p. let h = ap (fd_at (entries s.clients.client)) p in let f = t.was_free in cc)
            ∙ e,
      )
    ]
  ]

  unlike_old : (j fd : ℕ) → fd ≡ clifd → fd_at (entries s.clients.client) j ≡ some fd → ⊥
  unlike_old j fd same old = let (on, _, _) = v.watched j fd old in let off = unwatched in cc

  added-single :
      (j k fd : ℕ)
      → fd_at (entries cs.client) j ≡ some fd
      → fd_at (entries cs.client) k ≡ some fd
      → j ≡ k
  added-single j k fd e f = elim (added_entry j fd e) [
    | inl (at_j, new_j) ↦ elim (added_entry k fd f) [
      | inl (at_k, new_k) ↦ at_j ∙ sym at_k
      | inr old ↦ absurd (unlike_old k fd new_j old)
    ]
    | inr old ↦ elim (added_entry k fd f) [
      | inl (at_k, new_k) ↦ absurd (unlike_old j fd new_k old)
      | inr old' ↦ v.single j k fd old old'
    ]
  ]

  pub added-IsServing : IsServing (with_client clifd i cs s)
  added-IsServing = record {
    sized = sized;
    listening = with_fd_keeps clifd s.allset s.listenfd v.listening;
    watched = added-watched;
    owned = added-owned;
    single = added-single;
    opened = λ fd on. elim (with_fd_or clifd s.allset fd on) [
      | inl same ↦ rw same (with_fd_here clifd s.open_fds)
      | inr old ↦ with_fd_keeps clifd s.open_fds fd (v.opened fd old)
    ];
    high = λ fd on. elim (with_fd_or clifd s.allset fd on) [
      | inl same ↦ ground arith
      | inr old ↦ let h = v.high fd old in ground arith
    ];
    inside = elim (Bool-cases (ltb (count s.maxi) (suc i))) [
      | inl more ↦ rw more (let h = fd_at_inside (entries cs.client) i clifd t.there in omega arith)
      | inr less ↦ rw less (omega (arith, v.inside, t.grows))
    ];
  }

without_fd_keeps :
    (n : ℕ) (set : ℕ → Bool) (fd : ℕ) → fd ≢ n → set fd ≡ true → without_fd n set fd ≡ true
without_fd_keeps n set fd ne e = ground arith

pub without_fd_was :
    (n : ℕ) (set : ℕ → Bool) (fd : ℕ) → without_fd n set fd ≡ true → (fd ≢ n) × (set fd ≡ true)
without_fd_was n set fd e = ground arith

-- The table without a client.
abbrev pub without_client : ℕ → Clients → Server → Server
without_client clifd cs s = record s {
  clients = cs;
  allset = without_fd clifd s.allset;
  open_fds = without_fd clifd s.open_fds;
}

module _ (clifd : ℕ) (cs : Clients) (s : Server) (v : IsServing s)
    (f : Freed clifd (entries s.clients.client) (entries cs.client)) (sized : IsSized cs) where
  -- An entry in use is an old one, and not of the descriptor.
  left_entry :
      (j fd : ℕ)
      → fd_at (entries cs.client) j ≡ some fd
      → (fd_at (entries s.clients.client) j ≡ some fd) × (fd ≢ clifd)
  left_entry j fd e =
      let moved : f.place ≢ j =
        λ p. let h = ap (fd_at (entries cs.client)) p in let g = f.free in cc in
      let old = sym (f.others j moved) ∙ e in
      (old, λ same. moved (v.single f.place j clifd f.was (old ∙ ap some same)))

  left-owned :
      (fd : ℕ)
      → without_fd clifd s.allset fd ≡ true
      → (fd ≡ s.listenfd) ⊎ ((j : ℕ) × (fd_at (entries cs.client) j ≡ some fd))
  left-owned fd on =
      let (other, was) = without_fd_was clifd s.allset fd on in
      elim (v.owned fd was) [
        | inl l ↦ inl l
        | inr (j, e) ↦ inr (
          j,
          f.others j (λ p.
                let h = ap (fd_at (entries s.clients.client)) p in
                let g = f.was in other (let q : some fd ≡ some clifd = sym e ∙ sym h ∙ g in cc))
              ∙ e,
        )
      ]

  pub dropped-IsServing : IsServing (without_client clifd cs s)
  dropped-IsServing = record {
    sized = sized;
    listening =
        let (_, other, _) = v.watched f.place clifd f.was in
        without_fd_keeps clifd s.allset s.listenfd (λ p. other (sym p)) v.listening;
    watched = λ j fd e.
        let (old, other) = left_entry j fd e in
        let (on, unlike, low) = v.watched j fd old in
        (without_fd_keeps clifd s.allset fd other on, unlike, low);
    owned = left-owned;
    single = λ j k fd e g.
        let (old, _) = left_entry j fd e in
        let (old', _) = left_entry k fd g in v.single j k fd old old';
    opened = λ fd on.
        let (other, was) = without_fd_was clifd s.allset fd on in
        without_fd_keeps clifd s.open_fds fd other (v.opened fd was);
    high = λ fd on. let (_, was) = without_fd_was clifd s.allset fd on in v.high fd was;
    inside = omega (arith, v.inside, f.same_length);
  }
