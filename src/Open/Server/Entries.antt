-- ===== src/Open/Server/Entries.antt =====
-- What the operations of my-src/Chapter-17/open-2/17-27.c do to the descriptors in the client table, entry
-- by entry.
use mathlib.Core.Path.{subst}
use my_apue.Prelude.{
  ℕ, zero, suc, ◌+◌, ◌≤◌, ◌<◌, ◌≡◌, refl, sym, ap, ◌∙◌, ◌≢◌, Option, none, some, true, false, List,
  [], ◌∷◌, ◌++◌, arith, length, replicate, length-append, get_elem?, Bool-cases, inl, inr,
  Option-cases, Bool,
}
use my_apue.Prelude.Int.{ℤ, pos, negsuc, minus_one, ◌==ℤ◌, ==ℤ→eq}
use my_apue.Open.Clients.{
  Client, client_at, Clients, nalloc, mark_free, entries, client_alloc, take_free, add_loop,
  clear_fd, is_null, client_add, client_del,
}
use my_apue.Open.Clients.Laws.{IsSized, take_free-Filled, length-mark_free}

-- A descriptor in use.
abbrev pub in_use : ℤ → Option ℕ
in_use (pos fd) = some fd
in_use (negsuc e) = none

abbrev pub fd_at : List Client → ℕ → Option ℕ
fd_at [] j = none
fd_at (c ∷ cs) zero = in_use c.fd
fd_at (c ∷ cs) (suc j) = fd_at cs j

pub fd_at_inside : (cs : List Client) (j fd : ℕ) → fd_at cs j ≡ some fd → j < length cs
fd_at_inside [] j fd e = cc
fd_at_inside (c ∷ cs) zero fd e = omega arith
fd_at_inside (c ∷ cs) (suc j) fd e = let h = fd_at_inside cs j fd e in omega arith

-- Entry `i`, which was free, has the descriptor, and no other entry has changed.
pub record Took (fd : ℕ) (cs : List Client) (i : ℕ) (cs' : List Client) : Type 0 where
  pub there : fd_at cs' i ≡ some fd
  pub was_free : fd_at cs i ≡ none
  pub others : (j : ℕ) → i ≢ j → fd_at cs' j ≡ fd_at cs j
  pub grows : length cs ≤ length cs'

in_use_free : (z : ℤ) → (z ==ℤ minus_one) ≡ true → in_use z ≡ none
in_use_free (pos n) e = cc
in_use_free (negsuc n) e = refl

later_fd : (c d : Client) (cs : List Client) (j : ℕ) → 0 ≢ j → fd_at (c ∷ cs) j ≡ fd_at (d ∷ cs) j
later_fd c d cs zero ne = absurd (ne refl)
later_fd c d cs (suc j) ne = refl

under_fd :
    (c : Client) (cs ds : List Client) {k : ℕ} (j : ℕ)
    → ((j : ℕ) → k ≢ j → fd_at ds j ≡ fd_at cs j)
    → suc k ≢ j
    → fd_at (c ∷ ds) j ≡ fd_at (c ∷ cs) j
under_fd c cs ds zero same ne = refl
under_fd c cs ds (suc j) same ne = same j (λ e. ne (ap suc e))

take_free-Took :
    (fd uid : ℕ) (cs : List Client) {i : ℕ} {cs' : List Client}
    → take_free (pos fd) uid cs ≡ some (i, cs')
    → Took fd cs i cs'
unfolding take_free
take_free-Took fd uid [] e = cc
take_free-Took fd uid (c ∷ cs) {i} {cs'} e = elim (Bool-cases (c.fd ==ℤ minus_one)) [
  | inl free ↦
      let at_0 : i ≡ 0 = ground arith in
      let is : cs' ≡ client_at (pos fd) uid ∷ cs = ground arith in
      rw (at_0, is)
        (record {
          there = refl;
          was_free = in_use_free c.fd free;
          others = λ j ne. later_fd (client_at (pos fd) uid) c cs j ne;
          grows = omega arith;
        })
  | inr used ↦ elim (Option-cases (take_free (pos fd) uid cs)) [
    | inl full ↦ ground arith
    | inr ((k, ds), found) ↦
        let at_k : i ≡ suc k = ground arith in
        let is : cs' ≡ c ∷ ds = ground arith in
        let t = take_free-Took fd uid cs found in
        rw (at_k, is)
          (record {
            there = t.there;
            was_free = t.was_free;
            others = λ j ne. under_fd c cs ds j t.others ne;
            grows = omega (arith, t.grows);
          })
  ]
]

-- New entries are free.
fd_at-mark_free :
    (cs : List Client) (junk : Client) (n j : ℕ)
    → fd_at (mark_free (length cs) n (cs ++ replicate n junk)) j ≡ fd_at cs j
unfolding mark_free
fd_at-mark_free [] junk zero j = refl
fd_at-mark_free [] junk (suc n) zero = refl
fd_at-mark_free [] junk (suc n) (suc j) = fd_at-mark_free [] junk n j
fd_at-mark_free (c ∷ cs) junk n zero = refl
fd_at-mark_free (c ∷ cs) junk n (suc j) = fd_at-mark_free cs junk n j

-- The table after an allocation has the same descriptors.
pub record Grows (s s' : Clients) : Type 0 where
  pub sized : IsSized s'
  pub same : (j : ℕ) → fd_at (entries s'.client) j ≡ fd_at (entries s.client) j
  pub longer : length (entries s.client) ≤ length (entries s'.client)

client_alloc-Grows :
    (junk : Client) (memory : Bool) (s : Clients) {s' : Clients}
    → IsSized s
    → client_alloc junk memory s ≡ some s'
    → Grows s s'
unfolding client_alloc
client_alloc-Grows junk false s sized e = cc
client_alloc-Grows junk true s {s'} sized e =
    let cs = entries s.client in
    let new = mark_free s.client_size nalloc (cs ++ replicate nalloc junk) in
    let is : s' ≡ record { client = some new; client_size = s.client_size + nalloc } =
      ground arith in
    let long : length new ≡ length cs + nalloc =
      length-mark_free s.client_size nalloc (cs ++ replicate nalloc junk)
      ∙ length-append cs (replicate nalloc junk) in
    rw is (record {
      sized = long ∙ ap (λ n. n + nalloc) sized;
      same = λ j.
          subst (λ n. fd_at (mark_free n nalloc (cs ++ replicate nalloc junk)) j ≡ fd_at cs j) sized
            (fd_at-mark_free cs junk nalloc j);
      longer = omega (arith, long);
    })

-- A scan after an allocation, seen from before it.
Grows-Took :
    (fd : ℕ) (s t s' : Clients) {i : ℕ}
    → Grows s t
    → Took fd (entries t.client) i (entries s'.client) × IsSized s'
    → Took fd (entries s.client) i (entries s'.client) × IsSized s'
Grows-Took fd s t s' {i} g (took, sized) = (
  record {
    there = took.there;
    was_free = sym (g.same i) ∙ took.was_free;
    others = λ j ne. took.others j ne ∙ g.same j;
    grows = omega (arith, took.grows, g.longer);
  },
  sized,
)

add_loop-Took :
    (k : ℕ) (junk : Client) (memory : Bool) (fd uid : ℕ) (s : Clients) {i : ℕ} (s' : Clients)
    → IsSized s
    → add_loop k junk memory (pos fd) uid s ≡ some (i, s')
    → Took fd (entries s.client) i (entries s'.client) × IsSized s'
unfolding add_loop
add_loop-Took zero junk memory fd uid s s' sized e = cc
add_loop-Took (suc k) junk memory fd uid s {i} s' sized e =
    elim (Option-cases (take_free (pos fd) uid (entries s.client))) [
      | inr ((j, ds), found) ↦
          let t = take_free-Took fd uid (entries s.client) found in
          let at_j : i ≡ j = ground arith in
          let is : s' ≡ record s { client = some ds } = ground arith in
          rw (at_j, is)
            (
              t,
              (take_free-Filled (pos fd) uid (entries s.client) (λ e. cc) found).same_length
                  ∙ sized,
            )
      | inl full ↦ elim (Option-cases (client_alloc junk memory s)) [
        | inl out ↦ ground arith
        | inr (t, got) ↦
            let g = client_alloc-Grows junk memory s sized got in
            Grows-Took fd s t s' g (add_loop-Took k junk memory fd uid t s' g.sized (ground arith))
      ]
    ]

pub client_add-Took :
    (k : ℕ) (junk : Client) (memory : Bool) (fd uid : ℕ) (s : Clients) {i : ℕ} {s' : Clients}
    → IsSized s
    → client_add k junk memory (pos fd) uid s ≡ some (i, s')
    → Took fd (entries s.client) i (entries s'.client) × IsSized s'
unfolding client_add
client_add-Took k junk memory fd uid s {s' = s'} sized e = elim (Bool-cases (is_null s.client)) [
  | inr array ↦ add_loop-Took k junk memory fd uid s s' sized (ground arith)
  | inl fresh ↦ elim (Option-cases (client_alloc junk memory s)) [
    | inl out ↦ ground arith
    | inr (t, got) ↦
        let g = client_alloc-Grows junk memory s sized got in
        Grows-Took fd s t s' g (add_loop-Took k junk memory fd uid t s' g.sized (ground arith))
  ]
]

-- The first entry with the descriptor is free, and no other entry has changed.
pub record Freed (fd : ℕ) (cs cs' : List Client) : Type 0 where
  pub place : ℕ
  pub was : fd_at cs place ≡ some fd
  pub free : fd_at cs' place ≡ none
  pub others : (j : ℕ) → place ≢ j → fd_at cs' j ≡ fd_at cs j
  pub same_length : length cs' ≡ length cs

clear_fd-Freed :
    (fd : ℕ) (cs : List Client) {cs' : List Client}
    → clear_fd (pos fd) cs ≡ some cs'
    → Freed fd cs cs'
unfolding clear_fd
clear_fd-Freed fd [] e = cc
clear_fd-Freed fd (c ∷ cs) {cs'} e = elim (Bool-cases (c.fd ==ℤ pos fd)) [
  | inl here ↦
      let is : cs' ≡ record c { fd = minus_one } ∷ cs = ground arith in
      rw is (record {
        place = 0;
        was = ap in_use (==ℤ→eq c.fd (pos fd) here);
        free = refl;
        others = λ j ne. later_fd (record c { fd = minus_one }) c cs j ne;
        same_length = refl;
      })
  | inr other ↦ elim (Option-cases (clear_fd (pos fd) cs)) [
    | inl missing ↦ ground arith
    | inr (ds, found) ↦
        let is : cs' ≡ c ∷ ds = ground arith in
        let f = clear_fd-Freed fd cs found in
        rw is (record {
          place = suc f.place;
          was = f.was;
          free = f.free;
          others = λ j ne. under_fd c cs ds j f.others ne;
          same_length = ap suc f.same_length;
        })
  ]
]

pub client_del-Freed :
    (fd : ℕ) (s : Clients) {s' : Clients}
    → IsSized s
    → client_del (pos fd) s ≡ some s'
    → Freed fd (entries s.client) (entries s'.client) × IsSized s'
unfolding client_del
client_del-Freed fd s {s'} sized e = elim (Option-cases (clear_fd (pos fd) (entries s.client))) [
  | inl missing ↦ ground arith
  | inr (ds, found) ↦
      let f = clear_fd-Freed fd (entries s.client) found in
      let is : s' ≡ record s { client = some ds } = ground arith in rw is (f, f.same_length ∙ sized)
]

in_use-eq : (z : ℤ) (fd : ℕ) → in_use z ≡ some fd → (z ==ℤ pos fd) ≡ true
in_use-eq (pos n) fd e = ground arith
in_use-eq (negsuc n) fd e = cc

missing_under :
    (c : Client) (fd : ℕ) (cs : List Client) (j : ℕ)
    → (c.fd ==ℤ pos fd) ≡ false
    → fd_at (c ∷ cs) j ≡ some fd
    → ((k : ℕ) → fd_at cs k ≢ some fd)
    → ⊥
missing_under c fd cs zero other at none_later = let here = in_use-eq c.fd fd at in cc
missing_under c fd cs (suc j) other at none_later = none_later j at

clear_fd_missing :
    (fd : ℕ) (cs : List Client) (j : ℕ) → clear_fd (pos fd) cs ≡ none → fd_at cs j ≢ some fd
unfolding clear_fd
clear_fd_missing fd [] j e at = cc
clear_fd_missing fd (c ∷ cs) j e at = elim (Bool-cases (c.fd ==ℤ pos fd)) [
  | inl here ↦ ground arith
  | inr other ↦ elim (Option-cases (clear_fd (pos fd) cs)) [
    | inr (ds, found) ↦ ground arith
    | inl missing ↦ missing_under c fd cs j other at (λ k. clear_fd_missing fd cs k missing)
  ]
]

-- `client_del` of a descriptor that an entry has succeeds.
pub client_del_finds :
    (fd : ℕ) (s : Clients) (j : ℕ)
    → fd_at (entries s.client) j ≡ some fd
    → (s' : Clients) × (client_del (pos fd) s ≡ some s')
unfolding client_del
client_del_finds fd s j at = elim (Option-cases (clear_fd (pos fd) (entries s.client))) [
  | inl missing ↦ absurd (clear_fd_missing fd (entries s.client) j missing at)
  | inr (ds, found) ↦ (record s { client = some ds }, rw (client_del, found))
]

abbrev fd_of : Option Client → Option ℕ
fd_of none = none
fd_of (some c) = in_use c.fd

pub fd_at-get :
    (cs : List Client) (i : ℕ) {c : Client} → get_elem? cs i ≡ some c → fd_at cs i ≡ in_use c.fd
fd_at-get [] i e = cc
fd_at-get (c ∷ cs) zero e = ap fd_of e
fd_at-get (c ∷ cs) (suc i) e = fd_at-get cs i e
