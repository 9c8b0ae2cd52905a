-- ===== src/Open/Clients/Delete.antt =====
-- What `client_del` of my-src/Chapter-17/open-2/17-27.c takes out of the table.
use mathlib.Core.List.{Perm}
use mathlib.Core.List.Perm
use my_apue.Prelude.{
  ℕ, suc, get_elem?, ◌≡◌, refl, ap, ◌≢◌, Option, none, some, true, false, List, [], ◌∷◌, arith,
  length, Bool-cases, inl, inr, Option-cases,
}
use my_apue.Prelude.Int.{ℤ, minus_one, ◌==ℤ◌, ==ℤ→eq}
use my_apue.Open.Clients.{Client, Clients, entries, clear_fd, client_del}
use my_apue.Open.Clients.Laws.{live, get_later, get_under}

-- No entry has the descriptor.
abbrev pub Absent : ℤ → List Client → Type 0
Absent fd [] = Unit {0}
Absent fd (c ∷ cs) = ((c.fd ==ℤ fd) ≡ false) × Absent fd cs

-- What a scan that finds the descriptor does: the entry `place`, with the client `gone`, is no longer
-- in use; the clients left are the others, and all other entries are as they were.
pub record Cleared (fd : ℤ) (cs cs' : List Client) : Type 0 where
  pub place : ℕ
  pub gone : Client
  pub was : get_elem? cs place ≡ some gone
  pub is_fd : gone.fd ≡ fd
  pub same_length : length cs' ≡ length cs
  pub one_less : Perm (live cs) (gone ∷ live cs')
  pub others : (j : ℕ) → place ≢ j → get_elem? cs' j ≡ get_elem? cs j

Cleared-here :
    (fd : ℤ) (c : Client) (cs : List Client)
    → (c.fd ==ℤ fd) ≡ true
    → (c.fd ==ℤ minus_one) ≡ false
    → Cleared fd (c ∷ cs) (record c { fd = minus_one } ∷ cs)
Cleared-here fd c cs here used = record {
  place = 0;
  gone = c;
  was = refl;
  is_fd = ==ℤ→eq c.fd fd here;
  same_length = refl;
  one_less = rw used (Perm.refl _);
  others = λ j ne. get_later _ _ cs j ne;
}

one_less_under :
    (c gone : Client) (cs ds : List Client)
    → Perm (live cs) (gone ∷ live ds)
    → Perm (live (c ∷ cs)) (gone ∷ live (c ∷ ds))
one_less_under c gone cs ds p = elim (Bool-cases (c.fd ==ℤ minus_one)) [
  | inl free ↦ rw free p
  | inr used ↦ rw used (Perm.trans (Perm.cons c p) (Perm.swap _ _ _))
]

Cleared-there :
    (fd : ℤ) (c : Client) {cs ds : List Client} → Cleared fd cs ds → Cleared fd (c ∷ cs) (c ∷ ds)
Cleared-there fd c {cs} {ds} r = record {
  place = suc r.place;
  gone = r.gone;
  was = r.was;
  is_fd = r.is_fd;
  same_length = ap suc r.same_length;
  one_less = one_less_under c r.gone cs ds r.one_less;
  others = λ j ne. get_under c cs ds j r.others ne;
}

clear_fd-Cleared :
    (fd : ℤ) (cs : List Client) {cs' : List Client}
    → fd ≢ minus_one
    → clear_fd fd cs ≡ some cs'
    → Cleared fd cs cs'
unfolding clear_fd
clear_fd-Cleared fd [] ne e = cc
clear_fd-Cleared fd (c ∷ cs) {cs'} ne e = elim (Bool-cases (c.fd ==ℤ fd)) [
  | inl here ↦
      let is : cs' ≡ record c { fd = minus_one } ∷ cs = ground arith in
      let used : (c.fd ==ℤ minus_one) ≡ false = ground (arith, ==ℤ→eq c.fd fd here) in
      rw is (Cleared-here fd c cs here used)
  | inr other ↦ elim (Option-cases (clear_fd fd cs)) [
    | inl missing ↦ ground arith
    | inr (ds, found) ↦
        let is : cs' ≡ c ∷ ds = ground arith in
        rw is (Cleared-there fd c (clear_fd-Cleared fd cs ne found))
  ]
]

clear_fd-Absent : (fd : ℤ) (cs : List Client) → clear_fd fd cs ≡ none → Absent fd cs
unfolding clear_fd
clear_fd-Absent fd [] e = tt
clear_fd-Absent fd (c ∷ cs) e = elim (Bool-cases (c.fd ==ℤ fd)) [
  | inl here ↦ ground arith
  | inr other ↦ elim (Option-cases (clear_fd fd cs)) [
    | inl missing ↦ (other, clear_fd-Absent fd cs missing)
    | inr (ds, found) ↦ ground arith
  ]
]

-- A run that deletes, or that ends the process as nothing is to be deleted.
abbrev pub Deletes : ℤ → Clients → Option Clients → Type 0
Deletes fd s none = Absent fd (entries s.client)
Deletes fd s (some s') =
    Cleared fd (entries s.client) (entries s'.client) × (s'.client_size ≡ s.client_size)

-- `client_del` on a descriptor other than -1 takes one client with it out of the table, and every
-- other entry stays as it is; or no entry has the descriptor and the process ends.
pub client_del-Deletes : (fd : ℤ) (s : Clients) → fd ≢ minus_one → Deletes fd s (client_del fd s)
unfolding client_del
client_del-Deletes fd s used = elim (Option-cases (clear_fd fd (entries s.client))) [
  | inl missing ↦ rw (Deletes, missing) (clear_fd-Absent fd _ missing)
  | inr (cs, found) ↦ rw (Deletes, found) (clear_fd-Cleared fd _ used found, refl)
]
