-- ===== src/Open/Clients/Laws.antt =====
-- The client table of my-src/Chapter-17/open-2/17-27.c as the collection of the clients in it.
use mathlib.Core.Path.{subst}
use mathlib.Core.List.{Perm}
use mathlib.Core.List.Perm
use my_apue.Prelude.{
  ℕ, zero, suc, ◌+◌, ◌<◌, ◌≡◌, refl, ap, ◌∙◌, ◌≢◌, Option, none, some, true, false, List, [], ◌∷◌,
  ◌++◌, arith, if◌then◌else◌, length, replicate, length-append, get_elem?, Bool-cases, inl, inr,
  Option-cases,
}
use my_apue.Prelude.Int.{ℤ, minus_one, ◌==ℤ◌}
use my_apue.Open.Clients.{
  Client, client_at, Clients, nalloc, mark_free, entries, client_alloc, take_free, add_loop,
  is_null, client_add,
}

-- The entries in use.
abbrev pub live : List Client → List Client
live [] = []
live (c ∷ cs) = if c.fd ==ℤ minus_one then live cs else c ∷ live cs

-- `client_size` is the length of the array, none if the array is not there yet.
abbrev pub IsSized : Clients → Type 0
IsSized s = length (entries s.client) ≡ s.client_size

live-mark_free :
    (cs : List Client) (junk : Client) (n : ℕ)
    → live (mark_free (length cs) n (cs ++ replicate n junk)) ≡ live cs
unfolding mark_free
live-mark_free [] junk zero = refl
live-mark_free [] junk (suc n) = live-mark_free [] junk n
live-mark_free (c ∷ cs) junk n =
    ap (λ x. if c.fd ==ℤ minus_one then x else c ∷ x) (live-mark_free cs junk n)

pub length-mark_free : (i n : ℕ) (cs : List Client) → length (mark_free i n cs) ≡ length cs
unfolding mark_free
length-mark_free i n [] = refl
length-mark_free zero zero (c ∷ cs) = refl
length-mark_free zero (suc n) (c ∷ cs) = ap suc (length-mark_free zero n cs)
length-mark_free (suc i) n (c ∷ cs) = ap suc (length-mark_free i n cs)

-- What a scan that finds a free entry does.
pub record Filled (fd : ℤ) (uid : ℕ) (cs : List Client) (i : ℕ) (cs' : List Client) : Type 0 where
  pub there : get_elem? cs' i ≡ some (client_at fd uid)
  pub same_length : length cs' ≡ length cs
  pub one_more : Perm (live cs') (client_at fd uid ∷ live cs)
  pub others : (j : ℕ) → i ≢ j → get_elem? cs' j ≡ get_elem? cs j

pub get_later :
    (c d : Client) (cs : List Client) (j : ℕ) → 0 ≢ j → get_elem? (c ∷ cs) j ≡ get_elem? (d ∷ cs) j
get_later c d cs zero ne = absurd (ne refl)
get_later c d cs (suc j) ne = refl

pub get_under :
    (c : Client) (cs ds : List Client) {k : ℕ} (j : ℕ)
    → ((j : ℕ) → k ≢ j → get_elem? ds j ≡ get_elem? cs j)
    → suc k ≢ j
    → get_elem? (c ∷ ds) j ≡ get_elem? (c ∷ cs) j
get_under c cs ds zero same ne = refl
get_under c cs ds (suc j) same ne = same j (λ e. ne (ap suc e))

Filled-here :
    (fd : ℤ) (uid : ℕ) (c : Client) (cs : List Client)
    → (c.fd ==ℤ minus_one) ≡ true
    → (fd ==ℤ minus_one) ≡ false
    → Filled fd uid (c ∷ cs) 0 (client_at fd uid ∷ cs)
Filled-here fd uid c cs free used = record {
  there = refl;
  same_length = refl;
  one_more = rw (free, used) (Perm.refl _);
  others = λ j ne. get_later _ _ cs j ne;
}

Filled-there :
    (fd : ℤ) (uid : ℕ) (c : Client) {cs ds : List Client} {k : ℕ}
    → (c.fd ==ℤ minus_one) ≡ false
    → Filled fd uid cs k ds
    → Filled fd uid (c ∷ cs) (suc k) (c ∷ ds)
Filled-there fd uid c used r = record {
  there = r.there;
  same_length = ap suc r.same_length;
  one_more = rw used (Perm.trans (Perm.cons c r.one_more) (Perm.swap _ _ _));
  others = λ j ne. get_under c _ _ j r.others ne;
}

pub take_free-Filled :
    (fd : ℤ) (uid : ℕ) (cs : List Client) {i : ℕ} {cs' : List Client}
    → fd ≢ minus_one
    → take_free fd uid cs ≡ some (i, cs')
    → Filled fd uid cs i cs'
unfolding take_free
take_free-Filled fd uid [] ne e = cc
take_free-Filled fd uid (c ∷ cs) {i} {cs'} ne e = elim (Bool-cases (c.fd ==ℤ minus_one)) [
  | inl free ↦
      let at_0 : i ≡ 0 = ground arith in
      let is : cs' ≡ client_at fd uid ∷ cs = ground arith in
      rw (at_0, is) (Filled-here fd uid c cs free (ground arith))
  | inr used ↦ elim (Option-cases (take_free fd uid cs)) [
    | inl full ↦ ground arith
    | inr ((k, ds), found) ↦
        let at_k : i ≡ suc k = ground arith in
        let is : cs' ≡ c ∷ ds = ground arith in
        rw (at_k, is) (Filled-there fd uid c used (take_free-Filled fd uid cs ne found))
  ]
]

-- The table after an allocation.
abbrev grown : Client → Clients → Clients
grown junk s = record {
  client = some (mark_free s.client_size nalloc (entries s.client ++ replicate nalloc junk));
  client_size = s.client_size + nalloc;
}

-- A new entry is free, so the scan after an allocation succeeds.
take_free-mark_free :
    (fd : ℤ) (uid : ℕ) (junk : Client) (cs : List Client)
    → (i : ℕ) × (ds : List Client) × (take_free fd uid
          (mark_free (length cs) nalloc (cs ++ replicate nalloc junk))
        ≡ some (i, ds))
unfolding take_free mark_free
take_free-mark_free fd uid junk [] = (_, _, refl)
take_free-mark_free fd uid junk (c ∷ cs) =
    let (i, ds, e) = take_free-mark_free fd uid junk cs in
    elim (Bool-cases (c.fd ==ℤ minus_one)) [
      | inl free ↦ (
        0,
        client_at fd uid ∷ mark_free (length cs) nalloc (cs ++ replicate nalloc junk),
        rw free,
      )
      | inr used ↦ (suc i, c ∷ ds, rw used (rw e))
    ]

get-mark_free :
    (cs rs : List Client) (n j : ℕ)
    → j < length cs
    → get_elem? (mark_free (length cs) n (cs ++ rs)) j ≡ get_elem? cs j
unfolding mark_free
get-mark_free [] rs n j h = absurd (omega arith)
get-mark_free (c ∷ cs) rs n zero h = refl
get-mark_free (c ∷ cs) rs n (suc j) h = get-mark_free cs rs n j (omega arith)

-- What `client_add` promises: the client stands at the index returned, the clients are those of
-- before and the new one, and no entry that was there moves or changes but the one that is taken.
pub record Added (fd : ℤ) (uid : ℕ) (s : Clients) (i : ℕ) (s' : Clients) : Type 0 where
  pub there : get_elem? (entries s'.client) i ≡ some (client_at fd uid)
  pub sized : IsSized s'
  pub one_more : Perm (live (entries s'.client)) (client_at fd uid ∷ live (entries s.client))
  pub kept :
      (j : ℕ)
      → j < s.client_size
      → i ≢ j
      → get_elem? (entries s'.client) j ≡ get_elem? (entries s.client) j

module _ (fd : ℤ) (uid : ℕ) (junk : Client) (used : fd ≢ minus_one) (s : Clients)
    (sized : IsSized s) where
  Filled-Added :
      {i : ℕ} {cs : List Client}
      → Filled fd uid (entries s.client) i cs
      → Added fd uid s i (record s { client = some cs })
  Filled-Added f = record {
    there = f.there;
    sized = f.same_length ∙ sized;
    one_more = f.one_more;
    kept = λ j h ne. f.others j ne;
  }

  grown-IsSized : IsSized (grown junk s)
  grown-IsSized =
      length-mark_free s.client_size nalloc (entries s.client ++ replicate nalloc junk)
      ∙ length-append (entries s.client) (replicate nalloc junk)
      ∙ ap (λ n. n + nalloc) sized

  Added-grown : (i : ℕ) (s' : Clients) → Added fd uid (grown junk s) i s' → Added fd uid s i s'
  Added-grown i s' a = record {
    there = a.there;
    sized = a.sized;
    one_more =
        subst (λ cs. Perm (live (entries s'.client)) (client_at fd uid ∷ cs))
          (subst
            (λ n.
              live (mark_free n nalloc (entries s.client ++ replicate nalloc junk))
              ≡ live (entries s.client))
            sized (live-mark_free (entries s.client) junk nalloc))
          a.one_more;
    kept = λ j h ne.
        a.kept j (omega arith) ne
        ∙ subst
            (λ n.
              get_elem? (mark_free n nalloc (entries s.client ++ replicate nalloc junk)) j
              ≡ get_elem? (entries s.client) j)
            sized (get-mark_free (entries s.client) (replicate nalloc junk) nalloc j (omega arith));
  }

-- A run that adds.
abbrev pub Adds : ℤ → ℕ → Clients → Option (ℕ × Clients) → Type 0
Adds fd uid s r = (i : ℕ) × (s' : Clients) × (r ≡ some (i, s')) × Added fd uid s i s'

module _ (junk : Client) (fd : ℤ) (uid : ℕ) where
  add_loop_hit :
      (k : ℕ) (s : Clients) {i : ℕ} {cs : List Client}
      → take_free fd uid (entries s.client) ≡ some (i, cs)
      → add_loop (suc k) junk true fd uid s ≡ some (i, record s { client = some cs })
  unfolding add_loop
  add_loop_hit k s e = rw (add_loop, e)

  add_loop_miss :
      (k : ℕ) (s : Clients)
      → take_free fd uid (entries s.client) ≡ none
      → add_loop (suc k) junk true fd uid s ≡ add_loop k junk true fd uid (grown junk s)
  unfolding add_loop client_alloc
  add_loop_miss k s e = rw (add_loop, e)

module _ (junk : Client) (fd : ℤ) (uid : ℕ) (used : fd ≢ minus_one) where
  add_here :
      (k : ℕ) (s : Clients) {i : ℕ} {cs : List Client}
      → IsSized s
      → take_free fd uid (entries s.client) ≡ some (i, cs)
      → Adds fd uid s (add_loop (suc k) junk true fd uid s)
  add_here k s {i} {cs} sized e = (
    i,
    record s { client = some cs },
    add_loop_hit junk fd uid k s e,
    Filled-Added fd uid junk used s sized (take_free-Filled fd uid _ used e),
  )

  -- After an allocation the scan succeeds.
  add_grown :
      (k : ℕ) (s : Clients)
      → IsSized s
      → Adds fd uid s (add_loop (suc k) junk true fd uid (grown junk s))
  add_grown k s sized =
      let (i, cs, e) =
        subst
          (λ n.
            (i : ℕ) × (cs : List Client) × (take_free fd uid
                (mark_free n nalloc (entries s.client ++ replicate nalloc junk))
              ≡ some (i, cs)))
          sized (take_free-mark_free fd uid junk (entries s.client)) in
      let (i, s', run, a) = add_here k (grown junk s) (grown-IsSized fd uid junk used s sized) e in
      (i, s', run, Added-grown fd uid junk used s sized i s' a)

  add_twice :
      (k : ℕ) (s : Clients) → IsSized s → Adds fd uid s (add_loop (suc (suc k)) junk true fd uid s)
  add_twice k s sized = elim (Option-cases (take_free fd uid (entries s.client))) [
    | inl full ↦
        let (i, s', run, a) = add_grown k s sized in
        (i, s', add_loop_miss junk fd uid (suc k) s full ∙ run, a)
    | inr ((i, cs), e) ↦ add_here (suc k) s sized e
  ]

  -- In a table of `client_size` entries, with memory to be had and for a descriptor other than -1,
  -- `client_add` returns, two scans being enough. The client stands at the
  -- index returned, the clients in the table are those of before and the new one, and no entry that
  -- was there changes but the one that is taken.
  pub client_add-Added :
      (k : ℕ) (s : Clients)
      → IsSized s
      → Adds fd uid s (client_add (suc (suc k)) junk true fd uid s)
  unfolding client_add client_alloc
  client_add-Added k s sized = elim (Bool-cases (is_null s.client)) [
    | inl fresh ↦ let (i, s', run, a) = add_grown (suc k) s sized in (i, s', rw fresh run, a)
    | inr array ↦ let (i, s', run, a) = add_twice k s sized in (i, s', rw array run, a)
  ]
