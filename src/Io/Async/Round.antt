-- ===== src/Io/Async/Round.antt =====
-- One round of the converter of my-src/Chapter-14/14-21.c over its buffers.
use my_apue.Prelude.{
  ℕ, suc, ◌+◌, ◌-◌, ◌*◌, ◌<◌, ◌≤◌, ◌≡◌, refl, ap, ◌≢◌, ◌⊎◌, inl, inr, Option, some, true, false,
  not, ◌&&◌, List, [], ◌∷◌, ltb, ◌==◌, arith, length, Bool-cases,
}
use my_apue.Io.Async.{
  bsz, Rwop, unused, read_pending, write_pending, Buf, Globals, Completion, in_progress, failed,
  finished, Visit, Visited, visit_unused, visit_read, visit_write, visit_op, visit, pass,
}
use my_apue.Io.Async.Buffer.{
  is_pending, block, BufOk, Works, InRange, goal_list, Accounted, NothingBehind, weight, pend, todo,
  Moves, Visits, visit_idle, visit_submit, visit_waits, visit_translates, visit_frees, length-block,
}

-- A look at a buffer that ends well.
abbrev pub Goes : List ℕ → (ℕ → Type 0) → Visit → Buf → Globals → Visited → Type 0
Goes infile others v b g out =
    (b' : Buf) × (g' : Globals) × (out ≡ some (b', g')) × Visits infile others v b g b' g'

module _ (infile : List ℕ) (others : ℕ → Type 0) (v : Visit) (b : Buf) (g : Globals)
    (ok : BufOk infile b) (acc : Accounted infile others b g) (beh : NothingBehind infile g)
    (works : Works infile b v) where
  unused-Goes :
      b.op ≡ unused → Goes infile others v b g (visit_unused (length infile) v.accepted b g)
  unused-Goes e = elim (Bool-cases (ltb g.off (length infile))) [
    | inl more ↦ (_, _, rw more (rw works.takes), visit_submit v b g acc beh e (ground arith))
    | inr over ↦ (_, _, rw over, visit_idle v b g ok acc beh e (ground arith))
  ]

  -- A short read is only taken for the last block.
  full_read :
      (n : ℕ)
      → b.op ≡ read_pending
      → n ≡ length (block infile b.aio_offset)
      → (not (n == bsz) && not b.last) ≡ false
  full_read n e count = elim (Bool-cases b.last) [
    | inl last ↦ rw last (ground arith)
    | inr more ↦
        let whole = ok.full e more in
        let is_bsz : n ≡ bsz = omega (arith, count, whole, length-block infile b.aio_offset) in
        rw is_bsz refl
  ]

  read-Goes :
      (c : Completion)
      → v.completion ≡ c
      → b.op ≡ read_pending
      → Goes infile others v b g (visit_read c v.bytes v.accepted b g)
  read-Goes in_progress c e = (_, _, refl, visit_waits v b g ok acc beh (ap is_pending e) c)
  read-Goes failed c e = absurd (works.no_failure c)
  read-Goes (finished n) c e =
      let (count, got) = works.reads_all n c e in
      (
        _,
        _,
        rw (full_read n e count) (rw works.takes),
        visit_translates v b g n acc beh e count got,
      )

  write-Goes :
      (c : Completion)
      → v.completion ≡ c
      → b.op ≡ write_pending
      → 0 < g.numop
      → Goes infile others v b g (visit_write c b g)
  write-Goes in_progress c e some_op =
      (_, _, refl, visit_waits v b g ok acc beh (ap is_pending e) c)
  write-Goes failed c e some_op = absurd (works.no_failure c)
  write-Goes (finished n) c e some_op =
      let all = works.writes_all n c e in
      let all' : (n == b.aio_nbytes) ≡ true = ground arith in
      (_, _, rw all', visit_frees v b g n ok acc beh e some_op all)

  op-Goes :
      (op : Rwop)
      → b.op ≡ op
      → pend op ≤ g.numop
      → Goes infile others v b g (visit_op op (length infile) v b g)
  op-Goes unused e h = unused-Goes e
  op-Goes read_pending e h = read-Goes v.completion refl e
  op-Goes write_pending e h = write-Goes v.completion refl e (omega arith)

  visit-Goes : pend b.op ≤ g.numop → Goes infile others v b g (visit (length infile) v b g)
  unfolding visit
  visit-Goes h = op-Goes b.op refl h

abbrev pub AllOk : List ℕ → List Buf → Type 0
AllOk infile [] = Unit {0}
AllOk infile (b ∷ bs) = BufOk infile b × AllOk infile bs

abbrev pub AllWork : List ℕ → (ℕ → Buf → Visit) → ℕ → List Buf → Type 0
AllWork infile answers i [] = Unit {0}
AllWork infile answers i (b ∷ bs) = Works infile b (answers i b) × AllWork infile answers (suc i) bs

abbrev pub Busy : List Buf → ℕ → Type 0
Busy [] p = ⊥
Busy (b ∷ bs) p = InRange b p ⊎ Busy bs p

abbrev pub pending : List Buf → ℕ
pending [] = 0
pending (b ∷ bs) = pend b.op + pending bs

abbrev pub all_todo : ℕ → List Buf → Globals → ℕ
all_todo size [] g = 3 * (size - g.off)
all_todo size (b ∷ bs) g = weight b.op + all_todo size bs g

-- Some operation of a buffer is over.
abbrev pub Stirs : (ℕ → Buf → Visit) → ℕ → List Buf → Type 0
Stirs answers i [] = ⊥
Stirs answers i (b ∷ bs) =
    ((is_pending b.op ≡ true) × ((answers i b).completion ≢ in_progress)) ⊎ Stirs answers (suc i) bs

abbrev pub AllAccounted : List ℕ → (ℕ → Type 0) → List Buf → Globals → Type 0
AllAccounted infile others bs g =
    (p : ℕ) → others p ⊎ Busy bs p ⊎ (g.off ≤ p) ⊎ (g.out p ≡ goal_list infile p)

-- There is something to do: an operation that is over, or a first buffer that is free and a block left.
abbrev pub Active : ℕ → (ℕ → Buf → Visit) → ℕ → List Buf → Globals → Type 0
Active size answers i [] g = ⊥
Active size answers i (b ∷ bs) g = Moves size (answers i b) b g ⊎ Stirs answers (suc i) bs

pub record Passes (infile : List ℕ) (others : ℕ → Type 0) (answers : ℕ → Buf → Visit) (i : ℕ)
    (bs : List Buf) (g : Globals) (bs' : List Buf) (g' : Globals) : Type 0 where
  pub bufs_ok : AllOk infile bs'
  pub accounted : AllAccounted infile others bs' g'
  pub nothing : NothingBehind infile g'
  pub numbers : pending bs' + g.numop ≡ pending bs + g'.numop
  pub same_length : length bs' ≡ length bs
  pub no_more : all_todo (length infile) bs' g' ≤ all_todo (length infile) bs g
  pub stirred : Stirs answers i bs → all_todo (length infile) bs' g' < all_todo (length infile) bs g
  pub active :
      Active (length infile) answers i bs g
      → all_todo (length infile) bs' g' < all_todo (length infile) bs g

abbrev pub PassGoes :
    List ℕ
    → (ℕ → Type 0)
    → (ℕ → Buf → Visit)
    → ℕ
    → List Buf
    → Globals
    → Option (List Buf × Globals)
    → Type 0
PassGoes infile others answers i bs g out =
    (bs' : List Buf) × (g' : Globals) × (out ≡ some (bs', g'))
    × Passes infile others answers i bs g bs' g'

-- The globals count only once.
todo_split :
    (size : ℕ) (bs : List Buf) (g : Globals)
    → (w : ℕ) × ((g' : Globals) → all_todo size bs g' ≡ w + 3 * (size - g'.off))
todo_split size [] g = (0, λ g'. omega arith)
todo_split size (b ∷ bs) g =
    let (w, all) = todo_split size bs g in (weight b.op + w, λ g'. omega (arith, all g'))

in_visit : {A B C D : Type 0} → A ⊎ (B ⊎ C) ⊎ D → (A ⊎ C) ⊎ B ⊎ D
in_visit (inl a) = inl (inl a)
in_visit (inr (inl (inl b))) = inr (inl b)
in_visit (inr (inl (inr c))) = inl (inr c)
in_visit (inr (inr d)) = inr (inr d)

in_rest : {A B C D : Type 0} → (A ⊎ C) ⊎ B ⊎ D → (A ⊎ B) ⊎ C ⊎ D
in_rest (inl (inl a)) = inl (inl a)
in_rest (inl (inr c)) = inr (inl c)
in_rest (inr (inl b)) = inl (inr b)
in_rest (inr (inr d)) = inr (inr d)

in_all : {A B C D : Type 0} → (A ⊎ B) ⊎ C ⊎ D → A ⊎ (B ⊎ C) ⊎ D
in_all (inl (inl a)) = inl a
in_all (inl (inr b)) = inr (inl (inl b))
in_all (inr (inl c)) = inr (inl (inr c))
in_all (inr (inr d)) = inr (inr d)

module _ (infile : List ℕ) (answers : ℕ → Buf → Visit) (others : ℕ → Type 0) (i : ℕ) (b b' : Buf)
    (bs bs' : List Buf) (g g1 g2 : Globals) where
  -- A look at the first buffer, and then at the others.
  pass_less :
      all_todo (length infile) bs' g2 ≤ all_todo (length infile) bs g1
      → todo (length infile) b' g1 < todo (length infile) b g
      → all_todo (length infile) (b' ∷ bs') g2 < all_todo (length infile) (b ∷ bs) g
  pass_less h h' =
      let (w, all) = todo_split (length infile) bs g in omega (arith, all g, all g1, h, h')

  pass_no_more :
      all_todo (length infile) bs' g2 ≤ all_todo (length infile) bs g1
      → todo (length infile) b' g1 ≤ todo (length infile) b g
      → all_todo (length infile) (b' ∷ bs') g2 ≤ all_todo (length infile) (b ∷ bs) g
  pass_no_more h h' =
      let (w, all) = todo_split (length infile) bs g in omega (arith, all g, all g1, h, h')

  rest_less :
      all_todo (length infile) bs' g2 < all_todo (length infile) bs g1
      → todo (length infile) b' g1 ≤ todo (length infile) b g
      → all_todo (length infile) (b' ∷ bs') g2 < all_todo (length infile) (b ∷ bs) g
  rest_less h h' =
      let (w, all) = todo_split (length infile) bs g in omega (arith, all g, all g1, h, h')

  Visits-Passes :
      Visits infile (λ p. others p ⊎ Busy bs p) (answers i b) b g b' g1
      → Passes infile (λ p. others p ⊎ InRange b' p) answers (suc i) bs g1 bs' g2
      → Passes infile others answers i (b ∷ bs) g (b' ∷ bs') g2
  Visits-Passes one rest = record {
    bufs_ok = (one.buf_ok, rest.bufs_ok);
    accounted = λ p. in_all (rest.accounted p);
    nothing = rest.nothing;
    numbers = omega (arith, one.numbers, rest.numbers);
    same_length = ap suc rest.same_length;
    no_more = pass_no_more rest.no_more one.no_more;
    stirred = λ s. elim s [
      | inl moved ↦ pass_less rest.no_more (one.less (inr moved))
      | inr later ↦ rest_less (rest.stirred later) one.no_more
    ];
    active = λ s. elim s [
      | inl moves ↦ pass_less rest.no_more (one.less moves)
      | inr later ↦ rest_less (rest.stirred later) one.no_more
    ];
  }

pass-visit :
    (answers : ℕ → Buf → Visit) (size i : ℕ) (b : Buf) (bs : List Buf) (g : Globals) {b' : Buf}
    {bs' : List Buf} {g1 g2 : Globals}
    → visit size (answers i b) b g ≡ some (b', g1)
    → pass answers size (suc i) bs g1 ≡ some (bs', g2)
    → pass answers size i (b ∷ bs) g ≡ some (b' ∷ bs', g2)
unfolding pass
pass-visit answers size i b bs g run runs = rw (pass, run) (rw runs)

pub pass-Goes :
    (infile : List ℕ) (answers : ℕ → Buf → Visit) (i : ℕ) (bs : List Buf) (others : ℕ → Type 0)
    (g : Globals)
    → AllOk infile bs
    → AllAccounted infile others bs g
    → NothingBehind infile g
    → AllWork infile answers i bs
    → pending bs ≤ g.numop
    → PassGoes infile others answers i bs g (pass answers (length infile) i bs g)
unfolding pass
pass-Goes infile answers i [] others g ok acc beh works h = (
  [],
  g,
  refl,
  record {
    bufs_ok = tt;
    accounted = acc;
    nothing = beh;
    numbers = refl;
    same_length = refl;
    no_more = omega arith;
    stirred = λ x. absurd x;
    active = λ x. absurd x;
  },
)
pass-Goes infile answers i (b ∷ bs) others g (ok, oks) acc beh (w, works) h =
    let (b', g1, run, one) =
      visit-Goes infile (λ p. others p ⊎ Busy bs p) (answers i b) b g ok (λ p. in_visit (acc p)) beh
        w (omega arith) in
    let (bs', g2, runs, rest) =
      pass-Goes infile answers (suc i) bs (λ p. others p ⊎ InRange b' p) g1 oks
        (λ p. in_rest (one.accounted p)) one.nothing works (omega (arith, one.numbers)) in
    (
      b' ∷ bs',
      g2,
      pass-visit answers (length infile) i b bs g run runs,
      Visits-Passes infile answers others i b b' bs bs' g g1 g2 one rest,
    )
