-- ===== src/Io/Async/Total.antt =====
-- The whole of the converter of my-src/Chapter-14/14-21.c.
use mathlib.Core.Path.{subst}
use my_apue.Prelude.{
  ℕ, zero, suc, ◌-◌, ◌*◌, ◌<◌, ◌≤◌, ◌≡◌, refl, sym, ◌∙◌, ◌≢◌, ◌⊎◌, inl, inr, some, true, List, [],
  ◌∷◌, leb, ◌==◌, if◌then◌else◌, arith, length, replicate, Bool-cases,
}
use my_apue.Io.Async.{
  nbuf, Rwop, unused, read_pending, write_pending, Buf, Globals, pass, Ended, exited, Kernel,
  main_loop, empty_buf, started, convert_async,
}
use my_apue.Io.Async.Buffer.{is_pending, goal_list, NothingBehind, weight, pend, goal_behind}
use my_apue.Io.Async.Round.{
  AllOk, AllWork, Busy, pending, all_todo, Stirs, Active, Passes, pass-Goes,
}

-- What the kernel promises of a run: it keeps its promises to each buffer, `aio_suspend` does not
-- fail, and when operations go on, one of them is over at the next look.
pub record Serves (infile : List ℕ) (kernel : Kernel) : Type 0 where
  pub works : (r : ℕ) (bs : List Buf) → AllWork infile (kernel.answers r bs) 0 bs
  pub suspends : (r : ℕ) → kernel.suspend_ok r ≡ true
  pub wakes : (r : ℕ) (bs : List Buf) → pending bs ≢ 0 → Stirs (kernel.answers r bs) 0 bs

-- What holds between two rounds.
pub record Between (infile : List ℕ) (bs : List Buf) (g : Globals) : Type 0 where
  pub bufs_ok : AllOk infile bs
  pub accounted : (p : ℕ) → Busy bs p ⊎ (g.off ≤ p) ⊎ (g.out p ≡ goal_list infile p)
  pub nothing : NothingBehind infile g
  pub numbers : g.numop ≡ pending bs
  pub some_buf : 0 < length bs

-- A run that has converted the file.
abbrev pub Converted : List ℕ → Ended → Type 0
Converted infile out = (g : Globals) × (out ≡ exited g) × ((p : ℕ) → g.out p ≡ goal_list infile p)

pend_busy : (op : Rwop) → is_pending op ≡ true → pend op ≡ 1
pend_busy unused e = cc
pend_busy read_pending e = refl
pend_busy write_pending e = refl

pend_free : (op : Rwop) → pend op ≡ 0 → (op ≡ unused) × (weight op ≡ 0)
pend_free unused e = (refl, refl)
pend_free read_pending e = absurd (omega arith)
pend_free write_pending e = absurd (omega arith)

pend_le : (op : Rwop) → pend op ≤ weight op
pend_le unused = omega arith
pend_le read_pending = omega arith
pend_le write_pending = omega arith

todo_bounds :
    (size : ℕ) (bs : List Buf) (g : Globals)
    → (pending bs ≤ all_todo size bs g) × (size - g.off ≤ all_todo size bs g)
todo_bounds size [] g = (omega arith, omega arith)
todo_bounds size (b ∷ bs) g =
    let (h, h') = todo_bounds size bs g in (omega (arith, h, pend_le b.op), omega (arith, h'))

idle_todo :
    (size : ℕ) (bs : List Buf) (g : Globals)
    → pending bs ≡ 0
    → all_todo size bs g ≡ 3 * (size - g.off)
idle_todo size [] g e = refl
idle_todo size (b ∷ bs) g e =
    let (_, free) = pend_free b.op (omega arith) in
    omega (arith, free, idle_todo size bs g (omega arith))

not-Busy : (bs : List Buf) (p : ℕ) → pending bs ≡ 0 → Busy bs p → ⊥
not-Busy [] p e busy = busy
not-Busy (b ∷ bs) p e (inl (busy, _, _)) = omega (arith, pend_busy b.op busy)
not-Busy (b ∷ bs) p e (inr busy) = not-Busy bs p (omega arith) busy

module _ (infile : List ℕ) where
  -- With nothing pending and nothing left to read, all is written.
  Between-done :
      (bs : List Buf) (g : Globals)
      → Between infile bs g
      → g.numop ≡ 0
      → length infile ≤ g.off
      → (p : ℕ) → g.out p ≡ goal_list infile p
  Between-done bs g w idle over p = elim (w.accounted p) [
    | inl busy ↦ absurd (not-Busy bs p (omega (arith, w.numbers)) busy)
    | inr (inl behind) ↦
        let beyond : length infile ≤ p = omega arith in
        w.nothing p beyond ∙ sym (goal_behind infile p beyond)
    | inr (inr done) ↦ done
  ]

  not_nothing : {A : Type 0} → ⊥ ⊎ A → A
  not_nothing (inl x) = absurd x
  not_nothing (inr a) = a

  idle-Active :
      (kernel : Kernel) (r : ℕ) (bs : List Buf) (g : Globals)
      → 0 < length bs
      → pending bs ≡ 0
      → g.off < length infile
      → Active (length infile) (kernel.answers r bs) 0 bs g
  idle-Active kernel r [] g some_buf idle more = omega arith
  idle-Active kernel r (b ∷ bs) g some_buf idle more =
      inl (inl ((pend_free b.op (omega arith)).0, more))

  module _ (kernel : Kernel) (serves : Serves infile kernel) where
    -- A round leaves less to do, unless there was nothing.
    round_less :
        (r : ℕ) (bs bs' : List Buf) (g g' : Globals)
        → 0 < length bs
        → Passes infile (λ p. ⊥) (kernel.answers r bs) 0 bs g bs' g'
        → all_todo (length infile) bs g ≢ 0
        → all_todo (length infile) bs' g' < all_todo (length infile) bs g
    round_less r bs bs' g g' some_buf passes some_todo = elim (Bool-cases (pending bs == 0)) [
      | inl idle ↦
          let more : g.off < length infile =
            omega (arith, idle_todo (length infile) bs g (ground arith), some_todo) in
          passes.active (idle-Active kernel r bs g some_buf (ground arith) more)
      | inr busy ↦ passes.stirred (serves.wakes r bs (ground arith))
    ]

    Passes-Between :
        (r : ℕ) (bs bs' : List Buf) (g g' : Globals)
        → Between infile bs g
        → Passes infile (λ p. ⊥) (kernel.answers r bs) 0 bs g bs' g'
        → Between infile bs' g'
    Passes-Between r bs bs' g g' w passes = record {
      bufs_ok = passes.bufs_ok;
      accounted = λ p. not_nothing (passes.accounted p);
      nothing = passes.nothing;
      numbers = omega (arith, passes.numbers, w.numbers);
      some_buf = omega (arith, passes.same_length, w.some_buf);
    }

    round :
        (r : ℕ) (bs : List Buf) (g : Globals)
        → Between infile bs g
        → (bs' : List Buf) × (g' : Globals) × (pass (kernel.answers r bs) (length infile) 0 bs g
            ≡ some (bs', g'))
          × Passes infile (λ p. ⊥) (kernel.answers r bs) 0 bs g bs' g'
    round r bs g w =
        pass-Goes infile (kernel.answers r bs) 0 bs (λ p. ⊥) g w.bufs_ok (λ p. inr (w.accounted p))
          w.nothing (serves.works r bs) (omega (arith, w.numbers))

    goes_on :
        (fuel r : ℕ) (bs bs' : List Buf) (g g' : Globals)
        → 0 < length bs
        → Passes infile (λ p. ⊥) (kernel.answers r bs) 0 bs g bs' g'
        → all_todo (length infile) bs g < suc fuel
        → all_todo (length infile) bs' g' ≢ 0
        → all_todo (length infile) bs' g' < fuel
    goes_on fuel r bs bs' g g' some_buf passes h more =
        let less =
          round_less r bs bs' g g' some_buf passes (λ e. more (omega (arith, passes.no_more, e))) in
        omega (arith, h, less)

    main_loop-pass :
        (fuel r : ℕ) (bs : List Buf) (g : Globals) {bs' : List Buf} {g' : Globals}
        → pass (kernel.answers r bs) (length infile) 0 bs g ≡ some (bs', g')
        → main_loop kernel (length infile) (suc fuel) r bs g ≡ (
            if g'.numop == 0
            then (if leb (length infile) g'.off
                then exited g'
                else main_loop kernel (length infile) fuel (suc r) bs' g')
            else main_loop kernel (length infile) fuel (suc r) bs' g')
    unfolding main_loop
    main_loop-pass fuel r bs g e = rw (main_loop, e) (rw (serves.suspends r))

    main_loop-Converted :
        (fuel r : ℕ) (bs : List Buf) (g : Globals)
        → Between infile bs g
        → all_todo (length infile) bs g < fuel
        → Converted infile (main_loop kernel (length infile) fuel r bs g)
    main_loop-Converted zero r bs g w h = absurd (omega arith)
    main_loop-Converted (suc fuel) r bs g w h =
        let (bs', g', run, passes) = round r bs g w in
        let w' = Passes-Between r bs bs' g g' w passes in
        subst (Converted infile) (sym (main_loop-pass fuel r bs g run))
          (elim (Bool-cases (g'.numop == 0)) [
            | inl idle ↦ rw idle (elim (Bool-cases (leb (length infile) g'.off)) [
              | inl over ↦ rw over (g', refl, Between-done bs' g' w' (ground arith) (ground arith))
              | inr more ↦ rw more (
                  main_loop-Converted fuel (suc r) bs' g' w' (
                    goes_on fuel r bs bs' g g' w.some_buf passes h
                      (λ z. ground (arith, todo_bounds (length infile) bs' g', z, more))))
            ])
            | inr busy ↦ rw busy (
                main_loop-Converted fuel (suc r) bs' g' w' (
                  goes_on fuel r bs bs' g g' w.some_buf passes h
                    (λ z. ground (arith, todo_bounds (length infile) bs' g', w'.numbers, z, busy))))
          ])

AllOk-replicate : (infile : List ℕ) (n : ℕ) → AllOk infile (replicate n empty_buf)
AllOk-replicate infile zero = tt
AllOk-replicate infile (suc n) =
    (record { full = λ x. cc; translated = λ x. cc; counted = λ x. cc }, AllOk-replicate infile n)

-- The converter on a file of any length, with a kernel that keeps its promises, in whatever order the
-- operations are over: it comes to `exit(0)` within three rounds for each byte and one more, and every
-- position of the output has the translated byte of the input, or none behind its end.
pub convert_async-Converted :
    (infile : List ℕ) (kernel : Kernel) (fuel : ℕ)
    → Serves infile kernel
    → 3 * length infile < fuel
    → Converted infile (convert_async kernel (length infile) fuel)
unfolding convert_async
convert_async-Converted infile kernel fuel serves h =
    main_loop-Converted infile kernel serves fuel 0 (replicate nbuf empty_buf) started
      (record {
        bufs_ok = AllOk-replicate infile nbuf;
        accounted = λ p. inr (inl (omega arith));
        nothing = λ p x. refl;
        numbers = refl;
        some_buf = omega arith;
      })
      (omega (arith, idle_todo (length infile) (replicate nbuf empty_buf) started refl))
