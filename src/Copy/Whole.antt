-- ===== src/Copy/Whole.antt =====
-- What the copy of my-src/Chapter-14/14-27.c leaves.
use mathlib.Core.Path.{subst}
use mathlib.Core.List.{append-nil, append_assoc}
use my_apue.Prelude.{
  drop-append, take-append, ℕ, zero, suc, ◌+◌, ◌-◌, ◌*◌, ◌≤◌, ◌<◌, ◌≡◌, refl, sym, ap, ◌∙◌, ◌⊎◌,
  inl, inr, true, false, ◌&&◌, List, [], ◌∷◌, ◌++◌, ltb, length, length-append, length-take,
  length-drop, take, drop, take-append-drop, replicate, arith, Bool-cases,
}
use my_apue.Copy.{Calls, copyincr, Copied, exits, write_at, after_map, copy_loop, copy_main}
use my_apue.Copy.Parts.{write_at-append, next_size, next_size-le, next_size-positive}

-- A map of at most `incr` bytes, none of them behind the end, at a multiple of `incr`.
abbrev pub Fits : ℕ → ℕ → ℕ × ℕ → Type 0
Fits incr size (offset, n) =
    (0 < n) × (n ≤ incr) × (offset + n ≤ size) × ((k : ℕ) × (offset ≡ k * incr))

abbrev pub AllFit : ℕ → ℕ → List (ℕ × ℕ) → Type 0
AllFit incr size [] = Unit {0}
AllFit incr size (m ∷ maps) = Fits incr size m × AllFit incr size maps

-- A part of the file copied, with zeros behind it.
abbrev pub part : ℕ → List ℕ → List ℕ
part k input = take k input ++ replicate (length input - k) 0

-- The whole file copied, when no map fails; or a part of it, up to the map that fails.
abbrev pub Copies : ℕ → Calls → List ℕ → Copied → Type 0
Copies incr c input r =
    (maps : List (ℕ × ℕ)) × AllFit incr (length input) maps
    × ((r ≡ exits 0 input maps)
        ⊎ ((k : ℕ) × (k < length input)
            × ((c.map_in k && c.map_out k) ≡ false)
            × (r ≡ exits 1 (part k input) maps)))

module _ {incr : ℕ} (positive : 0 < incr) (c : Calls) (input : List ℕ) where
  -- Where a loop is that has copied `front` and not yet `rest`.
  record At (front rest : List ℕ) : Type 0 where
    whole : input ≡ front ++ rest
    aligned : (length rest ≡ 0) ⊎ ((k : ℕ) × (length front ≡ k * incr))

  left : {front rest : List ℕ} → At front rest → length input - length front ≡ length rest
  left {front} {rest} a =
      let size = ap length a.whole ∙ length-append front rest in omega (arith, size)

  -- One turn of the loop, but for the tests.
  turn :
      (fuel : ℕ) (front rest : List ℕ)
      → At front rest
      → let n = next_size incr (length input - length front) in
        copy_loop fuel incr c input (length front + n) (
          write_at
            (length front)
            (take n (drop (length front) input))
            (front ++ replicate (length rest) 0))
        ≡ (let m = next_size incr (length rest) in
            copy_loop fuel incr c input
              (length (front ++ take m rest))
              ((front ++ take m rest) ++ replicate (length (drop m rest)) 0))
  turn fuel front rest a =
      let m = next_size incr (length rest) in
      let (fits, _) = next_size-le incr (length rest) in
      let piece : drop (length front) input ≡ rest =
        ap (drop (length front)) a.whole ∙ drop-append front rest in
      let cut : length rest ≡ length (take m rest) + length (drop m rest) =
        omega (arith, length-take m rest, length-drop m rest, fits) in
      let here : length front + m ≡ length (front ++ take m rest) = sym (
        length-append front (take m rest)
        ∙ ap (λ n. length front + n) (omega (arith, length-take m rest, fits))) in
      let out = write_at-append front (take m rest) (length rest) (length (drop m rest)) cut in
      rw (left a, piece)
        (rw out (
          rw here (
            ap (copy_loop fuel incr c input (length (front ++ take m rest)))
              (sym (append_assoc front (take m rest) _)))))

  one_more :
      (front rest : List ℕ) (k : ℕ)
      → length front ≡ k * incr
      → incr < length rest
      → length (front ++ take incr rest) ≡ suc k * incr
  one_more front rest k e below =
      let len : length (front ++ take incr rest) ≡ length front + incr =
        length-append front (take incr rest) ∙ omega (arith, length-take incr rest, below) in
      len ∙ ap (λ n. n + incr) e ∙ grind arith

  next_aligned :
      (front rest : List ℕ)
      → (length rest ≡ 0) ⊎ ((k : ℕ) × (length front ≡ k * incr))
      → 0 < length rest
      → (length (drop (next_size incr (length rest)) rest) ≡ 0)
        ⊎ ((k : ℕ) × (length (front ++ take (next_size incr (length rest)) rest) ≡ k * incr))
  next_aligned front rest (inl e) more = absurd (omega (arith, e))
  next_aligned front rest (inr (k, e)) more = elim (Bool-cases (ltb incr (length rest))) [
    | inl longer ↦
        (let below : incr < length rest = ground arith in
          rw longer (inr (suc k, one_more front rest k e below)))
    | inr last ↦ rw last (inl (omega (arith, length-drop (length rest) rest)))
  ]

  next-At :
      {front rest : List ℕ}
      → At front rest
      → 0 < length rest
      → At
          (front ++ take (next_size incr (length rest)) rest)
          (drop (next_size incr (length rest)) rest)
  next-At {front} {rest} a more =
      let m = next_size incr (length rest) in
      record {
        whole =
            a.whole
            ∙ ap (λ xs. front ++ xs) (sym (take-append-drop m rest))
            ∙ sym (append_assoc front (take m rest) (drop m rest));
        aligned = next_aligned front rest a.aligned more;
      }

  part_here :
      {front rest : List ℕ}
      → At front rest
      → part (length front) input ≡ front ++ replicate (length rest) 0
  part_here {front} {rest} a = rw (left a) (
      ap (λ xs. xs ++ replicate (length rest) 0)
        (ap (take (length front)) a.whole ∙ take-append front rest))

  mapped :
      (m : ℕ × ℕ) (r : Copied)
      → Fits incr (length input) m
      → Copies incr c input r
      → Copies incr c input (after_map m r)
  mapped m r f (maps, fit, inl e) = (m ∷ maps, (f, fit), inl (ap (after_map m) e))
  mapped m r f (maps, fit, inr (k, low, fails, e)) =
      (m ∷ maps, (f, fit), inr (k, low, fails, ap (after_map m) e))

  next_size-Fits :
      (front rest : List ℕ)
      → At front rest
      → 0 < length rest
      → Fits incr (length input) (length front, next_size incr (length input - length front))
  next_size-Fits front rest a more =
      let size = ap length a.whole ∙ length-append front rest in
      let (within, small) = next_size-le incr (length input - length front) in
      (
        next_size-positive incr (length input - length front) positive (omega (arith, size)),
        small,
        omega (arith, within, size),
        elim a.aligned [ inl e ↦ absurd (omega (arith, e)) | inr at_multiple ↦ at_multiple ],
      )

  shorter :
      (fuel r : ℕ) (rest : List ℕ)
      → length (r ∷ rest) < suc fuel
      → length (drop (next_size incr (length (r ∷ rest))) (r ∷ rest)) < fuel
  shorter fuel r rest enough =
      let n = next_size incr (length (r ∷ rest)) in
      let some_bytes = next_size-positive incr (length (r ∷ rest)) positive (omega arith) in
      omega (arith, length-drop n (r ∷ rest), some_bytes)

  loop-Copies :
      (fuel : ℕ) (front rest : List ℕ)
      → At front rest
      → length rest < fuel
      → Copies incr c input
          (copy_loop fuel incr c input (length front) (front ++ replicate (length rest) 0))
  unfolding copy_loop
  loop-Copies zero front rest a enough = absurd (omega arith)
  loop-Copies (suc fuel) front [] a enough =
      let same : input ≡ front = a.whole ∙ append-nil front in
      let at_end : ltb (length front) (length input) ≡ false =
        (let size = ap length same in ground arith) in
      rw at_end ([], tt, inl (ap (λ xs. exits 0 xs []) (append-nil front ∙ sym same)))
  loop-Copies (suc fuel) front (r ∷ rest) a enough =
      let size = ap length a.whole ∙ length-append front (r ∷ rest) in
      let more : ltb (length front) (length input) ≡ true = ground arith in
      let n = next_size incr (length input - length front) in
      elim (Bool-cases (c.map_in (length front) && c.map_out (length front))) [
        | inl maps ↦
            rw (more, maps)
              (subst (λ run. Copies incr c input (after_map (length front, n) run))
                (sym (turn fuel front (r ∷ rest) a))
                (mapped (length front, n) _ (next_size-Fits front (r ∷ rest) a (omega arith))
                  (loop-Copies fuel (front ++ take (next_size incr (length (r ∷ rest))) (r ∷ rest))
                    (drop (next_size incr (length (r ∷ rest))) (r ∷ rest)) (next-At a (omega arith))
                    (shorter fuel r rest enough))))
        | inr fails ↦
            rw (more, fails)
              (
                [],
                tt,
                inr (
                  length front,
                  omega (arith, size),
                  fails,
                  ap (λ xs. exits 1 xs []) (sym (part_here a)),
                ),
              )
      ]

-- When the files open and the output has been cut to the length of the input, the copy with fuel above that
-- length ends: with 0, and the output is the input; or with 1 where a map fails, and the output is the input up
-- to there and zeros behind. Every map before has from 1 byte to COPYINCR bytes, all of them in the file, and
-- begins at a multiple of COPYINCR.
pub copy_main-Copies :
    (fuel : ℕ) (c : Calls) (input : List ℕ)
    → length input < fuel
    → (c.open_in && c.open_out) ≡ true
    → (c.fstat && c.ftruncate) ≡ true
    → Copies copyincr c input (copy_main fuel c input)
unfolding copy_main
copy_main-Copies fuel c input enough opens cuts =
    rw (opens, cuts)
      (loop-Copies (omega arith) c input fuel [] input
        (record { whole = refl; aligned = inr (0, refl) }) enough)
