-- ===== src/Copy/Tests.antt =====
-- Runs of the copy of my-src/Chapter-14/14-27.c.
use my_apue.Prelude.{ℕ, ◌≡◌, refl, true, List, [], ◌∷◌, ltb, arith}
use my_apue.Copy.{Calls, copyincr, exits, copy_loop, copy_main, write_at}
use my_apue.Copy.Whole.{Copies, copy_main-Copies}

abbrev input : List ℕ
input = 104 ∷ 101 ∷ 108 ∷ 108 ∷ 111 ∷ []

-- Every call succeeds, but the output cannot be mapped from the offset on.
abbrev full_from : ℕ → Calls
full_from limit = record {
  open_in = true;
  open_out = true;
  fstat = true;
  ftruncate = true;
  map_in = λ offset. true;
  map_out = λ offset. ltb offset limit;
}

-- Three maps for five bytes, two at a time.
three_maps :
    copy_loop 6 2 (full_from 9) input 0 (0 ∷ 0 ∷ 0 ∷ 0 ∷ 0 ∷ [])
    ≡ exits 0 input ((0, 2) ∷ (2, 2) ∷ (4, 1) ∷ [])
unfolding copy_loop write_at
three_maps = refl

-- The second map fails: the rest of the output stays zero.
second_fails :
    copy_loop 6 2 (full_from 1) input 0 (0 ∷ 0 ∷ 0 ∷ 0 ∷ 0 ∷ [])
    ≡ exits 1 (104 ∷ 101 ∷ 0 ∷ 0 ∷ 0 ∷ []) ((0, 2) ∷ [])
unfolding copy_loop write_at
second_fails = refl

-- Without a map an empty file is copied.
empty_file : copy_main 1 (full_from 0) [] ≡ exits 0 [] []
unfolding copy_main copy_loop write_at
empty_file = refl

copy_main-Copies_example : Copies copyincr (full_from 9) input (copy_main 6 (full_from 9) input)
copy_main-Copies_example = copy_main-Copies 6 (full_from 9) input (omega arith) refl refl
