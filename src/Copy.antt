-- ===== src/Copy.antt =====
-- The copy of a file through memory maps, my-src/Chapter-14/14-27.c.
pub mod Parts
pub mod Whole
mod Tests
use my_apue.Prelude.{
  ℕ, zero, suc, ◌+◌, ◌-◌, ◌*◌, Bool, true, false, ◌&&◌, List, [], ◌∷◌, ltb, if◌then◌else◌, length,
  take, drop, replicate,
}

-- `COPYINCR`
abbrev pub copyincr : ℕ
copyincr = 1024 * 1024 * 1024

-- Which calls succeed; `mmap` of either file is given by the offset.
pub record Calls : Type 0 where
  pub open_in : Bool
  pub open_out : Bool
  pub fstat : Bool
  pub ftruncate : Bool
  pub map_in : ℕ → Bool
  pub map_out : ℕ → Bool

-- The exit status, the output file where it has been made, and the offsets and sizes of the maps; or an empty fuel.
pub data Copied : Type 0 where
  exits : ℕ → List ℕ → List (ℕ × ℕ) → Copied
  not_made : Copied
  out_of_fuel : Copied

-- `memcpy` onto the front of a map of the output file.
abbrev pub overlay : List ℕ → List ℕ → List ℕ
overlay [] out = out
overlay (c ∷ cs) [] = []
overlay (c ∷ cs) (o ∷ out) = c ∷ overlay cs out

-- The same with the map at an offset.
unfoldable pub write_at : ℕ → List ℕ → List ℕ → List ℕ
write_at zero cs out = overlay cs out
write_at (suc k) cs [] = []
write_at (suc k) cs (o ∷ out) = o ∷ write_at k cs out

abbrev pub after_map : ℕ × ℕ → Copied → Copied
after_map m (exits n out maps) = exits n out (m ∷ maps)
after_map m not_made = not_made
after_map m out_of_fuel = out_of_fuel

-- The loop, with `incr` for COPYINCR.
unfoldable pub copy_loop : ℕ → ℕ → Calls → List ℕ → ℕ → List ℕ → Copied
copy_loop zero incr c input fsz out = out_of_fuel
copy_loop (suc fuel) incr c input fsz out =
    let copysz = if ltb incr (length input - fsz) then incr else length input - fsz in
    let rest =
      copy_loop fuel incr c input (fsz + copysz)
        (write_at fsz (take copysz (drop fsz input)) out) in
    if ltb fsz (length input)
    then (if c.map_in fsz && c.map_out fsz then after_map (fsz, copysz) rest else exits 1 out [])
    else exits 0 out []

-- `main`; the output file is cut to nothing and then as long as the input, with zeros.
unfoldable pub copy_main : ℕ → Calls → List ℕ → Copied
copy_main fuel c input =
    let run = copy_loop fuel copyincr c input 0 (replicate (length input) 0) in
    if c.open_in && c.open_out
    then (if c.fstat && c.ftruncate then run else exits 1 [] [])
    else not_made
