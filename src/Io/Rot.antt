-- ===== src/Io/Rot.antt =====
-- The file converter of my-src/Chapter-14/14-20.c.
pub mod Letters
pub mod Laws
mod Tests
use my_apue.Prelude.{
  ℕ, zero, suc, ◌+◌, ◌-◌, ◌%◌, ◌^◌, Option, none, some, Bool, true, false, List, [], ◌∷◌, ◌++◌, map,
  leb, ◌==◌, if◌then◌else◌, length,
}
use my_apue.Io.Full.{ReadCall, WriteCall}

-- On an `unsigned char`.
unfoldable pub translate : ℕ → ℕ
translate c =
    if leb 110 c
    then (c + 2 ^ 8 - 13) % 2 ^ 8
    else (if leb 97 c
        then (c + 13) % 2 ^ 8
        else (if leb 78 c then (c + 2 ^ 8 - 13) % 2 ^ 8 else (c + 13) % 2 ^ 8))

abbrev pub bsz : ℕ
bsz = 4096

-- How `main` ends: `exit(0)`, `err_sys` or `err_quit`, with the states of the two descriptors; or the
-- fuel is empty.
pub data Ended (R W : Type 0) : Type 0 where
  exited : R → W → Ended R W
  write_failed : R → W → Ended R W
  short_write : R → W → Ended R W
  unfinished : Ended R W

abbrev pub after_write : {R W : Type 0} → ℕ → R → (W → Ended R W) → Option ℕ × W → Ended R W
after_write n ifd later (none, ofd) = write_failed ifd ofd
after_write n ifd later (some nw, ofd) = if nw == n then later ofd else short_write ifd ofd

abbrev pub after_read :
    {R W : Type 0} → WriteCall W → W → (R → W → Ended R W) → Option (List ℕ) × R → Ended R W
after_read write ofd later (none, ifd) = exited ifd ofd
after_read write ofd later (some [], ifd) = exited ifd ofd
after_read write ofd later (some (c ∷ cs), ifd) =
    after_write (length (c ∷ cs)) ifd (later ifd) (write (map translate (c ∷ cs)) ofd)

-- The loop of `main`; each round reads a byte at least, and so fuel above the length of the file is
-- enough.
unfoldable pub convert : {R W : Type 0} → ReadCall R → WriteCall W → ℕ → R → W → Ended R W
unfolding translate
convert read write zero ifd ofd = unfinished
convert read write (suc fuel) ifd ofd =
    after_read write ofd (λ ifd' ofd'. convert read write fuel ifd' ofd') (read bsz ifd)

-- The loop once both files are open.
abbrev pub on_files :
    {R W : Type 0} → (R → W → Ended R W) → Option R → Option W → Option (Ended R W)
on_files loop none ofd = none
on_files loop (some ifd) none = none
on_files loop (some ifd) (some ofd) = some (loop ifd ofd)

-- `main` with `argc` arguments and what the two calls of `open` give; none is an `err_quit` or `err_sys` before
-- the loop.
unfoldable pub rot_main :
    {R W : Type 0} → ReadCall R → WriteCall W → ℕ → ℕ → Option R → Option W → Option (Ended R W)
rot_main read write fuel argc ifd ofd =
    if argc == 3 then on_files (convert read write fuel) ifd ofd else none
