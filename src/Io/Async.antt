-- ===== src/Io/Async.antt =====
-- The converter of my-src/Chapter-14/14-21.c, which keeps eight reads and writes going at a time.
pub mod Buffer
pub mod Round
pub mod Total
mod Tests
use my_apue.Prelude.{
  ℕ, zero, suc, ◌+◌, ◌-◌, ◌%◌, ◌^◌, Option, none, some, Bool, true, false, not, ◌&&◌, List, [], ◌∷◌,
  map, ltb, leb, ◌==◌, if◌then◌else◌, length, take, get_elem?, replicate,
}

abbrev pub bsz : ℕ
bsz = 4096

abbrev pub nbuf : ℕ
nbuf = 8

pub data Rwop : Type 0 where
  unused read_pending write_pending : Rwop

-- `aio_offset`, `aio_nbytes` and `data` of the control block, and whether `aiolist` has it.
pub record Buf : Type 0 where
  pub op : Rwop
  pub last : Bool
  pub aio_offset : ℕ
  pub aio_nbytes : ℕ
  pub contents : List ℕ
  pub listed : Bool

-- `off`, `numop`, and the output file: the byte at a position, if it has been written.
pub record Globals : Type 0 where
  pub off : ℕ
  pub numop : ℕ
  pub out : ℕ → Option ℕ

-- On an `unsigned char`; a line feed stays.
unfoldable pub translate : ℕ → ℕ
translate c =
    if leb 110 c
    then (c + 2 ^ 8 - 13) % 2 ^ 8
    else (if leb 97 c
        then (c + 13) % 2 ^ 8
        else (if leb 78 c
            then (c + 2 ^ 8 - 13) % 2 ^ 8
            else (if c == 10 then c else (c + 13) % 2 ^ 8)))

-- What `aio_error` and `aio_return` say of an operation.
pub data Completion : Type 0 where
  in_progress : Completion
  failed : Completion
  finished : ℕ → Completion

-- The kernel's answers while the loop looks at one buffer: how its operation stands, the bytes that a
-- read has put into it, and whether `aio_read` or `aio_write` takes the next operation.
pub record Visit : Type 0 where
  pub completion : Completion
  pub bytes : List ℕ
  pub accepted : Bool

abbrev pub Visited : Type 0
Visited = Option (Buf × Globals)

-- A free buffer starts to read, if anything is left.
abbrev pub visit_unused : ℕ → Bool → Buf → Globals → Visited
visit_unused size accepted b g =
    let off' = g.off + bsz in
    if ltb g.off size
    then (if accepted
        then some (
          record b {
            op = read_pending;
            aio_offset = g.off;
            aio_nbytes = bsz;
            listed = true;
            last = if leb size off' then true else b.last;
          },
          record g { off = off'; numop = g.numop + 1 },
        )
        else none)
    else some (b, g)

-- A read that is over is translated and written at the same offset.
abbrev pub visit_read : Completion → List ℕ → Bool → Buf → Globals → Visited
visit_read in_progress bytes accepted b g = some (b, g)
visit_read failed bytes accepted b g = none
visit_read (finished n) bytes accepted b g =
    if not (n == bsz) && not b.last
    then none
    else (if accepted
        then some (
          record b { op = write_pending; aio_nbytes = n; contents = map translate (take n bytes) },
          g,
        )
        else none)

-- `n` bytes at an offset of the output file.
abbrev pub written : ℕ → ℕ → List ℕ → (ℕ → Option ℕ) → ℕ → Option ℕ
written offset n bytes out p =
    if leb offset p && ltb p (offset + n) then get_elem? bytes (p - offset) else out p

-- A write that is over leaves the buffer free.
abbrev pub visit_write : Completion → Buf → Globals → Visited
visit_write in_progress b g = some (b, g)
visit_write failed b g = none
visit_write (finished n) b g =
    if n == b.aio_nbytes
    then some (
      record b { op = unused; listed = false },
      record g { numop = g.numop - 1; out = written b.aio_offset n b.contents g.out },
    )
    else none

-- The `switch`; `none` is the end of the process by an error.
abbrev pub visit_op : Rwop → ℕ → Visit → Buf → Globals → Visited
visit_op unused size v b g = visit_unused size v.accepted b g
visit_op read_pending size v b g = visit_read v.completion v.bytes v.accepted b g
visit_op write_pending size v b g = visit_write v.completion b g

unfoldable pub visit : ℕ → Visit → Buf → Globals → Visited
unfolding translate
visit size v b g = visit_op b.op size v b g

-- The loop over the buffers, from number `i` on.
unfoldable pub pass : (ℕ → Buf → Visit) → ℕ → ℕ → List Buf → Globals → Option (List Buf × Globals)
unfolding visit
pass answers size i [] g = some ([], g)
pass answers size i (b ∷ bs) g = elim (visit size (answers i b) b g) [
  | none ↦ none
  | some (b', g') ↦ elim (pass answers size (suc i) bs g') [
    | none ↦ none
    | some (bs', g'') ↦ some (b' ∷ bs', g'')
  ]
]

-- `exit(0)`, an end by an error, or rounds that go on.
pub data Ended : Type 0 where
  exited : Globals → Ended
  errored : Ended
  going : Ended

-- The kernel through all rounds: its answers by the number of the round and the buffers at its start,
-- and what `aio_suspend` returns at its end.
pub record Kernel : Type 0 where
  pub answers : ℕ → List Buf → ℕ → Buf → Visit
  pub suspend_ok : ℕ → Bool

unfoldable pub main_loop : Kernel → ℕ → ℕ → ℕ → List Buf → Globals → Ended
unfolding pass
main_loop kernel size zero r bufs g = going
main_loop kernel size (suc fuel) r bufs g = elim (pass (kernel.answers r bufs) size 0 bufs g) [
  | none ↦ errored
  | some (bufs', g') ↦
      let later = main_loop kernel size fuel (suc r) bufs' g' in
      if g'.numop == 0
      then (if leb size g'.off then exited g' else later)
      else (if kernel.suspend_ok r then later else errored)
]

abbrev pub empty_buf : Buf
empty_buf = record {
  op = unused;
  last = false;
  aio_offset = 0;
  aio_nbytes = 0;
  contents = [];
  listed = false;
}

abbrev pub started : Globals
started = record { off = 0; numop = 0; out = λ p. none }

-- `main` once both files are open; `size` is the length of the input file.
unfoldable pub convert_async : Kernel → ℕ → ℕ → Ended
unfolding main_loop
convert_async kernel size fuel = main_loop kernel size fuel 0 (replicate nbuf empty_buf) started
