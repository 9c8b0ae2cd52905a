-- ===== src/Tell.antt =====
-- `TELL_WAIT` and its kin over two pipes, my-src/Chapter-15/15-7.c.
pub mod Counts
mod Tests
use my_apue.Prelude.{ℕ, Bool, true, false, List, [], ◌∷◌, ◌++◌, ◌==◌, if◌then◌else◌}

-- The bytes in the pipe to the child, `pfd1`, and in the pipe to the parent, `pfd2`.
pub record Pipes : Type 0 where
  pub pfd1 : List ℕ
  pub pfd2 : List ℕ

-- A call by the child (`tell_parent`, `wait_parent`) or by the parent; the Boolean tells whether its
-- `write` or `read` succeeds.
pub data Call : Type 0 where
  tell_parent wait_parent tell_child wait_child : Bool → Call

-- A call returns, is still in its `read`, or ends its process by `err_sys` or by "incorrect data".
pub data Ran (S : Type 0) : Type 0 where
  went : S → Ran S
  waits : Ran S
  failed : Ran S
  incorrect : Ran S

-- The bytes "p" and "c".
abbrev pub p_byte : ℕ
p_byte = 112

abbrev pub c_byte : ℕ
c_byte = 99

-- Both pipes are empty after `TELL_WAIT`, unless a `pipe` fails.
abbrev pub tell_wait : Bool → Bool → Ran Pipes
tell_wait first second =
    if first then (if second then went (record { pfd1 = []; pfd2 = [] }) else failed) else failed

-- A `read` of one byte from a pipe, and what its test leaves. It may fail while it waits, as when a signal comes.
abbrev pub read_byte : ℕ → Bool → (List ℕ → Pipes) → List ℕ → Ran Pipes
read_byte expected ok left [] = if ok then waits else failed
read_byte expected ok left (c ∷ cs) =
    if ok then (if c == expected then went (left cs) else incorrect) else failed

unfoldable pub call : Call → Pipes → Ran Pipes
call (tell_parent ok) s = if ok then went (record s { pfd2 = s.pfd2 ++ c_byte ∷ [] }) else failed
call (wait_parent ok) s = read_byte p_byte ok (λ cs. record s { pfd1 = cs }) s.pfd1
call (tell_child ok) s = if ok then went (record s { pfd1 = s.pfd1 ++ p_byte ∷ [] }) else failed
call (wait_child ok) s = read_byte c_byte ok (λ cs. record s { pfd2 = cs }) s.pfd2

-- Calls of the two processes in the order in which they return, up to the first that does not.
unfoldable pub calls : List Call → Pipes → Ran Pipes
unfolding call
calls [] s = went s
calls (c ∷ cs) s = elim (call c s) [
  | went s' ↦ calls cs s'
  | waits ↦ waits
  | failed ↦ failed
  | incorrect ↦ incorrect
]
