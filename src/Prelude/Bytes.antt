-- ===== src/Prelude/Bytes.antt =====
-- Strings of bytes, without their final null byte.
use Prim.Native.Nat.{ℕ, zero, suc}
use mathlib.Core.Path.{◌≡◌, refl}
use mathlib.Core.Bool.{Bool, true, false, ◌&&◌}
use mathlib.Core.List.{List, [], ◌∷◌}
use native.Mathlib.Omega.{arith}
use my_apue.Prelude.Tests.{◌==◌, if◌then◌else◌}

-- `strcmp` of two strings is 0.
unfoldable pub same_bytes : List ℕ → List ℕ → Bool
same_bytes [] [] = true
same_bytes [] (d ∷ ds) = false
same_bytes (c ∷ cs) [] = false
same_bytes (c ∷ cs) (d ∷ ds) = c == d && same_bytes cs ds

pub same_bytes_refl : (cs : List ℕ) → same_bytes cs cs ≡ true
unfolding same_bytes
same_bytes_refl [] = refl
same_bytes_refl (c ∷ cs) = let same : (c == c) ≡ true = ground arith in rw same (same_bytes_refl cs)

pub same_bytes-eq : (cs ds : List ℕ) → same_bytes cs ds ≡ true → cs ≡ ds
unfolding same_bytes
same_bytes-eq [] [] e = refl
same_bytes-eq [] (d ∷ ds) e = cc
same_bytes-eq (c ∷ cs) [] e = cc
same_bytes-eq (c ∷ cs) (d ∷ ds) e =
    let first : c ≡ d = ground arith in
    let rest : same_bytes cs ds ≡ true = ground arith in rw (first, same_bytes-eq cs ds rest)

-- The byte at an index, 0 behind the end.
abbrev pub byte_at : List ℕ → ℕ → ℕ
byte_at [] i = 0
byte_at (c ∷ cs) zero = c
byte_at (c ∷ cs) (suc i) = byte_at cs i

-- The string in a buffer: the bytes before the first null byte.
unfoldable pub c_string : List ℕ → List ℕ
c_string [] = []
c_string (c ∷ cs) = let front = c_string cs in if c == 0 then [] else c ∷ front
