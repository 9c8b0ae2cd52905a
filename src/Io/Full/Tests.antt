-- ===== src/Io/Full/Tests.antt =====
-- `readn` and `writen` of my-src/Chapter-14/14-24.c on a pipe that takes and gives two bytes at a
-- time.
use my_apue.Prelude.{
  ℕ, suc, ◌≤◌, ◌≡◌, refl, sym, ap, ◌∙◌, Option, none, some, List, [], ◌∷◌, ◌++◌, leb, if◌then◌else◌,
  arith, length, take, drop, length-take, take-append-drop,
}
use my_apue.Prelude.Int.{pos}
use my_apue.Io.Full.{readn_loop, readn, writen}
use my_apue.Io.Full.Reads.{Source, readn-Reads}
use my_apue.Io.Full.Reads
use my_apue.Io.Full.Writes.{Sink, writen-Writes}
use my_apue.Io.Full.Writes

abbrev pub chunk : ℕ → ℕ
chunk k = if leb k 2 then k else 2

chunk_le : (k : ℕ) → chunk k ≤ k
chunk_le k = ground arith

take_nothing : (k : ℕ) (cs : List ℕ) → length (take (chunk (suc k)) cs) ≡ 0 → cs ≡ []
take_nothing k [] e = refl
take_nothing k (c ∷ cs) e = absurd (ground (arith, length-take (chunk (suc k)) (c ∷ cs)))

abbrev pub pipe_read : ℕ → List ℕ → Option (List ℕ) × List ℕ
pipe_read k s = (some (take (chunk k) s), drop (chunk k) s)

pub pipe_delivers :
    (k : ℕ) (s s' bytes : List ℕ)
    → pipe_read k s ≡ (some bytes, s')
    → (s ≡ bytes ++ s') × (length bytes ≤ k)
pipe_delivers k s s' bytes e =
    let is : bytes ≡ take (chunk k) s = cc in
    let left : s' ≡ drop (chunk k) s = cc in
    rw (is, left)
      (sym (take-append-drop (chunk k) s), omega (arith, length-take (chunk k) s, chunk_le k))

pub pipe_at_end :
    (k : ℕ) (s s' bytes : List ℕ)
    → pipe_read (suc k) s ≡ (some bytes, s')
    → length bytes ≡ 0
    → s ≡ []
pipe_at_end k s s' bytes e h =
    let is : bytes ≡ take (chunk (suc k)) s = cc in take_nothing k s (ap length (sym is) ∙ h)

pub pipe_keeps : (k : ℕ) (s s' : List ℕ) → pipe_read k s ≡ (none, s') → s' ≡ s
pipe_keeps k s s' e = cc

abbrev pub pipe_source : Source (List ℕ)
pipe_source = record {
  read = pipe_read;
  content = λ s. s;
  delivers = pipe_delivers;
  at_end = pipe_at_end;
  keeps = pipe_keeps;
}

abbrev pipe_write : List ℕ → List ℕ → Option ℕ × List ℕ
pipe_write bytes s = (some (chunk (length bytes)), s ++ take (chunk (length bytes)) bytes)

pipe_takes :
    (bytes s s' : List ℕ) (k : ℕ)
    → pipe_write bytes s ≡ (some k, s')
    → (s' ≡ s ++ take k bytes) × (k ≤ length bytes)
pipe_takes bytes s s' k e =
    let is : k ≡ chunk (length bytes) = cc in
    let new : s' ≡ s ++ take (chunk (length bytes)) bytes = cc in
    rw (is, new) (refl, chunk_le (length bytes))

pipe_holds : (bytes s s' : List ℕ) → pipe_write bytes s ≡ (none, s') → s' ≡ s
pipe_holds bytes s s' e = cc

abbrev pipe_sink : Sink (List ℕ)
pipe_sink = record { write = pipe_write; content = λ s. s; takes = pipe_takes; keeps = pipe_holds }

abbrev five : List ℕ
five = 1 ∷ 2 ∷ 3 ∷ 4 ∷ 5 ∷ []

-- Three reads of two, two and one byte.
readn_result : readn pipe_read 5 five ≡ some (pos 5, five, [])
unfolding readn_loop readn
readn_result = refl

readn-Reads_example : Reads.Outcome pipe_source [] 4 five (readn pipe_read 4 five)
readn-Reads_example = readn-Reads pipe_source 4 five

writen-Writes_example : Writes.Outcome pipe_sink 5 five [] (writen pipe_write five [])
writen-Writes_example = writen-Writes pipe_sink five []
