-- ===== src/Io/Async/Buffer.antt =====
-- One look of the converter of my-src/Chapter-14/14-21.c at one buffer.
use Prim.Native.Nat.{min}
use my_apue.Prelude.{
  ℕ, zero, suc, ◌+◌, ◌-◌, ◌*◌, ◌<◌, ◌≤◌, ◌≡◌, refl, sym, ap, ◌∙◌, ◌≢◌, ◌⊎◌, inl, inr, Option, none,
  Bool, true, false, ◌&&◌, List, [], ◌∷◌, map, ltb, leb, if◌then◌else◌, arith, length, take, drop,
  get_elem?, length-take, length-drop, length-map, get_behind, Bool-cases,
}
use my_apue.Io.Async.{
  bsz, Rwop, unused, read_pending, write_pending, Buf, Globals, translate, in_progress, failed,
  finished, Visit, written,
}

abbrev pub is_pending : Rwop → Bool
is_pending unused = false
is_pending read_pending = true
is_pending write_pending = true

-- The block of the input at an offset.
abbrev pub block : List ℕ → ℕ → List ℕ
block infile offset = take bsz (drop offset infile)

-- What the converter knows of a buffer in use.
pub record BufOk (infile : List ℕ) (b : Buf) : Type 0 where
  pub full : b.op ≡ read_pending → b.last ≡ false → b.aio_offset + bsz ≤ length infile
  pub translated : b.op ≡ write_pending → b.contents ≡ map translate (block infile b.aio_offset)
  pub counted : b.op ≡ write_pending → b.aio_nbytes ≡ length (block infile b.aio_offset)

-- What the kernel promises: an operation that is over has not failed, a read of a regular file has
-- given all bytes that are there, a write has taken all that it was given, and a new operation is taken.
pub record Works (infile : List ℕ) (b : Buf) (v : Visit) : Type 0 where
  pub no_failure : v.completion ≢ failed
  pub reads_all :
      (n : ℕ)
      → v.completion ≡ finished n
      → b.op ≡ read_pending
      → (n ≡ length (block infile b.aio_offset)) × (take n v.bytes ≡ block infile b.aio_offset)
  pub writes_all : (n : ℕ) → v.completion ≡ finished n → b.op ≡ write_pending → n ≡ b.aio_nbytes
  pub takes : v.accepted ≡ true

-- The positions that a buffer in use stands for.
abbrev pub InRange : Buf → ℕ → Type 0
InRange b p = (is_pending b.op ≡ true) × (b.aio_offset ≤ p) × (p < b.aio_offset + bsz)

-- The byte that is to be at a position of the output.
abbrev pub goal_list : List ℕ → ℕ → Option ℕ
goal_list infile p = get_elem? (map translate infile) p

-- Every position is in use by `others` or by the buffer, or beyond `off`, or done.
abbrev pub Accounted : List ℕ → (ℕ → Type 0) → Buf → Globals → Type 0
Accounted infile others b g =
    (p : ℕ) → others p ⊎ InRange b p ⊎ (g.off ≤ p) ⊎ (g.out p ≡ goal_list infile p)

-- Nothing is written behind the end of the input.
abbrev pub NothingBehind : List ℕ → Globals → Type 0
NothingBehind infile g = (p : ℕ) → length infile ≤ p → g.out p ≡ none

abbrev pub weight : Rwop → ℕ
weight unused = 0
weight read_pending = 2
weight write_pending = 1

abbrev pub pend : Rwop → ℕ
pend unused = 0
pend read_pending = 1
pend write_pending = 1

-- What is still to be done with a buffer and with what is not read yet.
abbrev pub todo : ℕ → Buf → Globals → ℕ
todo size b g = weight b.op + 3 * (size - g.off)

-- The visit has something to do.
abbrev pub Moves : ℕ → Visit → Buf → Globals → Type 0
Moves size v b g =
    ((b.op ≡ unused) × (g.off < size)) ⊎ ((is_pending b.op ≡ true) × (v.completion ≢ in_progress))

pub record Visits (infile : List ℕ) (others : ℕ → Type 0) (v : Visit) (b : Buf) (g : Globals)
    (b' : Buf) (g' : Globals) : Type 0 where
  pub buf_ok : BufOk infile b'
  pub accounted : Accounted infile others b' g'
  pub nothing : NothingBehind infile g'
  pub numbers : pend b'.op + g.numop ≡ pend b.op + g'.numop
  pub no_more : todo (length infile) b' g' ≤ todo (length infile) b g
  pub less : Moves (length infile) v b g → todo (length infile) b' g' < todo (length infile) b g

get-take-drop :
    (f : ℕ → ℕ) (xs : List ℕ) (k o j : ℕ)
    → j < k
    → get_elem? (map f (take k (drop o xs))) j ≡ get_elem? (map f xs) (o + j)
get-take-drop f [] zero o j h = absurd (omega arith)
get-take-drop f (x ∷ xs) zero o j h = absurd (omega arith)
get-take-drop f [] (suc k) zero j h = refl
get-take-drop f [] (suc k) (suc o) j h = refl
get-take-drop f (x ∷ xs) (suc k) zero zero h = refl
get-take-drop f (x ∷ xs) (suc k) zero (suc j) h =
    let at : 0 + suc j ≡ suc (0 + j) = omega arith in
    get-take-drop f xs k 0 j (omega arith) ∙ ap (get_elem? (map f (x ∷ xs))) (sym at)
get-take-drop f (x ∷ xs) (suc k) (suc o) j h =
    let at : suc o + j ≡ suc (o + j) = omega arith in
    get-take-drop f xs (suc k) o j h ∙ ap (get_elem? (map f (x ∷ xs))) (sym at)

pub goal_behind : (infile : List ℕ) (p : ℕ) → length infile ≤ p → goal_list infile p ≡ none
goal_behind infile p h =
    get_behind (map translate infile) p (omega (arith, length-map translate infile))

pub length-block : (infile : List ℕ) (o : ℕ) → length (block infile o) ≡ min bsz (length infile - o)
length-block infile o = omega (arith, length-take bsz (drop o infile), length-drop o infile)

not_both : {op : Rwop} → op ≡ unused → is_pending op ≡ true → ⊥
not_both e p = let no : is_pending unused ≡ true = ap is_pending (sym e) ∙ p in cc

-- A free buffer when there is nothing left to read.
pub visit_idle :
    {infile : List ℕ} {others : ℕ → Type 0} (v : Visit) (b : Buf) (g : Globals)
    → BufOk infile b
    → Accounted infile others b g
    → NothingBehind infile g
    → (b.op ≡ unused)
    → length infile ≤ g.off
    → Visits infile others v b g b g
visit_idle v b g ok acc beh e h = record {
  buf_ok = ok;
  accounted = acc;
  nothing = beh;
  numbers = refl;
  no_more = omega arith;
  less = λ m. elim m [ inl (_, lt) ↦ absurd (omega arith) | inr (p, _) ↦ absurd (not_both e p) ];
}

submitted_Accounted :
    (infile : List ℕ) (others : ℕ → Type 0) (b : Buf) (g : Globals) (b' : Buf)
    → Accounted infile others b g
    → b.op ≡ unused
    → b'.op ≡ read_pending
    → b'.aio_offset ≡ g.off
    → Accounted infile others b' (record g { off = g.off + bsz; numop = g.numop + 1 })
submitted_Accounted infile others b g b' acc e e' at p = elim (acc p) [
  | inl o ↦ inl o
  | inr (inl (busy, _, _)) ↦ absurd (not_both e busy)
  | inr (inr (inl above)) ↦ elim (Bool-cases (ltb p (g.off + bsz))) [
    | inl within ↦ inr (inl (ap is_pending e', omega arith, ground arith))
    | inr beyond ↦ inr (inr (inl (ground arith)))
  ]
  | inr (inr (inr done)) ↦ inr (inr (inr done))
]

abbrev pub submitted : ℕ → Buf → Globals → Buf
submitted size b g = record b {
  op = read_pending;
  aio_offset = g.off;
  aio_nbytes = bsz;
  listed = true;
  last = if leb size (g.off + bsz) then true else b.last;
}

pub visit_submit :
    {infile : List ℕ} {others : ℕ → Type 0} (v : Visit) (b : Buf) (g : Globals)
    → Accounted infile others b g
    → NothingBehind infile g
    → b.op ≡ unused
    → g.off < length infile
    → Visits infile others v b g
        (submitted (length infile) b g)
        (record g { off = g.off + bsz; numop = g.numop + 1 })
visit_submit {infile} {others} v b g acc beh e h = record {
  buf_ok = record { full = λ _ not_last. ground arith; translated = λ x. cc; counted = λ x. cc };
  accounted = submitted_Accounted infile others b g (submitted (length infile) b g) acc e refl refl;
  nothing = beh;
  numbers = rw e (omega arith);
  no_more = rw e (omega arith);
  less = λ m. rw e (omega arith);
}

-- A buffer whose operation is not over yet.
pub visit_waits :
    {infile : List ℕ} {others : ℕ → Type 0} (v : Visit) (b : Buf) (g : Globals)
    → BufOk infile b
    → Accounted infile others b g
    → NothingBehind infile g
    → is_pending b.op ≡ true
    → v.completion ≡ in_progress
    → Visits infile others v b g b g
visit_waits v b g ok acc beh e h = record {
  buf_ok = ok;
  accounted = acc;
  nothing = beh;
  numbers = refl;
  no_more = omega arith;
  less =
      λ m. elim m [ inl (free, _) ↦ absurd (not_both free e) | inr (_, moved) ↦ absurd (moved h) ];
}

-- A block that has been read and is being written.
pub visit_translates :
    {infile : List ℕ} {others : ℕ → Type 0} (v : Visit) (b : Buf) (g : Globals) (n : ℕ)
    → Accounted infile others b g
    → NothingBehind infile g
    → b.op ≡ read_pending
    → n ≡ length (block infile b.aio_offset)
    → take n v.bytes ≡ block infile b.aio_offset
    → Visits infile others v b g
        (record b { op = write_pending; aio_nbytes = n; contents = map translate (take n v.bytes) })
        g
visit_translates v b g n acc beh e counted got = record {
  buf_ok = record {
    full = λ x. cc;
    translated = λ _. ap (map translate) got;
    counted = λ _. counted;
  };
  accounted = λ p. elim (acc p) [
    | inl o ↦ inl o
    | inr (inl (_, low, high)) ↦ inr (inl (refl, low, high))
    | inr (inr rest) ↦ inr (inr rest)
  ];
  nothing = beh;
  numbers = rw e refl;
  no_more = rw e (omega arith);
  less = λ m. rw e (omega arith);
}

window_in : (o n p : ℕ) → (leb o p && ltb p (o + n)) ≡ true → (o ≤ p) × (p < o + n)
window_in o n p h = ground arith

window_out : (o n p : ℕ) → (leb o p && ltb p (o + n)) ≡ false → o ≤ p → o + n ≤ p
window_out o n p h low = ground arith

-- What a write that is over leaves in the file.
written_done :
    (infile : List ℕ) (out : ℕ → Option ℕ) (o n p : ℕ) (bytes : List ℕ)
    → bytes ≡ map translate (block infile o)
    → n ≡ length (block infile o)
    → (out p ≡ goal_list infile p) ⊎ ((o ≤ p) × (p < o + bsz))
    → ((length infile ≤ p) → out p ≡ none)
    → written o n bytes out p ≡ goal_list infile p
written_done infile out o n p bytes is count at beh = elim (Bool-cases (leb o p && ltb p (o + n))) [
  | inl within ↦
      let (low, high) = window_in o n p within in
      let inside : p - o < bsz = omega (arith, low, high, count, length-block infile o) in
      let there : o + (p - o) ≡ p = omega (arith, low) in
      rw within (
        ap (λ x. get_elem? x (p - o)) is
        ∙ get-take-drop translate infile bsz o (p - o) inside
        ∙ ap (goal_list infile) there)
  | inr outside ↦ rw outside (elim at [
    | inl done ↦ done
    | inr (low, high) ↦
        let out_of_it = window_out o n p outside low in
        let behind : length infile ≤ p =
          omega (arith, out_of_it, low, high, count, length-block infile o) in
        beh behind ∙ sym (goal_behind infile p behind)
  ])
]

pub visit_frees :
    {infile : List ℕ} {others : ℕ → Type 0} (v : Visit) (b : Buf) (g : Globals) (n : ℕ)
    → BufOk infile b
    → Accounted infile others b g
    → NothingBehind infile g
    → b.op ≡ write_pending
    → 0 < g.numop
    → n ≡ b.aio_nbytes
    → Visits infile others v b g
        (record b { op = unused; listed = false })
        (record g { numop = g.numop - 1; out = written b.aio_offset n b.contents g.out })
visit_frees {infile} v b g n ok acc beh e some_op all =
    let is = ok.translated e in
    let count : n ≡ length (block infile b.aio_offset) = all ∙ ok.counted e in
    record {
      buf_ok = record { full = λ x. cc; translated = λ x. cc; counted = λ x. cc };
      accounted = λ p. elim (acc p) [
        | inl o ↦ inl o
        | inr (inl (_, low, high)) ↦ inr (
            inr (
              inr (
                written_done infile g.out b.aio_offset n p b.contents is count (inr (low, high))
                  (beh p))))
        | inr (inr (inl above)) ↦ inr (inr (inl above))
        | inr (inr (inr done)) ↦ inr (
            inr (
              inr (
                written_done infile g.out b.aio_offset n p b.contents is count (inl done) (beh p))))
      ];
      nothing = λ p h.
          written_done infile g.out b.aio_offset n p b.contents is count
            (inl (beh p h ∙ sym (goal_behind infile p h))) (beh p)
          ∙ goal_behind infile p h;
      numbers = rw e (omega arith);
      no_more = rw e (omega arith);
      less = λ m. rw e (omega arith);
    }
