-- ===== src/Env/Laws.antt =====
-- What the three versions of `getenv`, my-src/Chapter-12/12-11.c, 12-12.c and 12-13.c, return.
use my_apue.Prelude.{
  ℕ, ◌+◌, ◌-◌, ◌≡◌, ◌≤◌, ◌<◌, refl, ◌∙◌, ◌⊎◌, Option, none, some, Bool, true, false, List, [], ◌∷◌,
  ◌++◌, arith, length, drop, take, ltb, Bool-cases, inl, inr,
}
use my_apue.Prelude.Bytes.{byte_at, c_string}
use my_apue.Prelude.Int.{pos}
use my_apue.Env.{
  maxstringsz, scan_environ, strncpy, from_scan_1, getenv_1, Mutex, lock, enoent, enospc,
  from_scan_2, getenv_2, Thread, with_buffer, getenv_3,
}
use my_apue.Env.Lookup.{Defines, first, later, Undefined, Looked, scan_environ-Looked}
use my_apue.Env.Buffers.{
  Plain, length-strncpy, byte_at-strncpy, c_string-strncpy, c_string-strncpy_short,
  c_string-strncpy_long, c_string-strcpy, length-strcpy,
}

abbrev pub PlainAll : List (List ℕ) → Type 0
PlainAll [] = Unit {0}
PlainAll (e ∷ es) = Plain e × PlainAll es

Plain-value : (name v : List ℕ) → Plain (name ++ 61 ∷ v) → Plain v
Plain-value [] v (ne, p) = p
Plain-value (c ∷ cs) v (ne, p) = Plain-value cs v p

Defines-Plain :
    (name v : List ℕ) (environ : List (List ℕ))
    → Defines name v environ
    → PlainAll environ
    → Plain v
Defines-Plain name v _ first (p, ps) = Plain-value name v p
Defines-Plain name v _ (later ne d) (p, ps) = Defines-Plain name v _ d ps

-- `envbuf` as the compiler makes it and as every call leaves it: its last byte is null.
pub record IsStatic (envbuf : List ℕ) : Type 0 where
  pub sized : length envbuf ≡ maxstringsz
  pub ends : byte_at envbuf (maxstringsz - 1) ≡ 0

-- The name has a value, which the string in the buffer is, cut to 4095 bytes, or none, and the result is
-- NULL.
abbrev pub Got1 : List (List ℕ) → List ℕ → List ℕ → Bool × List ℕ → Type 0
Got1 environ name envbuf out =
    ((v : List ℕ) × Defines name v environ
      × (out.0 ≡ true)
      × (c_string out.1 ≡ take (maxstringsz - 1) v))
    ⊎ (Undefined name environ × (out ≡ (false, envbuf)))

scan_1-Got :
    (environ : List (List ℕ)) (name envbuf : List ℕ) (r : Option (List ℕ))
    → PlainAll environ
    → IsStatic envbuf
    → Looked name environ r
    → Got1 environ name envbuf (from_scan_1 r envbuf) × IsStatic (from_scan_1 r envbuf).1
scan_1-Got environ name envbuf none plain s l = (inr (l, refl), s)
scan_1-Got environ name envbuf (some v) plain s l = (
  inl (
    v,
    l,
    refl,
    c_string-strncpy (maxstringsz - 1) v envbuf (Defines-Plain name v environ l plain) s.ends
        (omega (arith, s.sized)),
  ),
  record {
    sized = length-strncpy (maxstringsz - 1) v envbuf ∙ s.sized;
    ends = byte_at-strncpy (maxstringsz - 1) v envbuf ∙ s.ends;
  },
)

-- `getenv_1` on an environment of strings: `envbuf` holds the value of the first entry of the name, cut to
-- 4095 bytes, or no entry is of the name, the result is NULL and `envbuf` as before. Its last byte stays
-- null.
pub getenv_1-Got :
    (environ : List (List ℕ)) (name envbuf : List ℕ)
    → PlainAll environ
    → IsStatic envbuf
    → Got1 environ name envbuf (getenv_1 environ name envbuf)
      × IsStatic (getenv_1 environ name envbuf).1
unfolding getenv_1
getenv_1-Got environ name envbuf plain s =
    scan_1-Got environ name envbuf (scan_environ name environ) plain s
      (scan_environ-Looked name environ)

-- The value is in the caller's buffer, or does not fit, or there is none.
abbrev pub Got2 : List (List ℕ) → List ℕ → List ℕ → ℕ → List ℕ → Type 0
Got2 environ name buf r buf' =
    ((v : List ℕ) × Defines name v environ
      × (((r ≡ 0) × (length v < length buf) × (c_string buf' ≡ v) × (length buf' ≡ length buf))
          ⊎ ((r ≡ enospc) × (length buf ≤ length v) × (buf' ≡ buf))))
    ⊎ (Undefined name environ × (r ≡ enoent) × (buf' ≡ buf))

scan_2-Got :
    (environ : List (List ℕ)) (name buf : List ℕ) (m : Mutex) (r : Option (List ℕ))
    → PlainAll environ
    → Looked name environ r
    → let (k, buf', m') = from_scan_2 r buf (pos (length buf)) (lock m) in
      Got2 environ name buf k buf' × (m'.held ≡ m.held) × (m'.inited ≡ true)
scan_2-Got environ name buf m none plain l = (inr (l, refl, refl), omega arith, refl)
scan_2-Got environ name buf m (some v) plain l = elim (Bool-cases (ltb (length v) (length buf))) [
  | inl room ↦
      let h : length v < length buf = ground arith in
      rw room (
        inl (
          v,
          l,
          inl (
            refl,
            h,
            c_string-strcpy v buf (Defines-Plain name v environ l plain) h,
            length-strcpy v buf,
          ),
        ),
        omega arith,
        refl,
      )
  | inr full ↦ rw full (inl (v, l, inr (refl, ground arith, refl)), omega arith, refl)
]

-- `getenv_2` on an environment of strings, with a buffer of `buflen` bytes, returns 0 with the value of the
-- first entry of the name in the buffer, `ENOSPC` if it does not fit with its null byte, or `ENOENT` if no
-- entry is of the name; on an error the buffer is as before. It writes no byte behind the buffer, and the
-- mutex is held as often as before.
pub getenv_2-Got :
    (environ : List (List ℕ)) (name buf : List ℕ) (m : Mutex)
    → PlainAll environ
    → let (k, buf', m') = getenv_2 environ name buf (pos (length buf)) m in
      Got2 environ name buf k buf' × (m'.held ≡ m.held) × (m'.inited ≡ true)
unfolding getenv_2
getenv_2-Got environ name buf m plain =
    scan_2-Got environ name buf m (scan_environ name environ) plain
      (scan_environ-Looked name environ)

-- The value is in the new buffer; one of 4095 bytes or more is followed by what `malloc` left in its last
-- byte.
abbrev pub Got3 : List (List ℕ) → List ℕ → List ℕ → Option (List ℕ) → Type 0
Got3 environ name junk r =
    ((v : List ℕ) × Defines name v environ
      × ((buf : List ℕ) × (r ≡ some buf)
          × (((length v < maxstringsz - 1) × (c_string buf ≡ v))
              ⊎ ((maxstringsz - 1 ≤ length v)
                  × (c_string buf
                      ≡ take (maxstringsz - 1) v ++ c_string (drop (maxstringsz - 1) junk))))))
    ⊎ (Undefined name environ × (r ≡ none))

written_3 :
    (v junk : List ℕ)
    → Plain v
    → length junk ≡ maxstringsz
    → ((length v < maxstringsz - 1) × (c_string (strncpy (maxstringsz - 1) v junk) ≡ v))
      ⊎ ((maxstringsz - 1 ≤ length v)
          × (c_string (strncpy (maxstringsz - 1) v junk)
              ≡ take (maxstringsz - 1) v ++ c_string (drop (maxstringsz - 1) junk)))
written_3 v junk p e = elim (Bool-cases (ltb (length v) (maxstringsz - 1))) [
  | inl short ↦
      let h : length v < maxstringsz - 1 = ground arith in
      inl (h, c_string-strncpy_short (maxstringsz - 1) v junk p h (omega (arith, e)))
  | inr long ↦
      let h : maxstringsz - 1 ≤ length v = ground arith in
      inr (h, c_string-strncpy_long (maxstringsz - 1) v junk p h (omega (arith, e)))
]

scan_3-Got :
    (environ : List (List ℕ)) (name junk : List ℕ) (t : Thread) (r : Option (List ℕ))
    → PlainAll environ
    → length junk ≡ maxstringsz
    → Looked name environ r
    → let (b, t') = with_buffer none (some junk) r t in
      Got3 environ name junk b
      × (t'.specific ≡ t.specific)
      × (t'.allocated ≡ t.allocated + 1)
      × (t'.mutex.held ≡ t.mutex.held - 1)
scan_3-Got environ name junk t none plain e l = (inr (l, refl), refl, refl, refl)
scan_3-Got environ name junk t (some v) plain e l = (
  inl (
    v,
    l,
    (
      strncpy (maxstringsz - 1) v junk,
      refl,
      written_3 v junk (Defines-Plain name v environ l plain) e,
    ),
  ),
  refl,
  refl,
  refl,
)

-- A thread with no buffer under `key`.
abbrev pub new_thread : Mutex → ℕ → Thread
new_thread m n = record { specific = none; mutex = m; allocated = n }

-- `getenv_3` on an environment of strings, in a thread with no buffer under `key` and with memory to be had,
-- gives a new buffer with the value of the first entry of the name, or NULL if there is none. A value of 4095
-- bytes or more is cut, and a string only if `malloc` left a null byte at the end. Every call allocates a
-- buffer, and `key` stays without one; the mutex is held as often as before.
pub getenv_3-Got :
    (environ : List (List ℕ)) (name junk : List ℕ) (m : Mutex) (n : ℕ)
    → PlainAll environ
    → length junk ≡ maxstringsz
    → let (b, t') = getenv_3 (some junk) environ name (new_thread m n) in
      Got3 environ name junk b
      × (t'.specific ≡ none)
      × (t'.allocated ≡ n + 1)
      × (t'.mutex.held ≡ m.held)
unfolding getenv_3
getenv_3-Got environ name junk m n plain e =
    let (got, s, a, h) =
      scan_3-Got environ name junk (new_thread (lock m) n) (scan_environ name environ) plain e
        (scan_environ-Looked name environ) in
    (got, s, a, omega (arith, h))
