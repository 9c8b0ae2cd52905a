-- ===== src/Io/Rot/Letters.antt =====
-- What `translate` of my-src/Chapter-14/14-20.c does to letters.
use my_apue.Prelude.{
  sym, ap, ◌∙◌, Bool-cases, ℕ, ◌+◌, ◌≤◌, ◌<◌, ◌≡◌, ◌⊎◌, inl, inr, ◌-◌, ◌%◌, leb, ◌&&◌,
  if◌then◌else◌, arith,
}
use my_apue.Io.Rot.{translate}

-- 13 places further in the alphabet that starts at `first`.
abbrev pub rotated : ℕ → ℕ → ℕ
rotated first c = first + (c - first + 13) % 26

-- Down and up by 13.
goes_down : (c : ℕ) → 78 ≤ c → c ≤ 90 → translate c ≡ c - 13
unfolding translate
goes_down c h h' = ground arith

goes_up : (c : ℕ) → 65 ≤ c → c < 78 → translate c ≡ c + 13
unfolding translate
goes_up c h h' = ground arith

small_goes_down : (c : ℕ) → 110 ≤ c → c ≤ 122 → translate c ≡ c - 13
unfolding translate
small_goes_down c h h' = ground arith

small_goes_up : (c : ℕ) → 97 ≤ c → c < 110 → translate c ≡ c + 13
unfolding translate
small_goes_up c h h' = ground arith

upper_there : (c : ℕ) → 65 ≤ c → c < 91 → translate c ≡ rotated 65 c
upper_there c low high = elim (Bool-cases (leb 78 c)) [
  | inl late ↦ goes_down c (ground arith) (omega arith) ∙ ground arith
  | inr early ↦ goes_up c low (ground arith) ∙ ground arith
]

upper_back : (c : ℕ) → 65 ≤ c → c < 91 → translate (rotated 65 c) ≡ c
upper_back c low high = elim (Bool-cases (leb 78 c)) [
  | inl late ↦ goes_up (rotated 65 c) (omega arith) (ground arith) ∙ ground arith
  | inr early ↦ goes_down (rotated 65 c) (ground arith) (omega arith) ∙ ground arith
]

lower_there : (c : ℕ) → 97 ≤ c → c < 123 → translate c ≡ rotated 97 c
lower_there c low high = elim (Bool-cases (leb 110 c)) [
  | inl late ↦ small_goes_down c (ground arith) (omega arith) ∙ ground arith
  | inr early ↦ small_goes_up c low (ground arith) ∙ ground arith
]

lower_back : (c : ℕ) → 97 ≤ c → c < 123 → translate (rotated 97 c) ≡ c
lower_back c low high = elim (Bool-cases (leb 110 c)) [
  | inl late ↦ small_goes_up (rotated 97 c) (omega arith) (ground arith) ∙ ground arith
  | inr early ↦ small_goes_down (rotated 97 c) (ground arith) (omega arith) ∙ ground arith
]

-- What becomes of a byte: a letter goes 13 places further in its alphabet; of the other bytes, those before
-- 'A' go 13 up and those after it 13 down.
abbrev pub rot13 : ℕ → ℕ
rot13 c =
    if leb 65 c && leb c 90
    then rotated 65 c
    else (if leb 97 c && leb c 122 then rotated 97 c else (if leb 65 c then c - 13 else c + 13))

-- The bytes that are no letters.
below_letters : (c : ℕ) → c < 65 → translate c ≡ c + 13
unfolding translate
below_letters c h = ground arith

between_letters : (c : ℕ) → 91 ≤ c → c < 97 → translate c ≡ c - 13
unfolding translate
between_letters c h h' = ground arith

above_letters : (c : ℕ) → 123 ≤ c → c < 256 → translate c ≡ c - 13
unfolding translate
above_letters c h h' = ground arith

pub translate-rot13 : (c : ℕ) → c < 256 → translate c ≡ rot13 c
translate-rot13 c h = elim (Bool-cases (leb 65 c && leb c 90)) [
  | inl upper ↦ rw upper (upper_there c (ground arith) (ground arith))
  | inr no_upper ↦ elim (Bool-cases (leb 97 c && leb c 122)) [
    | inl lower ↦ rw no_upper (rw lower (lower_there c (ground arith) (ground arith)))
    | inr no_lower ↦ elim (Bool-cases (leb 65 c)) [
      | inr below ↦ rw no_upper (rw no_lower (rw below (below_letters c (ground arith))))
      | inl from ↦ elim (Bool-cases (leb 97 c)) [
        | inl above ↦ rw no_upper (rw no_lower (rw from (above_letters c (ground arith) h)))
        | inr between ↦
            rw no_upper (rw no_lower (rw from (between_letters c (ground arith) (ground arith))))
      ]
    ]
  ]
]

-- On a letter, capital or small, `translate` goes 13 places further in its alphabet, past the end to
-- the front, and a second `translate` gives the letter back.
pub translate-translate :
    (first c : ℕ)
    → (first ≡ 65) ⊎ (first ≡ 97)
    → first ≤ c
    → c < first + 26
    → (translate c ≡ rotated first c) × (translate (translate c) ≡ c)
translate-translate first c (inl upper) low high =
    let there = upper_there c (omega arith) (omega arith) in
    (
      there ∙ ap (λ f. rotated f c) (sym upper),
      ap translate there ∙ upper_back c (omega arith) (omega arith),
    )
translate-translate first c (inr lower) low high =
    let there = lower_there c (omega arith) (omega arith) in
    (
      there ∙ ap (λ f. rotated f c) (sym lower),
      ap translate there ∙ lower_back c (omega arith) (omega arith),
    )
