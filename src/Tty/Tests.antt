-- ===== src/Tty/Tests.antt =====
-- The search of my-src/Chapter-18/18-15.c in a small /dev: a terminal stands in /dev/pts.
use mathlib.Core.Path.{subst}
use my_apue.Prelude.{
  ℕ, ◌<◌, ◌≡◌, refl, sym, ◌⊎◌, inl, inr, Option, none, some, true, false, List, [], ◌∷◌,
  if◌then◌else◌, arith, length, Bool-cases,
}
use my_apue.Prelude.Bytes.{same_bytes, same_bytes-eq}
use my_apue.Tty.{Stat, Files, path_max, dev, add, search_entries, searchdir, path, walk, my_ttyname}
use my_apue.Tty.Search.{kids_of}
use my_apue.Tty.Laws.{IsMember, Below, top, down, total, Finite}

abbrev dev_pts : List ℕ
dev_pts = 47 ∷ 100 ∷ 101 ∷ 118 ∷ 47 ∷ 112 ∷ 116 ∷ 115 ∷ []

abbrev dev_pts_0 : List ℕ
dev_pts_0 = 47 ∷ 100 ∷ 101 ∷ 118 ∷ 47 ∷ 112 ∷ 116 ∷ 115 ∷ 47 ∷ 48 ∷ []

abbrev dev_dot : List ℕ
dev_dot = 47 ∷ 100 ∷ 101 ∷ 118 ∷ 47 ∷ 46 ∷ []

abbrev small_entries : List ℕ → Option (List (List ℕ))
small_entries d =
    if same_bytes d dev
    then some ((46 ∷ []) ∷ (112 ∷ 116 ∷ 115 ∷ []) ∷ [])
    else (if same_bytes d dev_pts then some ((48 ∷ []) ∷ []) else none)

abbrev terminal : Stat
terminal = record { st_ino = 7; st_dev = 3; is_dir = false }

abbrev directory : Stat
directory = record { st_ino = 1; st_dev = 3; is_dir = true }

abbrev small_stat : List ℕ → Option Stat
small_stat p =
    if same_bytes p dev_pts_0
    then some terminal
    else (if same_bytes p dev_pts
        then some directory
        else (if same_bytes p dev_dot then some directory else none))

abbrev small : Files
small = record { entries = small_entries; stat = small_stat; alloc_ok = λ p. true }

small_ttyname : my_ttyname 4 small true (some terminal) true ≡ path dev_pts_0
unfolding my_ttyname walk searchdir search_entries add same_bytes
small_ttyname = refl

abbrev small_weigh : List ℕ → ℕ
small_weigh d = if same_bytes d dev then 2 else 1

dev_shrinks : total small_weigh (kids_of small dev) < small_weigh dev
unfolding add same_bytes
dev_shrinks = omega arith

pts_shrinks : total small_weigh (kids_of small dev_pts) < small_weigh dev_pts
unfolding add same_bytes
pts_shrinks = omega arith

small_shrinks : (d : List ℕ) → total small_weigh (kids_of small d) < small_weigh d
small_shrinks d = elim (Bool-cases (same_bytes d dev)) [
  | inl is ↦
      subst (λ x. total small_weigh (kids_of small x) < small_weigh x)
        (sym (same_bytes-eq d dev is)) dev_shrinks
  | inr other ↦ elim (Bool-cases (same_bytes d dev_pts)) [
    | inl is ↦
        subst (λ x. total small_weigh (kids_of small x) < small_weigh x)
          (sym (same_bytes-eq d dev_pts is)) pts_shrinks
    | inr empty ↦ rw other (rw empty (omega arith))
  ]
]

dev_kids : (p : List ℕ) → IsMember p (kids_of small dev) → p ≡ dev_pts
unfolding add same_bytes
dev_kids p (inl e) = e
dev_kids p (inr m) = absurd m

pts_kids : (p : List ℕ) → IsMember p (kids_of small dev_pts) → p ≡ dev_pts
unfolding add same_bytes
pts_kids p m = absurd m

small_dirs : {d : List ℕ} → Below small (dev ∷ []) d → (d ≡ dev) ⊎ (d ≡ dev_pts)
small_dirs (top (inl e)) = inl e
small_dirs (top (inr m)) = absurd m
small_dirs {d = p} (down d b m) = inr (elim (small_dirs b) [
  | inl e ↦ dev_kids p (subst (λ x. IsMember p (kids_of small x)) e m)
  | inr e ↦ pts_kids p (subst (λ x. IsMember p (kids_of small x)) e m)
])

small_fits : (d : List ℕ) → Below small (dev ∷ []) d → length d < path_max
small_fits d b = elim (small_dirs b) [ inl e ↦ rw e (omega arith) | inr e ↦ rw e (omega arith) ]

abbrev small_tree : Finite small
small_tree = record { weigh = small_weigh; shrinks = small_shrinks; fits = small_fits }
