-- ===== src/Tty/Laws.antt =====
-- The whole search of my-src/Chapter-18/18-15.c.
use my_apue.Prelude.{ℕ, ◌+◌, ◌<◌, ◌≡◌, ◌⊎◌, true, List, [], ◌∷◌, length}
use my_apue.Tty.{Stat, Files, path_max, dev, Named, path, no_path}
use my_apue.Tty.Search.{hits, kids_of, names_in, IsEntry, NoHits}

abbrev pub IsMember : List ℕ → List (List ℕ) → Type 0
IsMember p [] = ⊥
IsMember p (d ∷ ds) = (p ≡ d) ⊎ IsMember p ds

-- The directories below those of a list.
pub data Below (files : Files) (tops : List (List ℕ)) : List ℕ → Type 0 where
  top : {p : List ℕ} → IsMember p tops → Below files tops p
  down :
      {p : List ℕ} (d : List ℕ)
      → Below files tops d
      → IsMember p (kids_of files d)
      → Below files tops p

abbrev pub total : (List ℕ → ℕ) → List (List ℕ) → ℕ
total weigh [] = 0
total weigh (d ∷ ds) = weigh d + total weigh ds

-- The directories below /dev make a finite tree: each can be given a weight above the sum of those of
-- the directories in it; and their names fit into `pathname`.
pub record Finite (files : Files) : Type 0 where
  pub weigh : List ℕ → ℕ
  pub shrinks : (d : List ℕ) → total weigh (kids_of files d) < weigh d
  pub fits : (d : List ℕ) → Below files (dev ∷ []) d → length d < path_max

-- What a search below some directories comes to.
abbrev pub Answer : Files → Stat → List (List ℕ) → Named → Type 0
Answer files target tops out =
    ((p : List ℕ) × (d : List ℕ) × (out ≡ path p)
      × Below files tops d
      × IsEntry p d (names_in (files.entries d))
      × (hits files target p ≡ true))
    ⊎ (out ≡ no_path)
      × ((d : List ℕ) → Below files tops d → NoHits files target d (names_in (files.entries d)))
