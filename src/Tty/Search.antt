-- ===== src/Tty/Search.antt =====
-- One directory in the search of my-src/Chapter-18/18-15.c.
use mathlib.Core.Path.{subst}
use mathlib.Core.List.{append-nil, append_assoc}
use my_apue.Prelude.{
  ℕ, ◌<◌, ◌≡◌, refl, sym, ap, ◌∙◌, ◌⊎◌, inl, inr, Option, none, some, Bool, true, false, not, ◌||◌,
  List, [], ◌∷◌, ◌++◌, ltb, if◌then◌else◌, arith, length, Bool-cases, Option-cases,
}
use my_apue.Prelude.Bytes.{same_bytes}
use my_apue.Tty.{
  Stat, Files, path_max, is_dotted, dev_fd, add, entry_path, is_std, same_file, Searched, found,
  missing, search_entries, searchdir,
}

-- The file that is looked for.
abbrev pub hits : Files → Stat → List ℕ → Bool
hits files target p = if is_std p then false else elim (files.stat p) [
  | none ↦ false
  | some s ↦ if s.is_dir then false else same_file s target
]

-- A directory that is to be searched, as a list of one or none: not "." or "..", not /dev/fd, and there is
-- memory for its name.
abbrev pub listed : Files → List ℕ → List (List ℕ)
listed files p = if is_dotted p || same_bytes p dev_fd || not (files.alloc_ok p) then [] else p ∷ []

-- What an entry adds to them.
abbrev pub kid : Files → List ℕ → List (List ℕ)
kid files p =
    if is_std p
    then []
    else elim (files.stat p) [ none ↦ [] | some s ↦ if s.is_dir then listed files p else [] ]

abbrev pub kids : Files → List ℕ → List (List ℕ) → List (List ℕ)
kids files d [] = []
kids files d (name ∷ names) = kid files (entry_path d name) ++ kids files d names

abbrev pub names_in : Option (List (List ℕ)) → List (List ℕ)
names_in none = []
names_in (some names) = names

abbrev pub kids_of : Files → List ℕ → List (List ℕ)
kids_of files d = kids files d (names_in (files.entries d))

abbrev pub IsEntry : List ℕ → List ℕ → List (List ℕ) → Type 0
IsEntry p d [] = ⊥
IsEntry p d (name ∷ names) = (p ≡ entry_path d name) ⊎ IsEntry p d names

abbrev pub NoHits : Files → Stat → List ℕ → List (List ℕ) → Type 0
NoHits files target d [] = Unit {0}
NoHits files target d (name ∷ names) =
    (hits files target (entry_path d name) ≡ false) × NoHits files target d names

add-listed :
    (files : Files) (p : List ℕ) (dirs : List (List ℕ)) → add files p dirs ≡ dirs ++ listed files p
unfolding add
add-listed files p dirs = elim (Bool-cases (is_dotted p)) [
  | inl dotted ↦ rw dotted (sym (append-nil dirs))
  | inr plain ↦ elim (Bool-cases (same_bytes p dev_fd)) [
    | inl fd ↦ rw plain (rw fd (sym (append-nil dirs)))
    | inr other ↦ elim (Bool-cases (files.alloc_ok p)) [
      | inl room ↦ rw plain (rw other (rw room refl))
      | inr none_left ↦ rw plain (rw other (rw none_left (sym (append-nil dirs))))
    ]
  ]
]

-- What a search of the entries comes to.
abbrev pub SearchIs : Files → Stat → List ℕ → List (List ℕ) → List (List ℕ) → Searched → Type 0
SearchIs files target d names dirs out =
    ((p : List ℕ) × (dirs' : List (List ℕ)) × (out ≡ found p dirs')
      × IsEntry p d names
      × (hits files target p ≡ true))
    ⊎ (out ≡ missing (dirs ++ kids files d names)) × NoHits files target d names

moved-SearchIs :
    (files : Files) (target : Stat) (d : List ℕ) (names dirs : List (List ℕ)) {out out' : Searched}
    → out' ≡ out
    → SearchIs files target d names dirs out
    → SearchIs files target d names dirs out'
moved-SearchIs files target d names dirs e h = subst (SearchIs files target d names dirs) (sym e) h

module _ (files : Files) (target : Stat) (d name : List ℕ) (names dirs : List (List ℕ)) where
  skipped-SearchIs :
      {out : Searched}
      → hits files target (entry_path d name) ≡ false
      → kid files (entry_path d name) ≡ []
      → SearchIs files target d names dirs out
      → SearchIs files target d (name ∷ names) dirs out
  skipped-SearchIs absent none_there (inl (p, dirs', e, m, h)) = inl (p, dirs', e, inr m, h)
  skipped-SearchIs absent none_there (inr (e, rest)) =
      inr
        (e ∙ ap (λ k. missing (dirs ++ (k ++ kids files d names))) (sym none_there), (absent, rest))

  added-SearchIs :
      {out : Searched}
      → hits files target (entry_path d name) ≡ false
      → kid files (entry_path d name) ≡ listed files (entry_path d name)
      → SearchIs files target d names (add files (entry_path d name) dirs) out
      → SearchIs files target d (name ∷ names) dirs out
  added-SearchIs absent is (inl (p, dirs', e, m, h)) = inl (p, dirs', e, inr m, h)
  added-SearchIs absent is (inr (e, rest)) = inr (
    e
        ∙ ap (λ x. missing (x ++ kids files d names)) (add-listed files (entry_path d name) dirs)
        ∙ ap missing (append_assoc dirs (listed files (entry_path d name)) (kids files d names))
        ∙ ap (λ k. missing (dirs ++ (k ++ kids files d names))) (sym is),
    (absent, rest),
  )

-- The loop by the kind of its first entry.
module _ (files : Files) (target : Stat) (d name : List ℕ) (names dirs : List (List ℕ)) where
  entry-std :
      is_std (entry_path d name) ≡ true
      → search_entries files target d (name ∷ names) dirs ≡ search_entries files target d names dirs
  unfolding search_entries
  entry-std e = rw (search_entries, e)

  entry-gone :
      is_std (entry_path d name) ≡ false
      → files.stat (entry_path d name) ≡ none
      → search_entries files target d (name ∷ names) dirs ≡ search_entries files target d names dirs
  unfolding search_entries
  entry-gone plain e = rw (search_entries, plain) (rw e)

  entry-dir :
      {s : Stat}
      → is_std (entry_path d name) ≡ false
      → files.stat (entry_path d name) ≡ some s
      → s.is_dir ≡ true
      → search_entries files target d (name ∷ names) dirs
        ≡ search_entries files target d names (add files (entry_path d name) dirs)
  unfolding search_entries
  entry-dir plain e dir = rw (search_entries, plain) (rw e (rw dir))

  entry-file :
      {s : Stat}
      → is_std (entry_path d name) ≡ false
      → files.stat (entry_path d name) ≡ some s
      → s.is_dir ≡ false
      → search_entries files target d (name ∷ names) dirs ≡ (
          if same_file s target
          then found (entry_path d name) dirs
          else search_entries files target d names dirs)
  unfolding search_entries
  entry-file plain e file = rw (search_entries, plain) (rw e (rw file))

search_entries-SearchIs :
    (files : Files) (target : Stat) (d : List ℕ) (names dirs : List (List ℕ))
    → SearchIs files target d names dirs (search_entries files target d names dirs)
unfolding search_entries
search_entries-SearchIs files target d [] dirs = inr (ap missing (sym (append-nil dirs)), tt)
search_entries-SearchIs files target d (name ∷ names) dirs =
    let rest = search_entries-SearchIs files target d names dirs in
    let skip = skipped-SearchIs files target d name names dirs in
    elim (Bool-cases (is_std (entry_path d name))) [
      | inl standard ↦
          moved-SearchIs files target d (name ∷ names) dirs
            ((entry-std files target d name names dirs standard))
            (skip (rw standard) (rw standard) rest)
      | inr plain ↦ elim (Option-cases (files.stat (entry_path d name))) [
        | inl gone ↦
            moved-SearchIs files target d (name ∷ names) dirs
              ((entry-gone files target d name names dirs plain gone))
              (skip (rw plain (rw gone)) (rw plain (rw gone)) rest)
        | inr (s, there) ↦ elim (Bool-cases s.is_dir) [
          | inl dir ↦
              moved-SearchIs files target d (name ∷ names) dirs
                ((entry-dir files target d name names dirs plain there dir))
                (added-SearchIs files target d name names dirs (rw plain (rw there (rw dir)))
                  (rw plain (rw there (rw dir)))
                  (search_entries-SearchIs files target d names
                    (add files (entry_path d name) dirs)))
          | inr file ↦
              moved-SearchIs files target d (name ∷ names) dirs
                ((entry-file files target d name names dirs plain there file))
                (elim (Bool-cases (same_file s target)) [
                  | inl same ↦
                      rw same (inl (_, _, refl, inl refl, rw plain (rw there (rw file same))))
                  | inr different ↦
                      let out : (if same_file s target
                            then found (entry_path d name) dirs
                            else search_entries files target d names dirs)
                          ≡ search_entries files target d names dirs =
                        rw different refl in
                      moved-SearchIs files target d (name ∷ names) dirs out (
                        skip (rw plain (rw there (rw file different)))
                          (rw plain (rw there (rw file refl))) rest)
                ])
        ]
      ]
    ]

pub searchdir-SearchIs :
    (files : Files) (target : Stat) (d : List ℕ) (dirs : List (List ℕ))
    → length d < path_max
    → SearchIs files target d (names_in (files.entries d)) dirs (searchdir files target d dirs)
unfolding searchdir
searchdir-SearchIs files target d dirs h = elim (Option-cases (files.entries d)) [
  | inl shut ↦ rw shut (inr (ap missing (sym (append-nil dirs)), tt))
  | inr (names, there) ↦
      let fits : ltb (length d) path_max ≡ true = ground arith in
      rw there (rw fits (search_entries-SearchIs files target d names dirs))
]
