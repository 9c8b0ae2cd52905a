-- ===== src/Tty.antt =====
-- `my_ttyname` of my-src/Chapter-18/18-15.c: the search below /dev for the device of a terminal.
pub mod Search
pub mod Laws
mod Tests
use my_apue.Prelude.{
  ℕ, zero, suc, ◌+◌, ◌-◌, Option, none, some, Bool, true, false, not, ◌&&◌, ◌||◌, List, [], ◌∷◌,
  ◌++◌, ltb, leb, ◌==◌, if◌then◌else◌, length, take,
}
use my_apue.Prelude.Bytes.{same_bytes, byte_at}

-- What `stat` says of a file: its inode, its device, and whether it is a directory.
pub record Stat : Type 0 where
  pub st_ino : ℕ
  pub st_dev : ℕ
  pub is_dir : Bool

-- The names in a directory that can be opened, `stat`, and whether there is memory for a name.
pub record Files : Type 0 where
  pub entries : List ℕ → Option (List (List ℕ))
  pub stat : List ℕ → Option Stat
  pub alloc_ok : List ℕ → Bool

-- `_POSIX_PATH_MAX`
abbrev pub path_max : ℕ
path_max = 256

-- "/dev", "/dev/fd", "/dev/stdin", "/dev/stdout" and "/dev/stderr"
abbrev pub dev : List ℕ
dev = 47 ∷ 100 ∷ 101 ∷ 118 ∷ []

abbrev pub dev_fd : List ℕ
dev_fd = 47 ∷ 100 ∷ 101 ∷ 118 ∷ 47 ∷ 102 ∷ 100 ∷ []

abbrev pub dev_stdin : List ℕ
dev_stdin = 47 ∷ 100 ∷ 101 ∷ 118 ∷ 47 ∷ 115 ∷ 116 ∷ 100 ∷ 105 ∷ 110 ∷ []

abbrev pub dev_stdout : List ℕ
dev_stdout = 47 ∷ 100 ∷ 101 ∷ 118 ∷ 47 ∷ 115 ∷ 116 ∷ 100 ∷ 111 ∷ 117 ∷ 116 ∷ []

abbrev pub dev_stderr : List ℕ
dev_stderr = 47 ∷ 100 ∷ 101 ∷ 118 ∷ 47 ∷ 115 ∷ 116 ∷ 100 ∷ 101 ∷ 114 ∷ 114 ∷ []

-- A path to "." or "..".
abbrev pub is_dotted : List ℕ → Bool
is_dotted dirname =
    let len = length dirname in
    byte_at dirname (len - 1) == 46
    && (byte_at dirname (len - 2) == 47
        || (byte_at dirname (len - 2) == 46 && byte_at dirname (len - 3) == 47))

-- `add`: the names in the list from `head` to `tail`.
unfoldable pub add : Files → List ℕ → List (List ℕ) → List (List ℕ)
unfolding same_bytes
add files dirname dirs =
    if is_dotted dirname
    then dirs
    else (if same_bytes dirname dev_fd
        then dirs
        else (if files.alloc_ok dirname then dirs ++ dirname ∷ [] else dirs))

-- `pathname` for an entry: the name is cut to the size of the buffer.
abbrev pub entry_path : List ℕ → List ℕ → List ℕ
entry_path dirname name = (dirname ++ 47 ∷ []) ++ take (path_max - (length dirname + 1)) name

abbrev pub is_std : List ℕ → Bool
is_std path = same_bytes path dev_stdin || same_bytes path dev_stdout || same_bytes path dev_stderr

abbrev pub same_file : Stat → Stat → Bool
same_file s t = s.st_ino == t.st_ino && s.st_dev == t.st_dev

-- How `searchdir` ends: a path or NULL, with the list; or a directory name that does not fit into
-- `pathname` with a slash.
pub data Searched : Type 0 where
  found : List ℕ → List (List ℕ) → Searched
  missing : List (List ℕ) → Searched
  overflow : Searched

-- The loop of `searchdir` over the entries.
unfoldable pub search_entries : Files → Stat → List ℕ → List (List ℕ) → List (List ℕ) → Searched
unfolding add
search_entries files target dirname [] dirs = missing dirs
search_entries files target dirname (name ∷ names) dirs =
    let path = entry_path dirname name in
    let rest = search_entries files target dirname names dirs in
    let rest_added = search_entries files target dirname names (add files path dirs) in
    if is_std path then rest else elim (files.stat path) [
      | none ↦ rest
      | some devstat ↦
          if devstat.is_dir
          then rest_added
          else (if same_file devstat target then found path dirs else rest)
    ]

abbrev pub search_opened : Files → Stat → List ℕ → Option (List (List ℕ)) → List (List ℕ) → Searched
search_opened files target dirname none dirs = missing dirs
search_opened files target dirname (some names) dirs =
    if ltb (length dirname) path_max
    then search_entries files target dirname names dirs
    else overflow

unfoldable pub searchdir : Files → Stat → List ℕ → List (List ℕ) → Searched
unfolding search_entries
searchdir files target dirname dirs =
    search_opened files target dirname (files.entries dirname) dirs

-- How `my_ttyname` ends: a path, NULL, a write behind `pathname`, or an empty fuel.
pub data Named : Type 0 where
  path : List ℕ → Named
  no_path : Named
  overflowed : Named
  unfinished : Named

-- The loop over the list that `searchdir` makes longer: `todo` is what follows `ddp` in it, itself
-- included.
unfoldable pub walk : ℕ → Files → Stat → List (List ℕ) → Named
unfolding searchdir
walk fuel files target [] = no_path
walk zero files target (d ∷ todo) = unfinished
walk (suc fuel) files target (d ∷ todo) = elim (searchdir files target d todo) [
  | found p dirs ↦ path p
  | missing dirs ↦ walk fuel files target dirs
  | overflow ↦ overflowed
]

abbrev pub after_dev : ℕ → Files → Stat → Searched → Named
after_dev fuel files target (found p dirs) = path p
after_dev fuel files target (missing dirs) = walk fuel files target dirs
after_dev fuel files target overflow = overflowed

-- `is_tty`, `fdstat` and `is_chr` are what `isatty`, `fstat` and `S_ISCHR` say of the descriptor. The
-- list is empty again at the end.
unfoldable pub my_ttyname : ℕ → Files → Bool → Option Stat → Bool → Named
unfolding walk
my_ttyname fuel files is_tty none is_chr = no_path
my_ttyname fuel files is_tty (some fdstat) is_chr =
    if not is_tty
    then no_path
    else (if not is_chr
        then no_path
        else after_dev fuel files fdstat (searchdir files fdstat dev []))
