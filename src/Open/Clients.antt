-- ===== src/Open/Clients.antt =====
-- The table of connected clients of the open server, my-src/Chapter-17/open-2/17-27.c.
pub mod Laws
pub mod Delete
mod Tests
use my_apue.Prelude.{
  ℕ, zero, suc, ◌+◌, Option, none, some, Bool, true, false, List, [], ◌∷◌, ◌++◌, ◌==◌,
  if◌then◌else◌, replicate,
}
use my_apue.Prelude.Int.{ℤ, pos, negsuc, minus_one, ◌==ℤ◌}

pub record Client : Type 0 where
  pub fd : ℤ
  pub uid : ℕ

abbrev pub client_at : ℤ → ℕ → Client
client_at fd uid = record { fd = fd; uid = uid }

abbrev pub nalloc : ℕ
nalloc = 10

-- The globals `client`, NULL or an array of `client_size` entries, and `client_size`.
pub record Clients : Type 0 where
  pub client : Option (List Client)
  pub client_size : ℕ

-- `client[i].fd = -1` for the `n` entries from index `i` on.
unfoldable pub mark_free : ℕ → ℕ → List Client → List Client
mark_free i n [] = []
mark_free zero zero (c ∷ cs) = c ∷ cs
mark_free zero (suc n) (c ∷ cs) = record c { fd = minus_one } ∷ mark_free zero n cs
mark_free (suc i) n (c ∷ cs) = c ∷ mark_free i n cs

abbrev pub entries : Option (List Client) → List Client
entries none = []
entries (some cs) = cs

-- `junk` is what `malloc` and `realloc` leave in the new entries, and `memory` tells whether they
-- succeed; if not, `err_sys` ends the process, which is `none`.
unfoldable pub client_alloc : Client → Bool → Clients → Option Clients
unfolding mark_free
client_alloc junk false s = none
client_alloc junk true s = some (record {
  client = some (mark_free s.client_size nalloc (entries s.client ++ replicate nalloc junk));
  client_size = s.client_size + nalloc;
})

-- The scan for a free entry: the index that it gets, and the array with the entry filled.
unfoldable pub take_free : ℤ → ℕ → List Client → Option (ℕ × List Client)
take_free fd uid [] = none
take_free fd uid (c ∷ cs) =
    if c.fd ==ℤ minus_one
    then some (0, client_at fd uid ∷ cs)
    else elim (take_free fd uid cs) [ none ↦ none | some (i, cs') ↦ some (suc i, c ∷ cs') ]

-- The scan under `again`, and the allocation that is tried when it fails, `fuel` times at most.
-- `none` is the end of the process, and an empty fuel.
unfoldable pub add_loop : ℕ → Client → Bool → ℤ → ℕ → Clients → Option (ℕ × Clients)
unfolding client_alloc take_free
add_loop zero junk memory fd uid s = none
add_loop (suc k) junk memory fd uid s = elim (take_free fd uid (entries s.client)) [
  | some (i, cs) ↦ some (i, record s { client = some cs })
  | none ↦ elim (client_alloc junk memory s) [
    | none ↦ none
    | some s' ↦ add_loop k junk memory fd uid s'
  ]
]

abbrev pub is_null : Option (List Client) → Bool
is_null none = true
is_null (some cs) = false

unfoldable pub client_add : ℕ → Client → Bool → ℤ → ℕ → Clients → Option (ℕ × Clients)
unfolding add_loop
client_add fuel junk memory fd uid s =
    if is_null s.client
    then (elim (client_alloc junk memory s) [
      | none ↦ none
      | some s' ↦ add_loop fuel junk memory fd uid s'
    ])
    else add_loop fuel junk memory fd uid s

-- The scan of `client_del`.
unfoldable pub clear_fd : ℤ → List Client → Option (List Client)
clear_fd fd [] = none
clear_fd fd (c ∷ cs) =
    if c.fd ==ℤ fd
    then some (record c { fd = minus_one } ∷ cs)
    else elim (clear_fd fd cs) [ none ↦ none | some cs' ↦ some (c ∷ cs') ]

-- `none` is the end of the process by `log_quit`.
unfoldable pub client_del : ℤ → Clients → Option Clients
unfolding clear_fd
client_del fd s = elim (clear_fd fd (entries s.client)) [
  | none ↦ none
  | some cs ↦ some (record s { client = some cs })
]
