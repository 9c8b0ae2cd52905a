-- ===== src/Open/First/Start.antt =====
-- How `csopen` of my-src/Chapter-17/open-1/17-19.c starts its server.
use my_apue.Prelude.{
  ℕ, ◌≡◌, ◌≢◌, ◌⊎◌, refl, Option, none, some, true, false, arith, Bool-cases, inl, inr,
}
use my_apue.Prelude.Int.{pos, is_neg}
use my_apue.Popen.{read_end, write_end, Fds, opened}
use my_apue.Open.First.{
  Link, Launch, server_fds, Launched, not_launched, launched, after_pipe, launch,
}

-- The end of the client is `read_end`, that of the server `write_end`; both go both ways.
pub record IsServerFds (id : ℕ) (fds : Fds) : Type 0 where
  pub input : fds 0 ≡ some (write_end id)
  pub output : fds 1 ≡ some (write_end id)
  pub no_client_end : (i : ℕ) → fds i ≢ some (read_end id)

server_fds-IsServerFds :
    (id p0 p1 : ℕ) (fds : Fds)
    → p0 ≢ p1
    → ((i : ℕ) → fds i ≢ some (read_end id))
    → IsServerFds id (server_fds p0 p1 (opened id p0 p1 fds))
unfolding server_fds
server_fds-IsServerFds id p0 p1 fds ne fresh = record {
  input = ground arith;
  output = ground arith;
  no_client_end = λ i e. ground (arith, fresh i);
}

-- What `csopen` comes to when it starts its server, from an `fd` of a negative and any descriptors.
abbrev pub Starts : Launch → Fds → Launched → Type 0
Starts l fds (not_launched link after) = (l.pipe ≡ none) ⊎ (l.fork_ok ≡ false)
Starts l fds (launched link after none) = ⊥
Starts l fds (launched link after (some server)) =
    IsServerFds l.pipe_id server
    × ((p : ℕ) × (link.fd_0 ≡ pos p) × (after p ≡ some (read_end l.pipe_id)))
    × ((i : ℕ) → after i ≢ some (write_end l.pipe_id))

-- `fd_pipe` gives two descriptors.
abbrev pub Differ : Option (ℕ × ℕ) → Type 0
Differ none = Unit {0}
Differ (some (p0, p1)) = p0 ≢ p1

after_pipe-Starts :
    (l : Launch) (p : Option (ℕ × ℕ)) (link : Link) (fds : Fds)
    → l.pipe ≡ p
    → Differ p
    → ((i : ℕ) → fds i ≢ some (read_end l.pipe_id))
    → ((i : ℕ) → fds i ≢ some (write_end l.pipe_id))
    → Starts l fds (after_pipe l p link fds)
after_pipe-Starts l none link fds e ne fresh fresh' = inl e
after_pipe-Starts l (some (p0, p1)) link fds e ne fresh fresh' = elim (Bool-cases l.fork_ok) [
  | inr fails ↦ rw fails (inr refl)
  | inl forks ↦ rw forks (
    server_fds-IsServerFds l.pipe_id p0 p1 fds ne fresh,
    (p0, refl, ground arith),
    λ i h. ground (arith, fresh' i),
  )
]

-- On its first call, with `fd_pipe` giving two descriptors and no other descriptor on that pipe, `csopen`
-- starts a server that has its end of the pipe as standard input and output and no descriptor on the end of
-- the client, which keeps its own end in `fd[0]` and none of the server's; or `fd_pipe` or `fork` has failed.
-- On a later call, `fd[0]` being there, it starts no server and changes nothing.
pub launch-Starts :
    (l : Launch) (link : Link) (fds : Fds)
    → Differ l.pipe
    → ((i : ℕ) → fds i ≢ some (read_end l.pipe_id))
    → ((i : ℕ) → fds i ≢ some (write_end l.pipe_id))
    → ((is_neg link.fd_0 ≡ true) × Starts l fds (launch l link fds))
      ⊎ ((is_neg link.fd_0 ≡ false) × (launch l link fds ≡ launched link fds none))
unfolding launch
launch-Starts l link fds ne fresh fresh' = elim (Bool-cases (is_neg link.fd_0)) [
  | inl first ↦ inl (first, rw first (after_pipe-Starts l l.pipe link fds refl ne fresh fresh'))
  | inr later ↦ inr (later, rw later refl)
]
