-- ===== src/Ruptime/Forking.antt =====
-- `serve` of my-src/Chapter-16/16-18.c: a child for each client, whose standard output is the connection.
pub mod Agree
pub mod Main
pub mod Mains
mod Tests
use my_apue.Prelude.{
  ℕ, zero, suc, Option, none, some, Bool, true, false, ◌&&◌, List, [], ◌∷◌, if◌then◌else◌, length,
}
use my_apue.Ruptime.{Fds, open_fd, close_fd}

-- What the child meets: the two calls of `dup2`, and what `uptime` prints on its standard output, or none where
-- `execl` fails.
pub record Child : Type 0 where
  pub dup_output : Bool
  pub dup_error : Bool
  pub exec : Option (List ℕ)

-- What one turn of the loop meets.
pub data Turn : Type 0 where
  accept_failed : Turn
  fork_failed : ℕ → Turn
  forked : ℕ → Child → Turn

-- The process that accepts the next client, with how many processes wait for it and its children and with
-- what has been written on each connection; or the exit of the server.
pub data Serving : Type 0 where
  waiting : ℕ → Fds → List (ℕ × List ℕ) → Serving
  exits : ℕ → List (ℕ × List ℕ) → Serving

abbrev pub after_client : ℕ → List ℕ → Serving → Serving
after_client fd out (waiting n fds log) = waiting n fds ((fd, out) ∷ log)
after_client fd out (exits n log) = exits n ((fd, out) ∷ log)

-- The descriptors of a child at its `execl`.
abbrev pub child_fds : ℕ → Fds → Fds
child_fds fd fds = close_fd fd (open_fd 2 (open_fd 1 (open_fd fd fds)))

-- `fds` are the descriptors of the process in the loop, and `parents` those of the processes that wait for
-- it. A child whose `execl` fails goes on with the loop; when it exits, the process that waits for it goes on.
unfoldable pub serve : List Turn → List Fds → Fds → Serving
serve [] parents fds = waiting (length parents) fds []
serve (accept_failed ∷ turns) [] fds = exits 1 []
serve (accept_failed ∷ turns) (parent ∷ parents) fds = serve turns parents parent
serve (fork_failed fd ∷ turns) [] fds = after_client fd [] (exits 1 [])
serve (fork_failed fd ∷ turns) (parent ∷ parents) fds =
    after_client fd [] (serve turns parents parent)
serve (forked fd child ∷ turns) parents fds =
    let parent_fds = close_fd fd (open_fd fd fds) in
    let next = serve turns parents parent_fds in
    let child_goes_on = serve turns (parent_fds ∷ parents) (child_fds fd fds) in
    if child.dup_output && child.dup_error
    then elim child.exec [
      | some out ↦ after_client fd out next
      | none ↦ after_client fd [] child_goes_on
    ]
    else after_client fd [] next
