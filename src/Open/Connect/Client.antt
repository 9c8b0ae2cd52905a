-- ===== src/Open/Connect/Client.antt =====
-- Every way that `cli_conn` of my-src/Chapter-17/17-10.c ends.
use my_apue.Prelude.{
  ℕ, ◌<◌, ◌≡◌, refl, ◌≢◌, ◌⊎◌, inl, inr, Option, none, some, Bool, true, false, ◌&&◌, List, leb,
  ◌==◌, if◌then◌else◌, arith, length,
}
use my_apue.Prelude.Bytes.{same_bytes, same_bytes_refl}
use my_apue.Prelude.Int.{ℤ, pos, is_neg}
use my_apue.Open.Connect.{
  Node, World, Call, fails, gives, Kernel, cli_path, s_irwxu, sun_path, bound, cli_conn, cli_socket,
}

-- The error of the first call that fails.
abbrev pub first_error : Call → Option ℕ → Option ℕ → Option ℕ → Option ℕ
first_error (fails e) b m c = some e
first_error (gives fd) (some e) m c = some e
first_error (gives fd) none (some e) c = some e
first_error (gives fd) none none c = c

abbrev pub new_fd : Call → ℕ
new_fd (fails e) = 0
new_fd (gives fd) = fd

-- The descriptor of a call that gives one was not open.
abbrev pub IsNew : (ℕ → Bool) → Call → Type 0
IsNew fds (fails e) = Unit {0}
IsNew fds (gives fd) = fds fd ≡ false

-- A connection: the descriptor is open, and the client's path is a socket that is open to its owner
-- alone; everything else is as before.
pub record Connected (kernel : Kernel) (w : World) (r : ℤ) (w' : World) : Type 0 where
  pub value : r ≡ pos (new_fd kernel.socket)
  pub opened : w'.open_fds (new_fd kernel.socket) ≡ true
  pub other_fds : (i : ℕ) → i ≢ new_fd kernel.socket → w'.open_fds i ≡ w.open_fds i
  pub named : w'.files (cli_path kernel.pid) ≡ some (record (bound kernel) { st_mode = s_irwxu })
  pub other_files :
      (q : List ℕ) → same_bytes q (cli_path kernel.pid) ≡ false → w'.files q ≡ w.files q

-- A failure: all descriptors are as before, `errno` is that of the call that failed, and no file but
-- that of the client's path is touched, which is gone if it is, unless the last `unlink` fails.
pub record Failed (kernel : Kernel) (w : World) (e : ℕ) (r : ℤ) (w' : World) : Type 0 where
  pub negative : is_neg r ≡ true
  pub fds : (i : ℕ) → w'.open_fds i ≡ w.open_fds i
  pub reported : w'.errno ≡ e
  pub file :
      (w'.files (cli_path kernel.pid) ≡ none)
      ⊎ (w'.files (cli_path kernel.pid) ≡ w.files (cli_path kernel.pid))
      ⊎ (kernel.cleanup_ok ≡ false)
  pub other_files :
      (q : List ℕ) → same_bytes q (cli_path kernel.pid) ≡ false → w'.files q ≡ w.files q

-- The one or the other, as the calls go.
abbrev pub ConnEnds : Kernel → World → Option ℕ → ℤ × World → Type 0
ConnEnds kernel w none (r, w') = Connected kernel w r w'
ConnEnds kernel w (some e) (r, w') = Failed kernel w e r w'

pub closed_again :
    (fds : ℕ → Bool) (fd i : ℕ)
    → fds fd ≡ false
    → (if i == fd then false else (if i == fd then true else fds i)) ≡ fds i
closed_again fds fd i e = ground arith

module _ (c : Call) (b m co l : Option ℕ) (after_close after_unlink pid uid mode now : ℕ)
    (unlinks cleans : Bool) where
  abbrev kernel : Kernel
  kernel = record {
    socket = c;
    bind = b;
    chmod = m;
    connect = co;
    listen = l;
    after_close = after_close;
    after_unlink = after_unlink;
    unlink_ok = unlinks;
    cleanup_ok = cleans;
    pid = pid;
    uid = uid;
    bind_mode = mode;
    now = now;
  }

-- The client's path after the first `unlink` alone, and after the last one.
first_removal :
    (ul : Bool) (pid : ℕ) (w : World) {other : Bool}
    → let out =
        if same_bytes (cli_path pid) (cli_path pid) && ul then none else w.files (cli_path pid) in
      (out ≡ none) ⊎ (out ≡ w.files (cli_path pid)) ⊎ (other ≡ false)
first_removal true pid w = inl (rw (same_bytes_refl (cli_path pid)) refl)
first_removal false pid w = inr (inl (rw (same_bytes_refl (cli_path pid)) refl))

last_removal :
    (cl : Bool) (p : List ℕ) (was : Option Node) {before : Option Node}
    → let out = if same_bytes p p && cl then none else was in
      (out ≡ none) ⊎ (out ≡ before) ⊎ (cl ≡ false)
last_removal true p was = inl (rw (same_bytes_refl p) refl)
last_removal false p was = inr (inr refl)

conn_ends :
    (c : Call) (b m co l : Option ℕ) (ac au pid uid mode now : ℕ) (ul cl : Bool) (w : World)
    → IsNew w.open_fds c
    → ConnEnds
        (kernel c b m co l ac au pid uid mode now ul cl)
        w
        (first_error c b m co)
        (cli_socket (kernel c b m co l ac au pid uid mode now ul cl) c w)
conn_ends (fails e) b m co l ac au pid uid mode now ul cl w fresh = record {
  negative = refl;
  fds = λ i. refl;
  reported = refl;
  file = inr (inl refl);
  other_files = λ q ne. refl;
}
conn_ends (gives fd) (some e) m co l ac au pid uid mode now ul cl w fresh = record {
  negative = refl;
  fds = λ i. closed_again w.open_fds fd i fresh;
  reported = refl;
  file = first_removal ul pid w;
  other_files = λ q ne. rw ne refl;
}
conn_ends (gives fd) none (some e) co l ac au pid uid mode now ul cl w fresh = record {
  negative = refl;
  fds = λ i. closed_again w.open_fds fd i fresh;
  reported = refl;
  file = last_removal cl (cli_path pid) _;
  other_files = λ q ne. rw ne refl;
}
conn_ends (gives fd) none none (some e) l ac au pid uid mode now ul cl w fresh = record {
  negative = refl;
  fds = λ i. closed_again w.open_fds fd i fresh;
  reported = refl;
  file = last_removal cl (cli_path pid) _;
  other_files = λ q ne. rw ne refl;
}
conn_ends (gives fd) none none none l ac au pid uid mode now ul cl w fresh = record {
  value = refl;
  opened = ground arith;
  other_fds = λ i ne. ground arith;
  named = rw (same_bytes_refl (cli_path pid)) refl;
  other_files = λ q ne. rw ne refl;
}

-- `cli_conn` with a name that fits and a new socket, if any, on a descriptor that was not open: if no call but
-- `unlink` fails, it returns the
-- open descriptor and leaves a socket of mode 0700 at the client's path; else it returns a negative
-- value, every descriptor is as before, the client's path is free or untouched unless the last `unlink`
-- fails, and `errno` is that of the first call that failed, whatever `close` and `unlink` do to it.
pub cli_conn-ConnEnds :
    (kernel : Kernel) (name : List ℕ) (w : World)
    → length name < sun_path
    → IsNew w.open_fds kernel.socket
    → ConnEnds kernel w
        (first_error kernel.socket kernel.bind kernel.chmod kernel.connect)
        (cli_conn kernel name w)
unfolding cli_conn
cli_conn-ConnEnds kernel name w fits fresh =
    let short : leb sun_path (length name) ≡ false = ground arith in
    rw short (
      conn_ends kernel.socket kernel.bind kernel.chmod kernel.connect kernel.listen
        kernel.after_close kernel.after_unlink kernel.pid kernel.uid kernel.bind_mode kernel.now
        kernel.unlink_ok kernel.cleanup_ok w fresh)
