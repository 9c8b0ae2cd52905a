-- ===== src/Open/Connect/Server.antt =====
-- `serv_accept` and `serv_listen` of my-src/Chapter-17/17-9.c and 17-8.c.
use mathlib.Core.Path.{subst}
use my_apue.Prelude.{
  ℕ, ◌+◌, ◌/◌, ◌%◌, ◌<◌, ◌≤◌, ◌≡◌, refl, sym, ap, ◌∙◌, ◌≢◌, ◌⊎◌, inl, inr, none, some, true, false,
  List, leb, ltb, if◌then◌else◌, arith, length, Bool-cases, Option-cases,
}
use my_apue.Prelude.Bytes.{same_bytes_refl}
use my_apue.Prelude.Int.{ℤ, pos, negsuc, is_neg}
use my_apue.Open.Connect.{
  Node, World, Call, fails, gives, Kernel, Accepting, Accepted, stale, sun_path, cli_path, s_irwxu,
  check_node, after_accept, serv_accept, listened, overflow, serv_listen, serv_socket, serv_bind,
  cli_conn, bound, unlink, open_fd, set_errno, enametoolong,
}
use my_apue.Open.Connect.Client.{
  new_fd, IsNew, first_error, Connected, ConnEnds, closed_again, cli_conn-ConnEnds,
}

-- What the server asks of a client's file: a socket, rwx for its owner and nothing for others, and no
-- older than 30 seconds.
pub record IsTrusted (node : Node) (time : ℕ) : Type 0 where
  pub socket : node.is_sock ≡ true
  pub for_others : node.st_mode % 64 ≡ 0
  pub for_owner : node.st_mode / 64 % 8 ≡ 7
  pub accessed : time ≤ node.st_atime + stale
  pub changed : time ≤ node.st_ctime + stale
  pub modified : time ≤ node.st_mtime + stale

-- A client that is let in: its file is trusted, its owner is the user, and the file is gone unless
-- `unlink` fails.
pub record LetIn (kernel : Kernel) (a : Accepting) (w : World) (fd : ℕ) (out : Accepted)
    : Type 0 where
  pub value : out.0 ≡ pos fd
  pub node : Node
  pub was : w.files a.peer ≡ some node
  pub trusted : IsTrusted node a.time
  pub user : out.1 ≡ some node.st_uid
  pub opened : out.2.open_fds fd ≡ true
  pub gone : (out.2.files a.peer ≡ none) ⊎ (kernel.unlink_ok ≡ false)

-- A client that is turned away: nothing has changed but `errno`.
pub record TurnedAway (w : World) (out : Accepted) : Type 0 where
  pub negative : is_neg out.0 ≡ true
  pub no_user : out.1 ≡ none
  pub fds : (i : ℕ) → out.2.open_fds i ≡ w.open_fds i
  pub files : (q : List ℕ) → out.2.files q ≡ w.files q

check_node-IsTrusted :
    (a : Accepting) (node : Node) → check_node a node ≡ none → IsTrusted node a.time
check_node-IsTrusted a node e = record {
  socket = ground arith;
  for_others = ground arith;
  for_owner = ground arith;
  accessed = ground arith;
  changed = ground arith;
  modified = ground arith;
}

check_node_neg :
    (a : Accepting) (node : Node) {r : ℤ} → check_node a node ≡ some r → is_neg r ≡ true
check_node_neg a node e = ground arith

-- The run that lets a client in.
let_in :
    (kernel : Kernel) (a : Accepting) (w : World) (fd : ℕ) (node : Node)
    → w.files a.peer ≡ some node
    → check_node a node ≡ none
    → after_accept kernel a (gives fd) w
      ≡ (pos fd, some node.st_uid, unlink kernel kernel.unlink_ok a.peer (open_fd fd w))
let_in kernel a w fd node there good = rw there (rw good)

accepted-LetIn :
    (kernel : Kernel) (a : Accepting) (w : World) (fd : ℕ) (node : Node) {out : Accepted}
    → w.files a.peer ≡ some node
    → check_node a node ≡ none
    → out ≡ (pos fd, some node.st_uid, unlink kernel kernel.unlink_ok a.peer (open_fd fd w))
    → LetIn kernel a w fd out
accepted-LetIn kernel a w fd node there good run = record {
  value = ap (λ x. x.0) run;
  node = node;
  was = there;
  trusted = check_node-IsTrusted a node good;
  user = ap (λ x. x.1) run;
  opened = ap (λ x. x.2.open_fds fd) run ∙ ground arith;
  gone = elim (Bool-cases kernel.unlink_ok) [
    | inl removes ↦
        inl (ap (λ x. x.2.files a.peer) run ∙ rw (same_bytes_refl a.peer) (rw removes refl))
    | inr fails_to ↦ inr fails_to
  ];
}

Call-cases : (c : Call) → ((e : ℕ) × (c ≡ fails e)) ⊎ ((fd : ℕ) × (c ≡ gives fd))
Call-cases (fails e) = inl (e, refl)
Call-cases (gives fd) = inr (fd, refl)

accept_ends :
    (kernel : Kernel) (a : Accepting) (w : World) (fd : ℕ)
    → w.open_fds fd ≡ false
    → LetIn kernel a w fd (after_accept kernel a (gives fd) w)
      ⊎ TurnedAway w (after_accept kernel a (gives fd) w)
accept_ends kernel a w fd fresh = elim (Option-cases (w.files a.peer)) [
  | inl missing ↦ inr (
      rw missing (record {
        negative = refl;
        no_user = refl;
        fds = λ i. closed_again w.open_fds fd i fresh;
        files = λ q. refl;
      }))
  | inr (node, there) ↦ elim (Option-cases (check_node a node)) [
    | inl good ↦
        inl (accepted-LetIn kernel a w fd node there good (let_in kernel a w fd node there good))
    | inr (r, bad) ↦ inr (
        rw there (
          rw bad (record {
            negative = check_node_neg a node bad;
            no_user = refl;
            fds = λ i. closed_again w.open_fds fd i fresh;
            files = λ q. refl;
          })))
  ]
]

accepting :
    (kernel : Kernel) (a : Accepting) (w : World) {c : Call}
    → a.malloc_ok ≡ true
    → a.accept ≡ c
    → serv_accept kernel a w ≡ after_accept kernel a c w
unfolding serv_accept
accepting kernel a w room e =
    ap (λ x. if x then after_accept kernel a a.accept w else (negsuc 0, none, w)) room
    ∙ ap (λ c. after_accept kernel a c w) e

no_name :
    (kernel : Kernel) (a : Accepting) (w : World)
    → a.malloc_ok ≡ false
    → serv_accept kernel a w ≡ (negsuc 0, none, w)
unfolding serv_accept
no_name kernel a w full =
    ap (λ x. if x then after_accept kernel a a.accept w else (negsuc 0, none, w)) full

still-TurnedAway :
    (w : World) (n e : ℕ) {out : Accepted}
    → out ≡ (negsuc n, none, record w { errno = e })
    → TurnedAway w out
still-TurnedAway w n e run = record {
  negative = ap (λ x. is_neg x.0) run;
  no_user = ap (λ x. x.1) run;
  fds = λ i. ap (λ x. x.2.open_fds i) run;
  files = λ q. ap (λ x. x.2.files q) run;
}

-- `serv_accept`, when `accept` gives a descriptor, if any, that was not open, lets a client in whose file is a
-- socket, rwx for its owner alone and no older than 30 seconds: the owner is the user, and the file is
-- removed unless `unlink` fails. Else the value is negative, and neither descriptors nor files have changed.
pub serv_accept-LetIn :
    (kernel : Kernel) (a : Accepting) (w : World)
    → IsNew w.open_fds a.accept
    → LetIn kernel a w (new_fd a.accept) (serv_accept kernel a w)
      ⊎ TurnedAway w (serv_accept kernel a w)
serv_accept-LetIn kernel a w fresh = elim (Bool-cases a.malloc_ok) [
  | inl room ↦ elim (Call-cases a.accept) [
    | inl (e, failed) ↦ inr (still-TurnedAway w 1 e (accepting kernel a w room failed))
    | inr (fd, given) ↦
        let fresh' : w.open_fds fd ≡ false = subst (IsNew w.open_fds) given fresh in
        subst (λ out. LetIn kernel a w (new_fd a.accept) out ⊎ TurnedAway w out)
          (sym (accepting kernel a w room given))
          (subst
            (λ c.
              LetIn kernel a w (new_fd c) (after_accept kernel a (gives fd) w)
              ⊎ TurnedAway w (after_accept kernel a (gives fd) w))
            (sym given) (accept_ends kernel a w fd fresh'))
  ]
  | inr full ↦ inr (still-TurnedAway w 0 w.errno (no_name kernel a w full))
]

connected_check :
    (kernel : Kernel) (a : Accepting)
    → kernel.now ≤ a.time
    → a.time ≤ kernel.now + stale
    → check_node a (record (bound kernel) { st_mode = s_irwxu }) ≡ none
connected_check kernel a h h' =
    let fresh : ltb (kernel.now + stale) a.time ≡ false = ground arith in rw fresh refl

-- A client whose `cli_conn` finds no error is let in by a `serv_accept` on its path within 30 seconds,
-- as the user that the client runs as, with a descriptor that is open then; its file is removed if `unlink`
-- can, and everything else is as the client left it.
pub serv_accept-cli_conn :
    (client server : Kernel) (a : Accepting) (name : List ℕ) (w : World) (fd : ℕ)
    → length name < sun_path
    → first_error client.socket client.bind client.chmod client.connect ≡ none
    → IsNew w.open_fds client.socket
    → a.peer ≡ cli_path client.pid
    → a.malloc_ok ≡ true
    → a.accept ≡ gives fd
    → client.now ≤ a.time
    → a.time ≤ client.now + stale
    → let (r, w') = cli_conn client name w in
      (r ≡ pos (new_fd client.socket))
      × (serv_accept server a w'
          ≡ (pos fd, some client.uid, unlink server server.unlink_ok a.peer (open_fd fd w')))
serv_accept-cli_conn client server a name w fd fits calm fresh peer room given after within =
    let (r, w') = cli_conn client name w in
    let conn : Connected client w r w' =
      subst (λ e. ConnEnds client w e (r, w')) calm (cli_conn-ConnEnds client name w fits fresh) in
    let there : w'.files a.peer ≡ some (record (bound client) { st_mode = s_irwxu }) =
      ap w'.files peer ∙ conn.named in
    (
      conn.value,
      accepting server a w' room given
          ∙ let_in server a w' fd _ there (connected_check client a after within),
    )

too_long :
    (kernel : Kernel) (name : List ℕ) (w : World)
    → ltb sun_path (length name) ≡ true
    → (r : ℤ) × (w' : World) × (serv_listen kernel name w ≡ listened r w')
unfolding serv_listen
too_long kernel name w e = (negsuc 0, set_errno enametoolong w, rw e refl)

listens :
    (kernel : Kernel) (name : List ℕ) (w : World) (c : Call)
    → ltb sun_path (length name) ≡ false
    → kernel.socket ≡ c
    → serv_listen kernel name w ≡ serv_socket kernel name c w
unfolding serv_listen
listens kernel name w c e given =
    ap
      (λ x.
        if x
        then listened (negsuc 0) (set_errno enametoolong w)
        else serv_socket kernel name kernel.socket w)
      e
    ∙ ap (λ c. serv_socket kernel name c w) given

-- `serv_listen` with a descriptor at hand writes behind `sun_path` when the name has as many bytes as it;
-- on all other names it returns.
pub serv_listen_bounds :
    (kernel : Kernel) (name : List ℕ) (w : World) (fd : ℕ)
    → kernel.socket ≡ gives fd
    → ((length name ≡ sun_path) × (serv_listen kernel name w ≡ overflow))
      ⊎ ((length name ≢ sun_path)
          × ((r : ℤ) × (w' : World) × (serv_listen kernel name w ≡ listened r w')))
serv_listen_bounds kernel name w fd given = elim (Bool-cases (ltb sun_path (length name))) [
  | inl long ↦ inr (ground arith, too_long kernel name w long)
  | inr fits ↦ elim (Bool-cases (leb sun_path (length name))) [
    | inl exact ↦ inl (ground arith, listens kernel name w (gives fd) fits given ∙ rw exact refl)
    | inr short ↦
        let (r, w') =
          serv_bind kernel fd name kernel.bind
            (unlink kernel kernel.unlink_ok name (open_fd fd w)) in
        inr (ground arith, (r, w', listens kernel name w (gives fd) fits given ∙ rw short refl))
  ]
]
