-- ===== src/Open/Connect.antt =====
-- `serv_listen`, `serv_accept` and `cli_conn` of my-src/Chapter-17/17-8.c, 17-9.c and 17-10.c:
-- connections over UNIX domain sockets, whose names are files.
pub mod Client
pub mod Server
mod Tests
use my_apue.Prelude.{
  ℕ, zero, suc, ◌+◌, ◌-◌, ◌/◌, ◌%◌, Option, none, some, Bool, true, false, not, ◌&&◌, ◌||◌, List,
  [], ◌∷◌, ◌++◌, ltb, leb, ◌==◌, if◌then◌else◌, length, replicate,
}
use my_apue.Prelude.Bytes.{same_bytes}
use my_apue.Prelude.Int.{ℤ, pos, negsuc}
use my_apue.Open.Request.Text.{decimal}

-- A file: its owner, its permission bits, whether it is a socket, and its three times.
pub record Node : Type 0 where
  pub st_uid : ℕ
  pub st_mode : ℕ
  pub is_sock : Bool
  pub st_atime : ℕ
  pub st_ctime : ℕ
  pub st_mtime : ℕ

pub record World : Type 0 where
  pub files : List ℕ → Option Node
  pub open_fds : ℕ → Bool
  pub errno : ℕ

-- What a call that gives a descriptor comes to.
pub data Call : Type 0 where
  fails : ℕ → Call
  gives : ℕ → Call

-- The answers of the kernel to one of the functions: `none` is a success, `some e` an error. What
-- `close` and `unlink` leave in `errno` is open; `unlink_ok` and `cleanup_ok` tell whether `unlink` removes the
-- file, the latter at `errout` of `cli_conn`. No caller looks at its result.
pub record Kernel : Type 0 where
  pub socket : Call
  pub bind : Option ℕ
  pub chmod : Option ℕ
  pub connect : Option ℕ
  pub listen : Option ℕ
  pub after_close : ℕ
  pub after_unlink : ℕ
  pub unlink_ok : Bool
  pub cleanup_ok : Bool
  pub pid : ℕ
  pub uid : ℕ
  pub bind_mode : ℕ
  pub now : ℕ

abbrev pub set_file : List ℕ → Option Node → World → World
set_file path node w = record w { files = λ q. if same_bytes q path then node else w.files q }

abbrev pub unlink : Kernel → Bool → List ℕ → World → World
unlink kernel ok path w = record w {
  files = λ q. if same_bytes q path && ok then none else w.files q;
  errno = kernel.after_unlink;
}

abbrev pub open_fd : ℕ → World → World
open_fd fd w = record w { open_fds = λ i. if i == fd then true else w.open_fds i }

abbrev pub close_fd : Kernel → ℕ → World → World
close_fd kernel fd w = record w {
  open_fds = λ i. if i == fd then false else w.open_fds i;
  errno = kernel.after_close;
}

abbrev pub set_errno : ℕ → World → World
set_errno e w = record w { errno = e }

-- `sizeof(un.sun_path)`
abbrev pub sun_path : ℕ
sun_path = 108

abbrev pub enametoolong : ℕ
enametoolong = 36

-- "%05ld"
abbrev pub padded : ℕ → List ℕ
padded n = replicate (5 - length (decimal (pos n))) 48 ++ decimal (pos n)

-- "/var/tmp/" and the process number
abbrev pub cli_path : ℕ → List ℕ
cli_path pid = (47 ∷ 118 ∷ 97 ∷ 114 ∷ 47 ∷ 116 ∷ 109 ∷ 112 ∷ 47 ∷ []) ++ padded pid

-- 0700
abbrev pub s_irwxu : ℕ
s_irwxu = 448

abbrev pub bound : Kernel → Node
bound kernel = record {
  st_uid = kernel.uid;
  st_mode = kernel.bind_mode;
  is_sock = true;
  st_atime = kernel.now;
  st_ctime = kernel.now;
  st_mtime = kernel.now;
}

-- `errout` of `cli_conn`
abbrev pub cli_errout : Kernel → ℕ → Bool → ℕ → World → World
cli_errout kernel fd do_unlink err w =
    let closed = close_fd kernel fd w in
    set_errno err
      (if do_unlink then unlink kernel kernel.cleanup_ok (cli_path kernel.pid) closed else closed)

abbrev pub cli_connect : Kernel → ℕ → Option ℕ → World → ℤ × World
cli_connect kernel fd none w = (pos fd, w)
cli_connect kernel fd (some e) w = (negsuc 3, cli_errout kernel fd true e (set_errno e w))

abbrev pub cli_chmod : Kernel → ℕ → Option ℕ → World → ℤ × World
cli_chmod kernel fd none w =
    cli_connect kernel fd kernel.connect
      (set_file (cli_path kernel.pid) (some (record (bound kernel) { st_mode = s_irwxu })) w)
cli_chmod kernel fd (some e) w = (negsuc 2, cli_errout kernel fd true e (set_errno e w))

abbrev pub cli_bind : Kernel → ℕ → Option ℕ → World → ℤ × World
cli_bind kernel fd none w =
    cli_chmod kernel fd kernel.chmod (set_file (cli_path kernel.pid) (some (bound kernel)) w)
cli_bind kernel fd (some e) w = (negsuc 1, cli_errout kernel fd false e (set_errno e w))

abbrev pub cli_socket : Kernel → Call → World → ℤ × World
cli_socket kernel (fails e) w = (negsuc 0, set_errno e w)
cli_socket kernel (gives fd) w =
    cli_bind kernel fd kernel.bind
      (unlink kernel kernel.unlink_ok (cli_path kernel.pid) (open_fd fd w))

-- A name that is too long leaves `errno` as it is.
unfoldable pub cli_conn : Kernel → List ℕ → World → ℤ × World
cli_conn kernel name w =
    if leb sun_path (length name) then (negsuc 0, w) else cli_socket kernel kernel.socket w

-- How `serv_listen` ends: a return, or a name written behind `sun_path`.
pub data Listened : Type 0 where
  listened : ℤ → World → Listened
  overflow : Listened

abbrev pub serv_errout : Kernel → ℕ → ℕ → World → World
serv_errout kernel fd err w = set_errno err (close_fd kernel fd w)

abbrev pub serv_listen_on : Kernel → ℕ → Option ℕ → World → ℤ × World
serv_listen_on kernel fd none w = (pos fd, w)
serv_listen_on kernel fd (some e) w = (negsuc 3, serv_errout kernel fd e (set_errno e w))

abbrev pub serv_bind : Kernel → ℕ → List ℕ → Option ℕ → World → ℤ × World
serv_bind kernel fd name none w =
    serv_listen_on kernel fd kernel.listen (set_file name (some (bound kernel)) w)
serv_bind kernel fd name (some e) w = (negsuc 2, serv_errout kernel fd e (set_errno e w))

abbrev pub serv_socket : Kernel → List ℕ → Call → World → Listened
serv_socket kernel name (fails e) w = listened (negsuc 1) (set_errno e w)
serv_socket kernel name (gives fd) w =
    let (r, w') =
      serv_bind kernel fd name kernel.bind (unlink kernel kernel.unlink_ok name (open_fd fd w)) in
    if leb sun_path (length name) then overflow else listened r w'

-- `strcpy` writes the name and its null byte into `sun_path`.
unfoldable pub serv_listen : Kernel → List ℕ → World → Listened
serv_listen kernel name w =
    if ltb sun_path (length name)
    then listened (negsuc 0) (set_errno enametoolong w)
    else serv_socket kernel name kernel.socket w

-- The answers to `serv_accept`: `accept` with the client's path, and the time.
pub record Accepting : Type 0 where
  pub malloc_ok : Bool
  pub accept : Call
  pub peer : List ℕ
  pub stat_errno : ℕ
  pub time : ℕ

abbrev pub stale : ℕ
stale = 30

-- The checks of the socket file; a failed one is the return value.
abbrev pub check_node : Accepting → Node → Option ℤ
check_node a node =
    if not node.is_sock
    then some (negsuc 3)
    else (if not (node.st_mode % 64 == 0) || not (node.st_mode / 64 % 8 == 7)
        then some (negsuc 4)
        else (if ltb (node.st_atime + stale) a.time
              || ltb (node.st_ctime + stale) a.time
              || ltb (node.st_mtime + stale) a.time
            then some (negsuc 5)
            else none))

-- The return value, `*uidptr` if it is set, and the world.
abbrev pub Accepted : Type 0
Accepted = ℤ × Option ℕ × World

abbrev pub after_check : Kernel → Accepting → ℕ → Node → Option ℤ → World → Accepted
after_check kernel a fd node none w =
    (pos fd, some node.st_uid, unlink kernel kernel.unlink_ok a.peer w)
after_check kernel a fd node (some r) w = (r, none, serv_errout kernel fd w.errno w)

abbrev pub after_stat : Kernel → Accepting → ℕ → Option Node → World → Accepted
after_stat kernel a fd none w =
    (negsuc 2, none, serv_errout kernel fd a.stat_errno (set_errno a.stat_errno w))
after_stat kernel a fd (some node) w = after_check kernel a fd node (check_node a node) w

abbrev pub after_accept : Kernel → Accepting → Call → World → Accepted
after_accept kernel a (fails e) w = (negsuc 1, none, set_errno e w)
after_accept kernel a (gives fd) w = after_stat kernel a fd (w.files a.peer) (open_fd fd w)

unfoldable pub serv_accept : Kernel → Accepting → World → Accepted
serv_accept kernel a w =
    if a.malloc_ok then after_accept kernel a a.accept w else (negsuc 0, none, w)
