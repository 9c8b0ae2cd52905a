-- ===== src/Foo/Table.antt =====
-- The objects, the hash table and its operations, as my-src/Chapter-11/11-11.c has them.
use my_apue.Prelude.{
  ℕ, zero, suc, ◌+◌, ◌-◌, ◌%◌, ◌^◌, Option, none, some, Bool, true, false, not, ◌==◌, if◌then◌else◌,
}
use my_apue.Prelude.Int.{ℤ, pos, negsuc, minus_one, int_suc, int_pred, ◌==ℤ◌}
use my_apue.Machine.{
  Ptr, null, ok, fault, blocked, out_of_fuel, Cmd, pure, ◌>>=◌, ◌>>◌, and_then, get, put, defined,
  Memory, write,
}

abbrev pub nhash : ℕ
nhash = 29

-- The cast of a negative `int` to `unsigned long` adds 2^64.
abbrev pub hash : ℤ → ℕ
hash (pos n) = n % nhash
hash (negsuc n) = (2 ^ 64 - (n + 1)) % nhash

-- `f_lock` tells whether the mutex is held.
pub record Foo : Type 0 where
  pub f_count : ℤ
  pub f_lock : Bool
  pub f_id : ℤ
  pub f_next : Ptr

pub record Table : Type 0 where
  pub heap : Memory Foo
  pub fh : ℕ → Ptr
  pub hashlock : Bool

-- `*p`: a fault at NULL and at an address that holds no object.
unfoldable pub load : Ptr → Cmd Table Foo
load p s = if p == null then fault else and_then (defined (s.heap p) s) ok

abbrev pub store : Ptr → Option Foo → Cmd Table (Unit {0})
store p c s = ok tt (record s { heap = write s.heap p c })

-- `pthread_mutex_lock(&p->f_lock)` and `pthread_mutex_unlock(&p->f_lock)`
unfoldable pub lock : Ptr → Cmd Table (Unit {0})
lock p = do
  f ← load p
  if f.f_lock then (λ _. blocked) else store p (some (record f { f_lock = true }))

unfoldable pub unlock : Ptr → Cmd Table (Unit {0})
unlock p = do
  f ← load p
  if f.f_lock then store p (some (record f { f_lock = false })) else (λ _. fault)

-- `pthread_mutex_lock(&hashlock)` and `pthread_mutex_unlock(&hashlock)`
unfoldable pub lock_hash : Cmd Table (Unit {0})
lock_hash s = if s.hashlock then blocked else ok tt (record s { hashlock = true })

unfoldable pub unlock_hash : Cmd Table (Unit {0})
unlock_hash s = if s.hashlock then ok tt (record s { hashlock = false }) else fault

-- `pthread_mutex_destroy(&p->f_lock)`, undefined on a mutex that is held, and `free(p)`
unfoldable pub destroy : Ptr → Cmd Table (Unit {0})
destroy p = do f ← load p; if f.f_lock then (λ _. fault) else pure tt

unfoldable pub free : Ptr → Cmd Table (Unit {0})
free p = load p >> store p none

-- `fresh` and `junk` are the address that `malloc` returns, NULL if it fails, and what stands
-- there; `init_ok` tells whether `pthread_mutex_init` returns 0.
unfoldable pub foo_alloc : Ptr → Foo → Bool → ℤ → Cmd Table Ptr
foo_alloc fresh junk init_ok id = if fresh == null then pure null else do
  store fresh (some (record junk { f_count = pos 1; f_id = id }))
  if not init_ok then (free fresh >> pure null) else do
    f ← load fresh
    store fresh (some (record f { f_lock = false }))
    lock_hash
    s ← get
    f ← load fresh
    store fresh (some (record f { f_next = s.fh (hash id) }))
    s ← get
    put (record s { fh = λ i. if hash id == i then fresh else s.fh i })
    lock fresh
    unlock_hash
    unlock fresh
    pure fresh

-- `fp->f_count++` under the object's lock
unfoldable pub foo_hold : Ptr → Cmd Table (Unit {0})
foo_hold p = do
  lock p
  f ← load p
  c ← defined (int_suc f.f_count)
  store p (some (record f { f_count = c }))
  unlock p

-- The `for` loop of `foo_find`, with a fuel.
unfoldable pub find_loop : ℕ → ℤ → Ptr → Cmd Table Ptr
find_loop zero id p = λ _. out_of_fuel
find_loop (suc k) id p =
    if p == null
    then pure null
    else do f ← load p; if f.f_id ==ℤ id then (foo_hold p >> pure p) else find_loop k id f.f_next

unfoldable pub foo_find : ℕ → ℤ → Cmd Table Ptr
foo_find fuel id = do
  lock_hash
  s ← get
  p ← find_loop fuel id (s.fh (hash id))
  unlock_hash
  pure p

-- `while (tfp->f_next != fp) tfp = tfp->f_next; tfp->f_next = fp->f_next`, with a fuel.
unfoldable pub unlink_loop : ℕ → Ptr → Ptr → Cmd Table (Unit {0})
unlink_loop zero t p = λ _. out_of_fuel
unlink_loop (suc k) t p = do
  g ← load t
  if g.f_next == p
      then (do f ← load p; store t (some (record g { f_next = f.f_next })))
      else unlink_loop k g.f_next p

-- Taking `p` out of its chain.
unfoldable pub unlink : ℕ → Ptr → Cmd Table (Unit {0})
unlink fuel p = do
  f ← load p
  s ← get
  if s.fh (hash f.f_id) == p
      then put (record s { fh = λ i. if hash f.f_id == i then f.f_next else s.fh i })
      else unlink_loop fuel (s.fh (hash f.f_id)) p

-- `p->f_count--`
unfoldable pub drop_count : Ptr → Cmd Table (Unit {0})
drop_count p = do
  f ← load p
  c ← defined (int_pred f.f_count)
  store p (some (record f { f_count = c }))

-- What `foo_release` does once it holds both locks: the count is tested again.
unfoldable pub release_last : ℕ → Ptr → Cmd Table ℤ
release_last fuel p = do
  f ← load p
  if f.f_count ==ℤ pos 1
      then (do unlink fuel p; unlock_hash; unlock p; destroy p; free p; pure (pos 0))
      else (do drop_count p; unlock p; unlock_hash; pure minus_one)

-- `others` is what the other threads do between the release of the object's lock and the taking
-- of the table's: the only point of the function at which it holds no lock but may go on to free.
unfoldable pub foo_release : ℕ → Cmd Table (Unit {0}) → Ptr → Cmd Table ℤ
foo_release fuel others p = do
  lock p
  f ← load p
  if f.f_count ==ℤ pos 1
      then (do unlock p; others; lock_hash; lock p; release_last fuel p)
      else (do drop_count p; unlock p; pure minus_one)

-- `foo_release` of 11-12.c: the count is guarded by the table's lock.
unfoldable pub foo_release_coarse : ℕ → Ptr → Cmd Table (Unit {0})
foo_release_coarse fuel p = do
  lock_hash
  drop_count p
  f ← load p
  if f.f_count ==ℤ pos 0 then (do unlink fuel p; unlock_hash; destroy p; free p) else unlock_hash

-- `thr_fn1` and `thr_fn2` of 11-11.c, without what they print: the object found is released, and so
-- is NULL.
unfoldable pub thr_fn : ℕ → Cmd Table (Unit {0}) → Cmd Table ℤ
thr_fn fuel others = do fp ← foo_find fuel (pos 7); foo_release fuel others fp

abbrev pub junk : Foo
junk = record { f_count = negsuc 41; f_lock = true; f_id = pos 0; f_next = 999 }

abbrev pub start : Table
start = record { heap = λ _. none; fh = λ _. null; hashlock = false }

-- `main`, the second thread running after the first, with memory at the addresses 1 to 4.
unfoldable pub main : Cmd Table ℤ
main = do
  foo_alloc 1 junk true (pos 1)
  foo_alloc 2 junk true (pos 2)
  foo_alloc 3 junk true (pos 2)
  foo_alloc 4 junk true (pos 7)
  thr_fn 9 (pure tt)
  thr_fn 9 (pure tt)
