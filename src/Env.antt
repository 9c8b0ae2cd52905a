-- ===== src/Env.antt =====
-- The three versions of `getenv`: my-src/Chapter-12/12-11.c with a static buffer, 12-12.c with the caller's
-- buffer and a mutex, and 12-13.c with a buffer of the thread.
pub mod Lookup
pub mod Buffers
pub mod Laws
mod Tests
use my_apue.Prelude.{
  ℕ, zero, suc, ◌+◌, ◌-◌, Option, none, some, Bool, true, false, ◌&&◌, List, [], ◌∷◌, ltb, ◌==◌,
  if◌then◌else◌, length, drop,
}
use my_apue.Prelude.Bytes.{byte_at}
use my_apue.Prelude.Int.{ℤ, pos, negsuc}

-- `MAXSTRINGSZ`
abbrev pub maxstringsz : ℕ
maxstringsz = 4096

-- `strncmp(name, e, strlen(name)) == 0`
abbrev pub is_prefix : List ℕ → List ℕ → Bool
is_prefix [] e = true
is_prefix (c ∷ cs) [] = false
is_prefix (c ∷ cs) (d ∷ ds) = c == d && is_prefix cs ds

-- The test of an entry of `environ`; 61 is '='.
abbrev pub is_entry : List ℕ → List ℕ → Bool
is_entry name e = is_prefix name e && byte_at e (length name) == 61

-- The loop over `environ`: the string behind the '=' of the first entry of the name.
unfoldable pub scan_environ : List ℕ → List (List ℕ) → Option (List ℕ)
scan_environ name [] = none
scan_environ name (e ∷ es) =
    let rest = scan_environ name es in
    if is_entry name e then some (drop (suc (length name)) e) else rest

-- `strncpy` of a string to a buffer: the string, cut, and null bytes up to the size.
unfoldable pub strncpy : ℕ → List ℕ → List ℕ → List ℕ
strncpy zero v buf = buf
strncpy (suc n) v [] = []
strncpy (suc n) [] (b ∷ bs) = 0 ∷ strncpy n [] bs
strncpy (suc n) (c ∷ cs) (b ∷ bs) = c ∷ strncpy n cs bs

-- `strcpy` of a string to a buffer.
unfoldable pub strcpy : List ℕ → List ℕ → List ℕ
strcpy v [] = []
strcpy [] (b ∷ bs) = 0 ∷ bs
strcpy (c ∷ cs) (b ∷ bs) = c ∷ strcpy cs bs

-- 12-11.c: whether the result is `envbuf`, not NULL, and `envbuf`.
abbrev pub from_scan_1 : Option (List ℕ) → List ℕ → Bool × List ℕ
from_scan_1 none envbuf = (false, envbuf)
from_scan_1 (some v) envbuf = (true, strncpy (maxstringsz - 1) v envbuf)

unfoldable pub getenv_1 : List (List ℕ) → List ℕ → List ℕ → Bool × List ℕ
unfolding scan_environ strncpy
getenv_1 environ name envbuf = from_scan_1 (scan_environ name environ) envbuf

-- The statics of 12-12.c: whether `thread_init` has run, and how often the recursive mutex is held.
pub record Mutex : Type 0 where
  pub inited : Bool
  pub held : ℕ

abbrev pub lock : Mutex → Mutex
lock m = record { inited = true; held = m.held + 1 }

abbrev pub unlock : Mutex → Mutex
unlock m = record m { held = m.held - 1 }

abbrev pub enoent : ℕ
enoent = 2

abbrev pub enospc : ℕ
enospc = 28

-- `olen < buflen`
abbrev pub fits : ℕ → ℤ → Bool
fits olen (pos buflen) = ltb olen buflen
fits olen (negsuc n) = false

abbrev pub from_scan_2 : Option (List ℕ) → List ℕ → ℤ → Mutex → ℕ × List ℕ × Mutex
from_scan_2 none buf buflen m = (enoent, buf, unlock m)
from_scan_2 (some v) buf buflen m =
    if fits (length v) buflen then (0, strcpy v buf, unlock m) else (enospc, buf, unlock m)

unfoldable pub getenv_2 : List (List ℕ) → List ℕ → List ℕ → ℤ → Mutex → ℕ × List ℕ × Mutex
unfolding scan_environ strcpy
getenv_2 environ name buf buflen m = from_scan_2 (scan_environ name environ) buf buflen (lock m)

-- 12-13.c in one thread: the buffer under `key`, the mutex, and how many buffers have been allocated.
pub record Thread : Type 0 where
  pub specific : Option (List ℕ)
  pub mutex : Mutex
  pub allocated : ℕ

-- The result, NULL or the contents of the buffer, and the thread; `own` tells whether the buffer is the
-- one under `key`.
abbrev pub from_scan_3 : Option (List ℕ) → Bool → List ℕ → Thread → Option (List ℕ) × Thread
from_scan_3 none own buf t = (none, record t { mutex = unlock t.mutex })
from_scan_3 (some v) own buf t =
    let written = strncpy (maxstringsz - 1) v buf in
    (
      some written,
      record t { mutex = unlock t.mutex; specific = if own then some written else t.specific },
    )

-- `fresh` is what `malloc` gives.
abbrev pub with_buffer :
    Option (List ℕ) → Option (List ℕ) → Option (List ℕ) → Thread → Option (List ℕ) × Thread
with_buffer (some buf) fresh found t = from_scan_3 found true buf t
with_buffer none none found t = (none, record t { mutex = unlock t.mutex })
with_buffer none (some buf) found t =
    from_scan_3 found false buf (record t { allocated = t.allocated + 1 })

unfoldable pub getenv_3 :
    Option (List ℕ) → List (List ℕ) → List ℕ → Thread → Option (List ℕ) × Thread
unfolding scan_environ strncpy
getenv_3 fresh environ name t =
    with_buffer t.specific fresh (scan_environ name environ) (record t { mutex = lock t.mutex })
