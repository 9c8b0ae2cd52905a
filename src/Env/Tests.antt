-- ===== src/Env/Tests.antt =====
-- Runs of the versions of `getenv` in my-src/Chapter-12, on the environment "B=2", "A=1".
use my_apue.Prelude.{
  ℕ, zero, suc, ◌≡◌, refl, true, false, List, [], ◌∷◌, arith, replicate, length-replicate,
}
use my_apue.Prelude.Bytes.{byte_at}
use my_apue.Prelude.Int.{pos}
use my_apue.Env.{maxstringsz, scan_environ, strcpy, Mutex, enospc, getenv_2}
use my_apue.Env.Laws.{PlainAll, IsStatic, Got2, getenv_2-Got}

abbrev environ : List (List ℕ)
environ = (66 ∷ 61 ∷ 50 ∷ []) ∷ (65 ∷ 61 ∷ 49 ∷ []) ∷ []

environ-PlainAll : PlainAll environ
environ-PlainAll = (
  ((λ e. omega (arith, e)), ((λ e. omega (arith, e)), ((λ e. omega (arith, e)), tt))),
  (((λ e. omega (arith, e)), ((λ e. omega (arith, e)), ((λ e. omega (arith, e)), tt))), tt),
)

abbrev a_name : List ℕ
a_name = 65 ∷ []

abbrev a_mutex : Mutex
a_mutex = record { inited = false; held = 1 }

byte_at-replicate : (n i : ℕ) → byte_at (replicate n 0) i ≡ 0
byte_at-replicate zero i = refl
byte_at-replicate (suc n) zero = refl
byte_at-replicate (suc n) (suc i) = byte_at-replicate n i

found :
    getenv_2 environ a_name (7 ∷ 7 ∷ 7 ∷ []) (pos 3) a_mutex
    ≡ (0, 49 ∷ 0 ∷ 7 ∷ [], record { inited = true; held = 1 })
unfolding getenv_2 scan_environ strcpy
found = refl

full :
    getenv_2 environ a_name (7 ∷ []) (pos 1) a_mutex
    ≡ (enospc, 7 ∷ [], record { inited = true; held = 1 })
unfolding getenv_2 scan_environ strcpy
full = refl

zeros-IsStatic : IsStatic (replicate maxstringsz 0)
zeros-IsStatic = record {
  sized = length-replicate {A = ℕ} maxstringsz 0;
  ends = byte_at-replicate maxstringsz 4095;
}

getenv_2-Got_example :
    let (k, buf', m') = getenv_2 environ a_name (7 ∷ 7 ∷ []) (pos 2) a_mutex in
    Got2 environ a_name (7 ∷ 7 ∷ []) k buf' × (m'.held ≡ 1) × (m'.inited ≡ true)
getenv_2-Got_example = getenv_2-Got environ a_name (7 ∷ 7 ∷ []) a_mutex environ-PlainAll
