-- ===== src/Io/Full/Reads.antt =====
-- What `readn` of my-src/Chapter-14/14-24.c gets from a descriptor.
use mathlib.Core.List.{append-nil, append_assoc}
use my_apue.Prelude.{
  ℕ, zero, suc, ◌+◌, ◌-◌, ◌≤◌, ◌≡◌, refl, sym, ap, ◌∙◌, ◌≢◌, ◌⊎◌, inl, inr, Option, none, some,
  true, false, List, [], ◌∷◌, ◌++◌, ◌==◌, if◌then◌else◌, arith, length, length-append,
}
use my_apue.Prelude.Int.{ℤ, pos, minus_one}
use my_apue.Io.Full.{ReadCall, after_read, readn_loop, readn}

-- A descriptor for reading: what is still to come out of it, and what `read` promises.
pub record Source (S : Type 0) : Type 1 where
  pub read : ReadCall S
  pub content : S → List ℕ
  pub delivers :
      (k : ℕ) (s s' : S) (bytes : List ℕ)
      → read k s ≡ (some bytes, s')
      → (content s ≡ bytes ++ content s') × (length bytes ≤ k)
  pub at_end :
      (k : ℕ) (s s' : S) (bytes : List ℕ)
      → read (suc k) s ≡ (some bytes, s')
      → length bytes ≡ 0
      → content s ≡ []
  pub keeps : (k : ℕ) (s s' : S) → read k s ≡ (none, s') → content s' ≡ content s

pub data Why : Type 0 where
  full : Why
  at_end : Why
  failed : Why

-- The value that `readn` returns with `bytes` in the buffer.
abbrev pub value : List ℕ → Why → ℤ
value bytes full = pos (length bytes)
value bytes at_end = pos (length bytes)
value [] failed = minus_one
value (c ∷ cs) failed = pos (length (c ∷ cs))

module _ {S : Type 0} (source : Source S) where
  -- Why `readn` stops: the buffer is full, the last read has come to the end of the file, or it has failed.
  -- `Run n s bytes why s'`: from `s`, with room for `n` bytes, reads deliver `bytes` in turn, all but the last
  -- of them some bytes, and `s'` is the state at the stop.
  pub data Run : ℕ → S → List ℕ → Why → S → Type 0 where
    filled : {s : S} → Run 0 s [] full s
    ended : {n : ℕ} {s s' : S} → source.read (suc n) s ≡ (some [], s') → Run (suc n) s [] at_end s'
    broken : {n : ℕ} {s s' : S} → source.read (suc n) s ≡ (none, s') → Run (suc n) s [] failed s'
    goes_on :
        {n : ℕ} {s s1 s' : S} {bytes later : List ℕ} {why : Why}
        → source.read (suc n) s ≡ (some bytes, s1)
        → bytes ≢ []
        → Run (suc n - length bytes) s1 later why s'
        → Run (suc n) s (bytes ++ later) why s'

  -- What a `readn` of `n` bytes in state `s` promises, `buf` being what it has read before: the
  -- `bytes` that it stores from now on, why it stops, and the new state.
  pub record Reads (buf : List ℕ) (n : ℕ) (s : S) (r : ℤ) (bytes : List ℕ) (why : Why) (s' : S)
      : Type 0 where
    pub run : Run n s bytes why s'
    pub result : r ≡ value (buf ++ bytes) why
    pub delivered : source.content s ≡ bytes ++ source.content s'
    pub at_most : length bytes ≤ n
    pub short : (length bytes ≡ n) ⊎ (source.content s' ≡ []) ⊎ (why ≡ failed)

  abbrev pub Outcome : List ℕ → ℕ → S → Option (ℤ × List ℕ × S) → Type 0
  Outcome buf n s out =
      (r : ℤ) × (bytes : List ℕ) × (why : Why) × (s' : S) × (out ≡ some (r, buf ++ bytes, s'))
      × Reads buf n s r bytes why s'

  Reads-stop :
      (buf : List ℕ) (n : ℕ) (s s' : S) (r : ℤ) (why : Why)
      → Run n s [] why s'
      → r ≡ value (buf ++ []) why
      → source.content s ≡ source.content s'
      → (0 ≡ n) ⊎ (source.content s' ≡ []) ⊎ (why ≡ failed)
      → Reads buf n s r [] why s'
  Reads-stop buf n s s' r why run result same short = record {
    run = run;
    result = result;
    delivered = same;
    at_most = omega arith;
    short = short;
  }

  Reads-more :
      (buf bytes later : List ℕ) (k : ℕ) (s s1 s' : S) (r : ℤ) (why : Why)
      → source.read (suc k) s ≡ (some bytes, s1)
      → bytes ≢ []
      → Reads (buf ++ bytes) (suc k - length bytes) s1 r later why s'
      → Reads buf (suc k) s r (bytes ++ later) why s'
  Reads-more buf bytes later k s s1 s' r why e ne h =
      let (here, small) = source.delivers (suc k) s s1 bytes e in
      record {
        run = goes_on e ne h.run;
        result = h.result ∙ ap (λ x. value x why) (append_assoc buf bytes later);
        delivered = here ∙ ap (λ x. bytes ++ x) h.delivered ∙ sym (append_assoc bytes later _);
        at_most = omega (arith, length-append bytes later, h.at_most);
        short = elim h.short [
          | inl all ↦ inl (omega (arith, length-append bytes later, all))
          | inr rest ↦ inr rest
        ];
      }

  abbrev some_run : ℤ → List ℕ → S → Option (ℤ × List ℕ × S)
  some_run r buf s = some (r, buf, s)

  -- The loop leaves with `n - nleft`, the length of `buf`.
  leaves :
      (n nleft : ℕ) (buf : List ℕ) (s : S)
      → length buf + nleft ≡ n
      → some_run (pos (n - nleft)) buf s ≡ some_run (pos (length (buf ++ []))) (buf ++ []) s
  leaves n nleft buf s e = rw (append-nil buf) (ap (λ m. some_run (pos m) buf s) (omega arith))

  stop_at_end :
      (n k : ℕ) (buf : List ℕ) (s s' : S)
      → length buf + suc k ≡ n
      → source.read (suc k) s ≡ (some [], s')
      → Outcome buf (suc k) s (some (pos (n - suc k), buf, s'))
  stop_at_end n k buf s s' e got =
      let (here, _) = source.delivers (suc k) s s' [] got in
      (
        _,
        [],
        at_end,
        s',
        leaves n (suc k) buf s' e,
        Reads-stop buf (suc k) s s' _ at_end (ended got) refl here
            (inr (inl (sym here ∙ source.at_end k s s' [] got refl))),
      )

  stop_failed :
      (n k : ℕ) (buf : List ℕ) (s s' : S)
      → length buf + suc k ≡ n
      → source.read (suc k) s ≡ (none, s')
      → Outcome buf
          (suc k)
          s
          (if suc k == n then some (minus_one, buf, s') else some (pos (n - suc k), buf, s'))
  stop_failed n k [] s s' e bad =
      let first : (suc k == n) ≡ true = ground arith in
      let same = sym (source.keeps (suc k) s s' bad) in
      rw first (
        minus_one,
        [],
        failed,
        s',
        refl,
        Reads-stop [] (suc k) s s' minus_one failed (broken bad) refl same (inr (inr refl)),
      )
  stop_failed n k (c ∷ buf) s s' e bad =
      let later : (suc k == n) ≡ false = ground arith in
      let same = sym (source.keeps (suc k) s s' bad) in
      rw later (
        _,
        [],
        failed,
        s',
        leaves n (suc k) (c ∷ buf) s' e,
        Reads-stop (c ∷ buf) (suc k) s s' _ failed (broken bad) refl same (inr (inr refl)),
      )

  -- The body of the loop, if the promise holds of the rounds that follow.
  after_read-Outcome :
      (n k : ℕ) (buf : List ℕ) (s s' : S) (got : Option (List ℕ))
      (later : List ℕ → S → Option (ℤ × List ℕ × S))
      → ((bytes : List ℕ)
          → length bytes ≤ suc k
          → length bytes ≢ 0
          → Outcome (buf ++ bytes) (suc k - length bytes) s' (later bytes s'))
      → length buf + suc k ≡ n
      → source.read (suc k) s ≡ (got, s')
      → Outcome buf (suc k) s (after_read n (suc k) buf later (got, s'))
  after_read-Outcome n k buf s s' none later rest e got = stop_failed n k buf s s' e got
  after_read-Outcome n k buf s s' (some []) later rest e got = stop_at_end n k buf s s' e got
  after_read-Outcome n k buf s s' (some (c ∷ bytes)) _ rest e got =
      let (_, small) = source.delivers (suc k) s s' (c ∷ bytes) got in
      let (r, later, why, s2, run, promise) = rest (c ∷ bytes) small (omega arith) in
      let some_bytes : (suc (length bytes) == 0) ≡ false = ground arith in
      (
        r,
        (c ∷ bytes) ++ later,
        why,
        s2,
        rw some_bytes (run ∙ ap (λ x. some_run r x s2) (append_assoc buf (c ∷ bytes) later)),
        Reads-more buf (c ∷ bytes) later k s s' s2 r why got (λ p. cc) promise,
      )

  loop-Reads :
      (fuel n nleft : ℕ) (buf : List ℕ) (s : S)
      → nleft ≤ fuel
      → length buf + nleft ≡ n
      → Outcome buf nleft s (readn_loop source.read fuel n nleft buf s)
  unfolding readn_loop
  loop-Reads fuel n zero buf s h e =
      (_, [], full, s, leaves n 0 buf s e, Reads-stop buf 0 s s _ full filled refl refl (inl refl))
  loop-Reads zero n (suc k) buf s h e = absurd (omega arith)
  loop-Reads (suc fuel) n (suc k) buf s h e =
      let (got, s') = source.read (suc k) s in
      after_read-Outcome n k buf s s' got _
        (λ bytes small some_bytes.
          loop-Reads fuel n (suc k - length bytes) (buf ++ bytes) s' (omega arith)
            (omega (arith, length-append buf bytes)))
        e refl

  -- `readn` on any source returns. Its reads deliver what comes next, `n` bytes at most, until they are `n`, a
  -- read comes to the end of the file, or a read fails. It stores these bytes and returns their number, but -1
  -- if the failing read is the first. Fewer than `n` mean the end of the file or that failed read.
  pub readn-Reads : (n : ℕ) (s : S) → Outcome [] n s (readn source.read n s)
  unfolding readn
  readn-Reads n s = loop-Reads n n n [] s (omega arith) (omega arith)
