-- ===== src/Io/Full/Writes.antt =====
-- What `writen` of my-src/Chapter-14/14-24.c puts on a descriptor.
use mathlib.Core.List.{append-nil, append_assoc}
use my_apue.Prelude.{
  ℕ, zero, suc, ◌+◌, ◌-◌, ◌≤◌, ◌≡◌, refl, sym, ap, ◌∙◌, inl, inr, Option, none, some, List, [], ◌∷◌,
  ◌++◌, ◌==◌, if◌then◌else◌, arith, length, length-drop, Bool-cases, take, drop,
}
use my_apue.Prelude.Int.{ℤ, pos, minus_one}
use my_apue.Io.Full.{WriteCall, after_write, writen_loop, writen}

-- A descriptor for writing: what has been written to it, and what `write` promises.
pub record Sink (S : Type 0) : Type 1 where
  pub write : WriteCall S
  pub content : S → List ℕ
  pub takes :
      (bytes : List ℕ) (s s' : S) (k : ℕ)
      → write bytes s ≡ (some k, s')
      → (content s' ≡ content s ++ take k bytes) × (k ≤ length bytes)
  pub keeps : (bytes : List ℕ) (s s' : S) → write bytes s ≡ (none, s') → content s' ≡ content s

take-take-drop :
    (k w : ℕ) (cs : List ℕ) → k ≤ length cs → take k cs ++ take w (drop k cs) ≡ take (k + w) cs
take-take-drop zero w cs h = let same : w ≡ 0 + w = omega arith in ap (λ n. take n cs) same
take-take-drop (suc k) w [] h = absurd (omega arith)
take-take-drop (suc k) w (c ∷ cs) h =
    let same : suc (k + w) ≡ suc k + w = omega arith in
    ap (λ x. c ∷ x) (take-take-drop k w cs (omega arith)) ∙ ap (λ n. take n (c ∷ cs)) same

-- Why `writen` stops: all is written, or the last write has taken nothing or failed.
pub data Why : Type 0 where
  all : Why
  nothing_taken : Why
  failed : Why

-- The value that `writen` returns when it has written `w` bytes.
abbrev pub value : ℕ → Why → ℤ
value w all = pos w
value w nothing_taken = pos w
value zero failed = minus_one
value (suc w) failed = pos (suc w)

module _ {S : Type 0} (sink : Sink S) where
  -- `Run ptr s w why s'`: from `s`, writes of what is left of `ptr` take `w` bytes in turn, all but the last of
  -- them some bytes, and `s'` is the state at the stop.
  pub data Run : List ℕ → S → ℕ → Why → S → Type 0 where
    emptied : {s : S} → Run [] s 0 all s
    blocked :
        {c : ℕ} {cs : List ℕ} {s s' : S}
        → sink.write (c ∷ cs) s ≡ (some 0, s')
        → Run (c ∷ cs) s 0 nothing_taken s'
    broken :
        {c : ℕ} {cs : List ℕ} {s s' : S}
        → sink.write (c ∷ cs) s ≡ (none, s')
        → Run (c ∷ cs) s 0 failed s'
    goes_on :
        {c k w : ℕ} {cs : List ℕ} {s s1 s' : S} {why : Why}
        → sink.write (c ∷ cs) s ≡ (some (suc k), s1)
        → Run (drop (suc k) (c ∷ cs)) s1 w why s'
        → Run (c ∷ cs) s (suc k + w) why s'

  -- What a `writen` of `n` bytes, of which `ptr` are left, promises of its return value `r`, the
  -- number `w` of bytes that it still writes, why it stops, and the new state.
  pub record Writes (n : ℕ) (ptr : List ℕ) (s : S) (r : ℤ) (w : ℕ) (why : Why) (s' : S)
      : Type 0 where
    pub run : Run ptr s w why s'
    pub result : r ≡ value (n - length ptr + w) why
    pub written : sink.content s' ≡ sink.content s ++ take w ptr
    pub at_most : w ≤ length ptr
    pub short : (why ≡ all) → w ≡ length ptr

  abbrev pub Outcome : ℕ → List ℕ → S → Option (ℤ × S) → Type 0
  Outcome n ptr s out =
      (r : ℤ) × (w : ℕ) × (why : Why) × (s' : S) × (out ≡ some (r, s')) × Writes n ptr s r w why s'

  Writes-stop :
      (n : ℕ) (ptr : List ℕ) (s s' : S) (r : ℤ) (why : Why)
      → Run ptr s 0 why s'
      → r ≡ value (n - length ptr + 0) why
      → sink.content s' ≡ sink.content s
      → ((why ≡ all) → 0 ≡ length ptr)
      → Writes n ptr s r 0 why s'
  Writes-stop n ptr s s' r why run result same short = record {
    run = run;
    result = result;
    written = same ∙ sym (append-nil (sink.content s));
    at_most = omega arith;
    short = short;
  }

  Writes-more :
      (n c : ℕ) (cs : List ℕ) (k w : ℕ) (s s1 s' : S) (r : ℤ) (why : Why)
      → length (c ∷ cs) ≤ n
      → sink.write (c ∷ cs) s ≡ (some (suc k), s1)
      → Writes n (drop (suc k) (c ∷ cs)) s1 r w why s'
      → Writes n (c ∷ cs) s r (suc k + w) why s'
  Writes-more n c cs k w s s1 s' r why h e rest =
      let ptr : List ℕ = c ∷ cs in
      let (here, small) = sink.takes ptr s s1 (suc k) e in
      let total : n - length (drop (suc k) ptr) + w ≡ n - length ptr + (suc k + w) =
        omega (arith, length-drop (suc k) ptr, small) in
      record {
        run = goes_on e rest.run;
        result = rest.result ∙ ap (λ m. value m why) total;
        written =
            rest.written
            ∙ ap (λ x. x ++ take w (drop (suc k) ptr)) here
            ∙ append_assoc (sink.content s) (take (suc k) ptr) (take w (drop (suc k) ptr))
            ∙ ap (λ x. sink.content s ++ x) (take-take-drop (suc k) w ptr small);
        at_most = omega (arith, length-drop (suc k) ptr, small, rest.at_most);
        short = λ is. omega (arith, length-drop (suc k) ptr, small, rest.short is);
      }

  stop_failed :
      (n c : ℕ) (cs : List ℕ) (s s' : S)
      → length (c ∷ cs) ≤ n
      → sink.write (c ∷ cs) s ≡ (none, s')
      → Outcome n (c ∷ cs) s (
          if length (c ∷ cs) == n
          then some (minus_one, s')
          else some (pos (n - length (c ∷ cs)), s'))
  stop_failed n c cs s s' h e =
      let same = sink.keeps (c ∷ cs) s s' e in
      elim (Bool-cases (length (c ∷ cs) == n)) [
        | inl first ↦ rw first (
          minus_one,
          0,
          failed,
          s',
          refl,
          Writes-stop n (c ∷ cs) s s' _ failed (broken e)
              (ap (λ m. value m failed)
                (let none_yet : 0 ≡ n - length (c ∷ cs) + 0 = ground arith in none_yet))
              same (λ p. cc),
        )
        | inr later ↦
            let (m, is) : (m : ℕ) × (n - length (c ∷ cs) ≡ suc m) =
              (n - length (c ∷ cs) - 1, ground arith) in
            rw later (
              _,
              0,
              failed,
              s',
              refl,
              Writes-stop n (c ∷ cs) s s' _ failed (broken e)
                  (ap pos is
                    ∙ ap (λ m. value m failed)
                        (let more : suc m ≡ n - length (c ∷ cs) + 0 = omega arith in more))
                  same (λ p. cc),
            )
      ]

  -- The body of the loop, if the promise holds of the rounds that follow.
  after_write-Outcome :
      (n c : ℕ) (cs : List ℕ) (s s' : S) (took : Option ℕ) (later : ℕ → S → Option (ℤ × S))
      → ((k : ℕ) → Outcome n (drop (suc k) (c ∷ cs)) s' (later (suc k) s'))
      → length (c ∷ cs) ≤ n
      → sink.write (c ∷ cs) s ≡ (took, s')
      → Outcome n (c ∷ cs) s (after_write n (c ∷ cs) later (took, s'))
  after_write-Outcome n c cs s s' none later rest h e = stop_failed n c cs s s' h e
  after_write-Outcome n c cs s s' (some zero) later rest h e =
      let (here, _) = sink.takes (c ∷ cs) s s' 0 e in
      (
        pos (n - length (c ∷ cs)),
        0,
        nothing_taken,
        s',
        refl,
        Writes-stop n (c ∷ cs) s s' _ nothing_taken (blocked e) (ap pos (omega arith))
            (here ∙ append-nil (sink.content s)) (λ p. cc),
      )
  after_write-Outcome n c cs s s' (some (suc k)) later rest h e =
      let (r, w, why, s2, run, promise) = rest k in
      (r, suc k + w, why, s2, run, Writes-more n c cs k w s s' s2 r why h e promise)

  loop-Writes :
      (fuel n : ℕ) (ptr : List ℕ) (s : S)
      → length ptr ≤ fuel
      → length ptr ≤ n
      → Outcome n ptr s (writen_loop sink.write fuel n ptr s)
  unfolding writen_loop
  loop-Writes fuel n [] s h e = (
    _,
    0,
    all,
    s,
    refl,
    Writes-stop n [] s s _ all emptied (ap pos (omega arith)) refl (λ p. refl),
  )
  loop-Writes zero n (c ∷ cs) s h e = absurd (omega arith)
  loop-Writes (suc fuel) n (c ∷ cs) s h e =
      let (took, s') = sink.write (c ∷ cs) s in
      after_write-Outcome n c cs s s' took
        (λ k s'. writen_loop sink.write fuel n (drop k (c ∷ cs)) s')
        (λ k.
          loop-Writes fuel n (drop k cs) s' (omega (arith, length-drop k cs))
            (omega (arith, length-drop k cs)))
        e refl

  -- `writen` on any sink returns. Its writes take the first `w` of the bytes, and add them to the sink, until
  -- all are taken, a write takes nothing, or a write fails. It returns `w`, but -1 if the failing write is the
  -- first.
  pub writen-Writes :
      (bytes : List ℕ) (s : S) → Outcome (length bytes) bytes s (writen sink.write bytes s)
  unfolding writen
  writen-Writes bytes s =
      loop-Writes (length bytes) (length bytes) bytes s (omega arith) (omega arith)
