-- ===== src/Io/Rot/Laws.antt =====
-- What the converter of my-src/Chapter-14/14-20.c writes.
use mathlib.Core.Path.{subst}
use mathlib.Core.List.{append-nil, append_assoc, map-append}
use my_apue.Prelude.{
  ℕ, zero, suc, ◌<◌, ◌≡◌, refl, sym, ap, ◌∙◌, ◌⊎◌, ◌≢◌, inl, inr, Option, none, some, true, List,
  [], ◌∷◌, ◌++◌, map, ◌==◌, arith, length, length-append, length-map, take-length,
}
use my_apue.Io.Full.Reads.{Source}
use my_apue.Io.Full.Writes.{Sink}
use my_apue.Io.Rot.Letters.{rot13, translate-rot13}
use my_apue.Io.Rot.{translate, bsz, Ended, exited, after_write, after_read, convert, rot_main}

-- Values of an `unsigned char`.
abbrev pub IsBytes : List ℕ → Type 0
IsBytes [] = Unit {0}
IsBytes (c ∷ cs) = (c < 256) × IsBytes cs

IsBytes-append : (cs ds : List ℕ) → IsBytes (cs ++ ds) → IsBytes cs × IsBytes ds
IsBytes-append [] ds h = (tt, h)
IsBytes-append (c ∷ cs) ds (small, h) =
    let (left, right) = IsBytes-append cs ds h in ((small, left), right)

map-translate : (cs : List ℕ) → IsBytes cs → map translate cs ≡ map rot13 cs
map-translate [] h = refl
map-translate (c ∷ cs) (small, h) = rw (translate-rot13 c small, map-translate cs h) refl

module _ {R W : Type 0} (source : Source R) (sink : Sink W)
    (full : (bytes : List ℕ) (ofd : W) → (sink.write bytes ofd).0 ≡ some (length bytes)) where
  -- The reads from `ifd` on give `bytes`, each of them some, and lead to `last`.
  pub data Got : R → List ℕ → R → Type 0 where
    nothing_yet : {ifd : R} → Got ifd [] ifd
    some_more :
        {ifd ifd1 last : R} {bytes later : List ℕ}
        → source.read bsz ifd ≡ (some bytes, ifd1)
        → bytes ≢ []
        → Got ifd1 later last
        → Got ifd (bytes ++ later) last

  -- What is promised of the run: it exits, `bytes` have been read, and written with 13 places between; the
  -- read after them comes to the end of the file, where nothing is left, or fails.
  pub record Converts (ifd : R) (ofd : W) (out : Ended R W) : Type 0 where
    pub bytes : List ℕ
    pub last : R
    pub ifd' : R
    pub ofd' : W
    pub exits : out ≡ exited ifd' ofd'
    pub got : Got ifd bytes last
    pub consumed : source.content ifd ≡ bytes ++ source.content ifd'
    pub written : sink.content ofd' ≡ sink.content ofd ++ map rot13 bytes
    pub whole :
        (source.read bsz last ≡ (some [], ifd')) × (source.content ifd' ≡ [])
        ⊎ (source.read bsz last ≡ (none, ifd'))

  Converts-stop :
      (ifd ifd' : R) (ofd : W)
      → source.content ifd ≡ source.content ifd'
      → (source.read bsz ifd ≡ (some [], ifd')) × (source.content ifd' ≡ [])
        ⊎ (source.read bsz ifd ≡ (none, ifd'))
      → Converts ifd ofd (exited ifd' ofd)
  Converts-stop ifd ifd' ofd same whole = record {
    bytes = [];
    last = ifd;
    got = nothing_yet;
    ifd' = ifd';
    ofd' = ofd;
    exits = refl;
    consumed = same;
    written = sym (append-nil (sink.content ofd));
    whole = whole;
  }

  Converts-more :
      (chunk : List ℕ) (ifd ifd1 : R) (ofd ofd1 : W) (out : Ended R W)
      → source.read bsz ifd ≡ (some chunk, ifd1)
      → chunk ≢ []
      → source.content ifd ≡ chunk ++ source.content ifd1
      → sink.content ofd1 ≡ sink.content ofd ++ map rot13 chunk
      → Converts ifd1 ofd1 out
      → Converts ifd ofd out
  Converts-more chunk ifd ifd1 ofd ofd1 out e ne read written h = record {
    bytes = chunk ++ h.bytes;
    last = h.last;
    got = some_more e ne h.got;
    ifd' = h.ifd';
    ofd' = h.ofd';
    exits = h.exits;
    consumed = read ∙ ap (λ x. chunk ++ x) h.consumed ∙ sym (append_assoc chunk h.bytes _);
    written =
        h.written
        ∙ ap (λ x. x ++ map rot13 h.bytes) written
        ∙ append_assoc (sink.content ofd) (map rot13 chunk) (map rot13 h.bytes)
        ∙ ap (λ x. sink.content ofd ++ x) (sym (map-append rot13 chunk h.bytes));
    whole = h.whole;
  }

  after_read-Converts :
      (ifd ifd' : R) (ofd : W) (got : Option (List ℕ)) (later : R → W → Ended R W)
      → ((c : ℕ) (cs : List ℕ) (ofd1 : W)
          → got ≡ some (c ∷ cs)
          → Converts ifd' ofd1 (later ifd' ofd1))
      → IsBytes (source.content ifd)
      → source.read bsz ifd ≡ (got, ifd')
      → Converts ifd ofd (after_read sink.write ofd later (got, ifd'))
  after_read-Converts ifd ifd' ofd none later rest b e =
      Converts-stop ifd ifd' ofd (sym (source.keeps bsz ifd ifd' e)) (inr e)
  after_read-Converts ifd ifd' ofd (some []) later rest b e =
      let (here, _) = source.delivers bsz ifd ifd' [] e in
      Converts-stop ifd ifd' ofd here (inl (e, sym here ∙ source.at_end 4095 ifd ifd' [] e refl))
  after_read-Converts ifd ifd' ofd (some (c ∷ cs)) later rest b e =
      let (here, _) = source.delivers bsz ifd ifd' (c ∷ cs) e in
      let (chunk-IsBytes, _) =
        IsBytes-append (c ∷ cs) (source.content ifd') (subst IsBytes here b) in
      let out : List ℕ = map translate (c ∷ cs) in
      let ofd1 = (sink.write out ofd).1 in
      let took : sink.write out ofd ≡ (some (length out), ofd1) =
        ap (λ x. (x, ofd1)) (full out ofd) in
      let (new, _) = sink.takes out ofd ofd1 (length out) took in
      let all : (length out == length (c ∷ cs)) ≡ true =
        ground (arith, length-map translate (c ∷ cs)) in
      subst (λ x. Converts ifd ofd (after_write (length (c ∷ cs)) ifd' (later ifd') x)) (sym took)
        (rw all (
          Converts-more (c ∷ cs) ifd ifd' ofd ofd1 _ e (λ p. cc) here
            (new
              ∙ ap (λ x. sink.content ofd ++ x) (take-length out)
              ∙ ap (λ x. sink.content ofd ++ x) (map-translate (c ∷ cs) chunk-IsBytes))
            (rest c cs ofd1 refl)))

  -- On any input of bytes and an output that takes all that is written, the loop exits.
  pub convert-Converts :
      (fuel : ℕ) (ifd : R) (ofd : W)
      → length (source.content ifd) < fuel
      → IsBytes (source.content ifd)
      → Converts ifd ofd (convert source.read sink.write fuel ifd ofd)
  unfolding convert
  convert-Converts zero ifd ofd h b = absurd (omega arith)
  convert-Converts (suc fuel) ifd ofd h b =
      let (got, ifd') = source.read bsz ifd in
      after_read-Converts ifd ifd' ofd got
        (λ ifd' ofd'. convert source.read sink.write fuel ifd' ofd')
        (λ c cs ofd1 is.
          let (here, _) = source.delivers bsz ifd ifd' (c ∷ cs) (ap (λ x. (x, ifd')) is) in
          let (_, later) = IsBytes-append (c ∷ cs) (source.content ifd') (subst IsBytes here b) in
          convert-Converts fuel ifd' ofd1
            (omega (arith, ap (λ x. length x) here, length-append (c ∷ cs) (source.content ifd')))
            later)
        b refl

  abbrev pub Enough : ℕ → Option R → Type 0
  Enough fuel none = Unit {0}
  Enough fuel (some ifd) = (length (source.content ifd) < fuel) × IsBytes (source.content ifd)

  -- What `main` comes to, by what opens.
  abbrev pub MainEnds : Option R → Option W → Option (Ended R W) → Type 0
  MainEnds none ofd r = r ≡ none
  MainEnds (some ifd) none r = r ≡ none
  MainEnds (some ifd) (some ofd) r = (out : Ended R W) × (r ≡ some out) × Converts ifd ofd out

  -- With two arguments, fuel above the length of the input, an input of bytes, and an output that takes all that
  -- is written, `main` ends without a conversion when a file does not open. Else it exits, and has written what
  -- it has read, each letter moved by 13 places in its alphabet and each other byte up or down by 13. The
  -- read after that comes to the end of the file, and nothing is left, or it fails.
  pub rot_main-MainEnds :
      (fuel : ℕ) (ifd : Option R) (ofd : Option W)
      → Enough fuel ifd
      → MainEnds ifd ofd (rot_main source.read sink.write fuel 3 ifd ofd)
  unfolding rot_main
  rot_main-MainEnds fuel none ofd h = refl
  rot_main-MainEnds fuel (some ifd) none h = refl
  rot_main-MainEnds fuel (some ifd) (some ofd) (h, b) =
      (convert source.read sink.write fuel ifd ofd, refl, convert-Converts fuel ifd ofd h b)
