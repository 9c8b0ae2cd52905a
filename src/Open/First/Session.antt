-- ===== src/Open/First/Session.antt =====
-- A whole session of my-src/Chapter-17/open-1: the lines of the client's input, the requests, the server's
-- answers, and what the client prints.
use my_apue.Prelude.{
  ℕ, suc, ◌-◌, ◌≡◌, ◌≢◌, refl, ap, sym, ◌∙◌, Option, some, Bool, true, List, [], ◌∷◌, ◌++◌, ◌==◌,
  arith, length, length-append, take-append, flatten,
}
use mathlib.Core.List.{append-nil, append_assoc}
use my_apue.Prelude.Bytes.{byte_at}
use my_apue.Prelude.Int.{ℤ, pos, negsuc}
use my_apue.Open.Passing.{Msg}
use my_apue.Open.Passing.Laws.{Text}
use my_apue.Open.Request.Text.{decimal}
use my_apue.Open.Request.Served.{Works}
use my_apue.Open.Request.{answered, Globals, Kernel}
use my_apue.Open.First.{
  handle_request, exited, serve_loop, serve, csopen_request, chopped, copy_file, client_loop,
  client_main,
}
use my_apue.Open.First.Lines.{
  Words, requests, input_lines, read_all-requests, fgets_lines-input_lines,
}
use my_apue.Open.First.Answers.{answer, request-answer}
use my_apue.Open.First.Asks.{client_fd, ask, ask-client_fd}

-- The answers to requests for reading.
abbrev pub answers : Kernel → List (List ℕ) → List (List Msg)
answers kernel [] = []
answers kernel (name ∷ names) =
    answer kernel name (kernel.open_file name (pos 0)) ∷ answers kernel names

serve_loop-handle_request :
    (kernel : Kernel) (bytes : List ℕ) (later : List (Option (List ℕ))) (sent : List (List Msg))
    (g : Globals) {msgs : List Msg} {newfd : Option ℤ} {g' : Globals}
    → bytes ≢ []
    → handle_request (suc (length bytes)) kernel bytes g ≡ answered msgs newfd g'
    → serve_loop kernel (some bytes ∷ later) sent g ≡ serve_loop kernel later (sent ++ msgs ∷ []) g'
unfolding serve_loop
serve_loop-handle_request kernel [] later sent g ne run = absurd (ne refl)
serve_loop-handle_request kernel (b ∷ bs) later sent g ne run = rw (serve_loop, run)

serve_loop-answers :
    (kernel : Kernel) (names : List (List ℕ)) (sent : List (List Msg)) (g : Globals)
    → Works kernel
    → Words names
    → serve_loop kernel (requests names) sent g ≡ exited (sent ++ answers kernel names)
unfolding serve_loop
serve_loop-answers kernel [] sent g works ws = ap exited (sym (append-nil sent))
serve_loop-answers kernel (name ∷ names) sent g works (w, short, ws) =
    let (newfd, g', run) =
      request-answer (suc (suc (suc (length (name ++ ((32 ∷ decimal (pos 0)) ++ 0 ∷ [])))))) kernel
        name (pos 0) g works w refl in
    serve_loop-handle_request kernel (csopen_request name (pos 0)) (requests names) sent g (λ e. cc)
      run
    ∙ (serve_loop-answers kernel names
          (sent ++ answer kernel name (kernel.open_file name (pos 0)) ∷ []) g' works ws
        ∙ ap exited (
            append_assoc sent (answer kernel name (kernel.open_file name (pos 0)) ∷ [])
              (answers kernel names)))

byte_at-append : (cs : List ℕ) (c : ℕ) → byte_at (cs ++ c ∷ []) (length cs) ≡ c
byte_at-append [] c = refl
byte_at-append (d ∷ cs) c = byte_at-append cs c

chopped_line : (name : List ℕ) → chopped (name ++ 10 ∷ []) ≡ name
chopped_line name =
    let size : length (name ++ 10 ∷ []) - 1 ≡ length name =
      omega (arith, length-append name (10 ∷ [])) in
    let newline : (byte_at (name ++ 10 ∷ []) (length name) == 10) ≡ true =
      ap (λ c. c == 10) (byte_at-append name 10) in
    rw size (rw newline (take-append name (10 ∷ [])))

-- What the `read`s of a descriptor return: chunks, none empty, and the end of the file.
abbrev pub reads : List (List ℕ) → List (Option (List ℕ))
reads [] = some [] ∷ []
reads (c ∷ cs) = some c ∷ reads cs

abbrev pub Filled : List (List ℕ) → Type 0
Filled [] = Unit {0}
Filled (c ∷ cs) = (c ≢ []) × Filled cs

copy_file-reads :
    (chunks : List (List ℕ)) (out : List ℕ)
    → Filled chunks
    → copy_file (λ t. true) (reads chunks) out ≡ some (out ++ flatten chunks)
unfolding copy_file
copy_file-reads [] out f = ap some (sym (append-nil out))
copy_file-reads ([] ∷ cs) out (ne, f) = absurd (ne refl)
copy_file-reads ((c ∷ chunk) ∷ cs) out (ne, f) =
    copy_file-reads cs (out ++ c ∷ chunk) f ∙ ap some (append_assoc out (c ∷ chunk) (flatten cs))

-- What the client prints of a file.
abbrev pub shown : (ℕ → ℕ) → (ℕ → List (List ℕ)) → ℤ → List ℕ
shown number chunks (negsuc e) = []
shown number chunks (pos fd) = flatten (chunks (number fd))

abbrev pub all_shown : Kernel → (ℕ → ℕ) → (ℕ → List (List ℕ)) → List (List ℕ) → List ℕ
all_shown kernel number chunks [] = []
all_shown kernel number chunks (name ∷ names) =
    shown number chunks (kernel.open_file name (pos 0)) ++ all_shown kernel number chunks names

module _ (asker : List ℕ → ℤ) (content : ℕ → List (Option (List ℕ))) (writes : List ℕ → Bool)
    (line : List ℕ) (lines : List (List ℕ)) (out : List ℕ) where
  client_skips :
      {e : ℕ}
      → asker (chopped line) ≡ negsuc e
      → client_loop asker content writes (line ∷ lines) out
        ≡ client_loop asker content writes lines out
  unfolding client_loop
  client_skips e = rw (client_loop, e)

  client_copies :
      {fd : ℕ} {out' : List ℕ}
      → asker (chopped line) ≡ pos fd
      → copy_file writes (content fd) out ≡ some out'
      → client_loop asker content writes (line ∷ lines) out
        ≡ client_loop asker content writes lines out'
  unfolding client_loop
  client_copies e c = rw (client_loop, e) (rw c refl)

module _ (kernel : Kernel) (number : ℕ → ℕ) (chunks : ℕ → List (List ℕ)) (works : Works kernel)
    (reason : Text kernel.strerror) (filled : (fd : ℕ) → Filled (chunks fd)) where
  client_line :
      (name : List ℕ) (names : List (List ℕ)) (r : ℤ) (out : List ℕ)
      → ask kernel number (chopped (name ++ 10 ∷ [])) ≡ client_fd number r
      → client_loop
          (ask kernel number)
          (λ fd. reads (chunks fd))
          (λ t. true)
          (input_lines (name ∷ names))
          out
        ≡ client_loop
            (ask kernel number)
            (λ fd. reads (chunks fd))
            (λ t. true)
            (input_lines names)
            (out ++ shown number chunks r)
  client_line name names (pos fd) out e =
      client_copies (ask kernel number) (λ fd. reads (chunks fd)) (λ t. true) (name ++ 10 ∷ [])
        (input_lines names) out e (copy_file-reads (chunks (number fd)) out (filled (number fd)))
  client_line name names (negsuc n) out e =
      client_skips (ask kernel number) (λ fd. reads (chunks fd)) (λ t. true) (name ++ 10 ∷ [])
        (input_lines names) out e
      ∙ ap
          (client_loop (ask kernel number) (λ fd. reads (chunks fd)) (λ t. true)
            (input_lines names))
          (sym (append-nil out))

  client_loop-shown :
      (names : List (List ℕ)) (out : List ℕ)
      → Words names
      → client_loop
          (ask kernel number)
          (λ fd. reads (chunks fd))
          (λ t. true)
          (input_lines names)
          out
        ≡ some (out ++ all_shown kernel number chunks names)
  unfolding client_loop
  client_loop-shown [] out ws = ap some (sym (append-nil out))
  client_loop-shown (name ∷ names) out (w, short, ws) =
      let r = kernel.open_file name (pos 0) in
      client_line name names r out (
        ap (ask kernel number) (chopped_line name)
        ∙ ask-client_fd kernel number name r works w reason refl)
      ∙ (client_loop-shown names (out ++ shown number chunks r) ws
          ∙ ap some
              (append_assoc out (shown number chunks r) (all_shown kernel number chunks names)))

  -- Both programs on lines of one word each, of 4088 bytes at most, over pipes that take everything: the
  -- server, which reads at most `MAXLINE` bytes at a time, answers the requests in their order, each with the
  -- descriptor of the file or with the text of the error, and ends with `exit(0)` when the client is gone; the
  -- client, to which each message comes whole, prints the contents of the files that can be opened, in their
  -- order, however the reads cut them, and nothing of the others.
  pub client_main-serve :
      (names : List (List ℕ)) (g : Globals)
      → Words names
      → (serve kernel (requests names) [] g ≡ exited (answers kernel names))
        × (client_main
              (ask kernel number)
              (λ fd. reads (chunks fd))
              (λ t. true)
              (flatten (input_lines names))
              []
            ≡ some (all_shown kernel number chunks names))
  unfolding client_main serve
  client_main-serve names g ws = (
    rw (read_all-requests names ws) (serve_loop-answers kernel names [] g works ws),
    rw (fgets_lines-input_lines (length (flatten (input_lines names))) names ws (omega arith))
        (client_loop-shown names [] ws),
  )
