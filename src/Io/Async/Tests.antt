-- ===== src/Io/Async/Tests.antt =====
-- The converter of my-src/Chapter-14/14-21.c on a short file, with a kernel that has every operation
-- over at the next look.
use my_apue.Prelude.{
  ℕ, suc, ◌≡◌, refl, ap, ◌∙◌, ◌≢◌, inl, inr, ◌⊎◌, true, List, [], ◌∷◌, arith, length, take,
  take-length,
}
use my_apue.Io.Async.{
  Rwop, unused, read_pending, write_pending, Buf, finished, Visit, Kernel, convert_async,
}
use my_apue.Io.Async.Buffer.{is_pending, block, Works}
use my_apue.Io.Async.Round.{AllWork, pending, Stirs}
use my_apue.Io.Async.Total.{Serves, Converted, convert_async-Converted}

-- "Ab" and a line feed
abbrev text : List ℕ
text = 65 ∷ 98 ∷ 10 ∷ []

abbrev amount : Rwop → Buf → ℕ
amount unused b = 0
amount read_pending b = length (block text b.aio_offset)
amount write_pending b = b.aio_nbytes

abbrev prompt_answer : ℕ → Buf → Visit
prompt_answer i b = record {
  completion = finished (amount b.op b);
  bytes = block text b.aio_offset;
  accepted = true;
}

abbrev prompt : Kernel
prompt = record { answers = λ r bs. prompt_answer; suspend_ok = λ r. true }

finished_inj : {m n : ℕ} → finished m ≡ finished n → n ≡ m
finished_inj e = cc

prompt-Works : (i : ℕ) (b : Buf) → Works text b (prompt_answer i b)
prompt-Works i b = record {
  no_failure = λ e. cc;
  reads_all = λ n e op.
      let is : n ≡ length (block text b.aio_offset) = finished_inj e ∙ ap (λ o. amount o b) op in
      (is, ap (λ m. take m (block text b.aio_offset)) is ∙ take-length (block text b.aio_offset));
  writes_all = λ n e op. finished_inj e ∙ ap (λ o. amount o b) op;
  takes = refl;
}

prompt-AllWork : (i : ℕ) (bs : List Buf) → AllWork text prompt_answer i bs
prompt-AllWork i [] = tt
prompt-AllWork i (b ∷ bs) = (prompt-Works i b, prompt-AllWork (suc i) bs)

busy_op : (op : Rwop) (bs : List Buf) → (is_pending op ≡ true) ⊎ (op ≡ unused)
busy_op unused bs = inr refl
busy_op read_pending bs = inl refl
busy_op write_pending bs = inl refl

prompt-Stirs : (i : ℕ) (bs : List Buf) → pending bs ≢ 0 → Stirs prompt_answer i bs
prompt-Stirs i [] h = h refl
prompt-Stirs i (b ∷ bs) h = elim (busy_op b.op bs) [
  | inl busy ↦ inl (busy, λ e. cc)
  | inr free ↦ inr (prompt-Stirs (suc i) bs (λ e. h (rw free (omega arith))))
]

prompt-Serves : Serves text prompt
prompt-Serves = record {
  works = λ r bs. prompt-AllWork 0 bs;
  suspends = λ r. refl;
  wakes = λ r bs h. prompt-Stirs 0 bs h;
}

convert_async-Converted_example : Converted text (convert_async prompt 3 10)
convert_async-Converted_example = convert_async-Converted text prompt 10 prompt-Serves (omega arith)
