-- ===== src/Recordio/Streams.antt =====
-- The two AppendRecord of io/logio/recordio.cc, for a stream and for a buffer, compared.
use whisperlib.Prelude.{
  ℕ, zero, suc, ◌+◌, ◌≤◌, ◌<◌, ◌^◌, leb, ◌≡◌, refl, sym, ap, ◌∙◌, Bool, true, false, Bool-cases,
  inl, inr, List, [], ◌∷◌, length, length-drop, take, drop, arith,
}
use whisperlib.Prelude.Outcome.{
  Outcome, done, abort, starved, ◌>>=◌, branch, Ensures, Ensures-branch, Ensures-check,
  Ensures-pure,
}
use whisperlib.Recordio.Writer.{
  Zlib, RecordWriter, block_trailer_end, has_cont, first_flag, is_empty, available, write_piece,
  finalize_content, dump, append_buffer_loop, append_stream_loop, append_zipped, append_stream,
  append_buffer,
}
use whisperlib.Recordio.Appending.{HasRoom, available_lem}

-- Calls that go on alike from every result that there can be end alike.
bind-cong :
    {A B : Type 0} (P : A → Type 0) (m : Outcome A) (f g : A → Outcome B)
    → Ensures P m
    → ((a : A) → P a → f a ≡ g a)
    → (m >>= f) ≡ (m >>= g)
unfolding Ensures
bind-cong P (done a) f g h k = k a h
bind-cong P abort f g h k = refl
bind-cong P starved f g h k = refl

not_taken : {A : Type 0} (b : Bool) (x y : Outcome A) → b ≡ false → branch b x y ≡ y
unfolding branch
not_taken true x y e = absurd cc
not_taken false x y e = refl

nonempty : (l : List ℕ) → 1 ≤ length l → is_empty l ≡ false
nonempty [] h = absurd (omega (arith, h))
nonempty (b ∷ bs) h = refl

nil_of : (l : List ℕ) → is_empty l ≡ true → l ≡ []
nil_of [] h = refl
nil_of (b ∷ bs) h = cc

module _ (zlib : Zlib) where
  finalize-empties :
      (w : RecordWriter) (out : List ℕ)
      → Ensures
          (λ r. (r.0.content ≡ []) × (r.0.block_size ≡ w.block_size))
          (finalize_content zlib w out)
  unfolding finalize_content
  finalize-empties w out =
      let Q = λ (r : RecordWriter × List ℕ). (r.0.content ≡ []) × (r.0.block_size ≡ w.block_size) in
      Ensures-branch Q (is_empty w.content) _ _
        (λ e. Ensures-pure Q (w, out) (nil_of w.content e, refl))
        (λ e.
          Ensures-check Q (leb (length w.content + block_trailer_end) w.block_size) _
            λ k. Ensures-pure Q _ (refl, refl))

  -- After its last piece the loop for a stream runs once more, and finds the stream empty.
  loops_agree :
      (fuel : ℕ) (w : RecordWriter) (bytes out : List ℕ) (first : Bool) (n : ℕ)
      → HasRoom w
      → w.block_size < 2 ^ 24
      → 1 ≤ length bytes
      → length bytes < fuel
      → append_stream_loop zlib (suc fuel) w bytes out first n
        ≡ append_buffer_loop zlib fuel w bytes out first n
  unfolding append_stream_loop append_buffer_loop branch write_piece
  loops_agree zero w bytes out first n r k b f = absurd (omega (arith, f))
  loops_agree (suc fuel) w bytes out first n r k b f =
      let a = available_lem w r k in
      let some = nonempty bytes b in
      elim (Bool-cases (leb (length bytes) (available w))) [
        | inl e ↦ rw (some, e)
        | inr e ↦
            let more_than : available w < length bytes = ground (arith, e) in
            let ll = length-drop (available w) bytes in
            let flags = has_cont + first_flag first in
            let w1 = write_piece w flags (take (available w) bytes) in
            rw (some, e)
              (bind-cong (λ r. (r.0.content ≡ []) × (r.0.block_size ≡ w1.block_size))
                (finalize_content zlib w1 out)
                (λ t.
                  append_stream_loop zlib (suc fuel) t.0 (drop (available w) bytes) t.1 false
                    (n + 1))
                (λ t. append_buffer_loop zlib fuel t.0 (drop (available w) bytes) t.1 false (n + 1))
                (finalize-empties w1 out)
                (λ t g.
                  let size : t.0.block_size ≡ w.block_size = g.1 in
                  loops_agree fuel t.0 (drop (available w) bytes) t.1 false (n + 1)
                    (omega (arith, ap (λ l. length l) g.0, size, r)) (omega (arith, size, k))
                    (omega (arith, ll, more_than)) (omega (arith, ll, more_than, f, a, r))))
      ]

  no_round :
      (w : RecordWriter) (out : List ℕ)
      → (append_stream_loop zlib 3 w [] out true 0 >>= λ t. dump zlib t.0 t.1 t.2)
        ≡ dump zlib w out 0
  unfolding append_stream_loop branch
  no_round w out = refl

  -- On a writer that does not compress and has room for a byte of a record, AppendRecord of a stream that is
  -- not empty does what AppendRecord of its bytes does. AppendRecord of an empty stream puts no record into
  -- the content: it only closes the block if the content is large enough.
  pub append_stream-append_buffer :
      (w : RecordWriter) (bytes out : List ℕ)
      → w.deflates ≡ false
      → HasRoom w
      → w.block_size < 2 ^ 24
      → 1 ≤ length bytes
      → (append_stream zlib w bytes out ≡ append_buffer zlib w bytes out)
        × (append_stream zlib w [] out ≡ dump zlib w out 0)
  unfolding append_stream append_buffer append_zipped
  append_stream-append_buffer w bytes out plain r k b =
      let same =
        ap (λ m. m >>= λ t. dump zlib t.0 t.1 t.2)
          (loops_agree (suc (suc (length bytes))) w bytes out true 0 r k b (omega arith)) in
      (
        not_taken w.deflates _ _ plain ∙ same ∙ sym (not_taken w.deflates _ _ plain),
        not_taken w.deflates _ _ plain ∙ no_round w out,
      )
