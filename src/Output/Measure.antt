-- ===== src/Output/Measure.antt =====
-- The two functions of src/mms_output_buffer.c that measure an encoding by writing it and taking it
-- back.
use broncho_mms.Output.Valid.{contents, most_room, IsValid, Appended, bytes_of, length-contents}
use broncho_mms.Output.State.{Out, OutputBuffer, max_transactions}
use broncho_mms.Memory.{Allocator, IsAllocator, Serves}
use broncho_mms.Output.Transactions.{
  output_buffer_get_long_int_bytes, sub32, output_buffer_get_encoded_string_bytes,
  output_buffer_transaction_data_length,
}
use broncho_mms.Base.{
  refl, ℕ, List, ◌≡◌, some, take, ◌++◌, sym, ap, ◌∙◌, take-take, arith, take-append, ◌<◌, ◌^◌,
  length, ◌≤◌, ◌+◌, subst, ==_iff, [], append-nil,
}
use broncho_mms.Output.Integers.{Fits}
use broncho_mms.Wire.{long_int_bytes}
use broncho_mms.Output.Lengths.{put_long_int-Appends}
use broncho_mms.Wire.Sizes.{length-long_int_bytes}
use broncho_mms.Output.Log.{Log, Implements, begin-Steps, Implements-append}
use broncho_mms.Output.Strings.{
  encoded_string_bytes, put_encoded_string-Appends, encoded_string_size,
}
use broncho_mms.Output.Leave.{rollback-Steps}

-- The call returns `n` and leaves the buffer with the contents and marks that it had.
pub record Measures (m : Out ℕ) (o : OutputBuffer) (n : ℕ) : Type 0 where
  pub after : OutputBuffer
  pub runs : m o ≡ some (n, after)
  pub valid : IsValid after
  pub same_contents : contents after ≡ contents o
  pub same_length : after.data_length ≡ o.data_length
  pub same_begin : after.transaction_begin ≡ o.transaction_begin
  pub same_marks : after.transactions ≡ o.transactions
  pub same_nr : after.transaction_nr ≡ o.transaction_nr

-- Measuring appends nothing.
pub Measures-Appended :
    {m : Out ℕ} {o : OutputBuffer} {n : ℕ} (h : Measures m o n) → Appended o [] h.after
Measures-Appended {o = o} h = record {
  valid = h.valid;
  shows = h.same_contents ∙ sym (append-nil (contents o));
  counts = h.same_length ∙ omega arith;
  same_begin = h.same_begin;
  same_marks = h.same_marks;
  same_nr = h.same_nr;
}

-- What was appended is gone once the length is set back.
taken_back :
    {o o' : OutputBuffer} {bytes : List ℕ}
    → IsValid o
    → Appended o bytes o'
    → bytes_of o'.buffer o.data_length ≡ contents o
unfolding contents
taken_back {o} {o'} {bytes} v p =
    let whole : take o'.data_length p.valid.block ≡ contents o ++ bytes =
      sym (ap (λ b. bytes_of b o'.data_length) p.valid.held) ∙ p.shows in
    ap (λ b. bytes_of b o.data_length) p.valid.held
    ∙ sym (take-take o.data_length o'.data_length p.valid.block (omega (arith, p.counts)))
    ∙ ap (take o.data_length) whole
    ∙ take-append (contents o) bytes o.data_length (sym (length-contents o v))

module _ (a : Allocator) (good : IsAllocator a) (serves : Serves a most_room) where
  -- On a valid buffer with room, with an allocator that serves every request up to 3 GiB,
  -- `get_long_int_bytes` of a 32-bit number returns the length of the Long-integer that
  -- `put_long_int` writes for it, and leaves a valid buffer with the same contents.
  pub get_long_int_bytes-Measures :
      (o : OutputBuffer) (n : ℕ)
      → IsValid o
      → Fits o 5
      → n < 2 ^ 32
      → Measures (output_buffer_get_long_int_bytes a n) o (length (long_int_bytes n))
  unfolding output_buffer_get_long_int_bytes contents
  get_long_int_bytes-Measures o n v fits h =
      let put = put_long_int-Appends a good serves o n v fits h in
      let p = put.appended in
      let few : length (long_int_bytes n) ≤ 5 = ground (arith, length-long_int_bytes n) in
      let size : sub32 put.after.data_length o.data_length ≡ length (long_int_bytes n) =
        omega (arith, p.counts) in
      record {
        after = record put.after { data_length = o.data_length };
        runs =
            rw put.runs (ap (λ t. some (t, record put.after { data_length = o.data_length })) size);
        valid = record {
          block = p.valid.block;
          held = p.valid.held;
          room = p.valid.room;
          spare = omega (arith, p.valid.spare, p.counts);
          small = p.valid.small;
        };
        same_contents = taken_back v p;
        same_length = refl;
        same_begin = p.same_begin;
        same_marks = p.same_marks;
        same_nr = p.same_nr;
      }

  -- On a buffer with room that implements a log with fewer than eight marks, with an allocator
  -- that serves every request up to 3 GiB, `get_encoded_string_bytes` of a text with a character
  -- set in 1 .. 2^31 - 1 passes its assertion, returns the length of what `put_encoded_string`
  -- writes for them, and leaves a buffer that implements the same log.
  pub get_encoded_string_bytes-Implements :
      (o : OutputBuffer) (g : Log) (s : List ℕ) (charset : ℕ)
      → Implements o g
      → length g.marks < max_transactions
      → Fits o (length s + 13)
      → 0 < charset
      → charset < 2 ^ 31
      → (o' : OutputBuffer) × (output_buffer_get_encoded_string_bytes a (some s) charset o
          ≡ some (length (encoded_string_bytes charset s), o'))
        × Implements o' g
  unfolding output_buffer_get_encoded_string_bytes output_buffer_transaction_data_length
  get_encoded_string_bytes-Implements o g s charset h free fits pos small =
      let bytes = encoded_string_bytes charset s in
      let size = length-contents o h.valid in
      let started = begin-Steps h free in
      let o₁ : OutputBuffer = started.after in
      let size₁ = length-contents o₁ started.implements.valid in
      let same₁ : o₁.data_length ≡ o.data_length =
        omega (arith, size, size₁, ap length h.holds, ap length started.implements.holds) in
      let put =
        put_encoded_string-Appends a good serves o₁ s charset started.implements.valid
          (omega (arith, same₁)) pos small in
      let appended = Implements-append started.implements put.appended in
      let undone = rollback-Steps put.after (g.bytes ++ bytes) (length g.bytes) g.marks appended in
      let cut : take (length g.bytes) (g.bytes ++ bytes) ≡ g.bytes =
        take-append g.bytes bytes (length g.bytes) refl in
      let back : Implements undone.after g =
        subst (λ (t : List ℕ). Implements undone.after (record g { bytes = t })) cut
          undone.implements in
      let same : undone.after.data_length ≡ o.data_length = omega (
        arith,
        size,
        length-contents undone.after back.valid,
        ap length h.holds,
        ap length back.holds,
      ) in
      let count : sub32 put.after.data_length put.after.transaction_begin ≡ length bytes = omega (
        arith,
        put.appended.counts,
        appended.current,
        size₁,
        ap length started.implements.holds,
        encoded_string_size charset s,
      ) in
      (
        undone.after,
        rw (started.runs, put.runs, undone.runs, count, same)
            (rw ((==_iff o.data_length o.data_length).1 refl)),
        back,
      )
