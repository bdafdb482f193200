-- ===== src/RoundTrip.antt =====
-- What src/mms_output_buffer.c writes, src/mms_input_buffer.c reads back: a message is built in an
-- output buffer and received in an input buffer.
pub mod Values
pub mod EncodedStrings
pub mod Headers
use broncho_mms.Base.{
  ℕ, ◌+◌, ◌≤◌, ◌<◌, ◌^◌, ◌≡◌, sym, ap, ◌∙◌, ◌++◌, arith, drop, length, List, append_assoc,
  drop-append, some,
}
use broncho_mms.Memory.{Block}
use broncho_mms.Output.State.{OutputBuffer}
use broncho_mms.Output.Valid.{contents, IsValid, Appended, length-contents}
use broncho_mms.Input.State.{InputBuffer, In}
use broncho_mms.Input.Reads.{At, Reads}

-- The input buffer holds the contents of `o'`, perhaps with more behind them, its cursor stands
-- where `o` ended, and it may read at least to the end of `o'`.
pub record Receives (i : InputBuffer) (o o' : OutputBuffer) : Type 0 where
  pub tail : Block
  pub block : i.buffer ≡ contents o' ++ tail
  pub start : i.offset ≡ o.data_length
  pub reach : o'.data_length ≤ i.limit
  pub small : i.limit < 2 ^ 32

-- The input buffer after it has read all that was written.
abbrev pub read_up_to : InputBuffer → OutputBuffer → InputBuffer
read_up_to i o' = record i { offset = o'.data_length }

module _ {i : InputBuffer} {o o' : OutputBuffer} {bytes : List ℕ} (v : IsValid o)
    (p : Appended o bytes o') (r : Receives i o o') where
  -- The bytes appended stand at the cursor.
  pub Receives-At : At i bytes
  Receives-At = record {
    rest = r.tail;
    stands =
        ap (drop i.offset)
          (r.block ∙ ap (λ t. t ++ r.tail) p.shows ∙ append_assoc (contents o) bytes r.tail)
        ∙ drop-append (contents o) (bytes ++ r.tail) i.offset (r.start ∙ sym (length-contents o v));
    inside = omega (arith, r.start, p.counts, r.reach);
    small = r.small;
  }

  -- A reader that takes them returns what it makes of them, at the end of the message.
  pub Receives-Reads :
      {A : Type 0} {m : In A} {a : A} (n : ℕ)
      → n ≡ length bytes
      → Reads m i n a
      → m i ≡ some (a, read_up_to i o')
  Receives-Reads {a} n e h =
      h.runs ∙ ap (λ t. some (a, record i { offset = t })) (omega (arith, r.start, p.counts))
