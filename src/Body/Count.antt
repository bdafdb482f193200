-- ===== src/Body/Count.antt =====
-- The count of the parts, written by `mms_body_pack` and read by `mms_body_unpack` of src/mms_body.c.
use broncho_mms.Base.{
  [], ◌∷◌, some, ℕ, ◌<◌, ◌^◌, ◌≡◌, if◌then◌else◌, leb, ◌+◌, lt-cases, inr, le→leb, inl, lt→leb,
  arith, subst, List, lt→ltb, ◌∙◌, ap, sym, refl,
}
use broncho_mms.Input.Decode.{input_buffer_get_var_int}
use broncho_mms.Output.Encode.{output_buffer_put_value_length}
use broncho_mms.Memory.{Allocator, IsAllocator, Serves}
use broncho_mms.Input.State.{In, InputBuffer}
use broncho_mms.Output.Valid.{most_room, IsValid, same_end}
use broncho_mms.Output.State.{Out, MmsResult, OutputBuffer, result_ok}
use broncho_mms.Output.Integers.{Fits}
use broncho_mms.RoundTrip.{Receives, Receives-At}
use broncho_mms.Output.Lengths.{put_value_length-Appends}
use broncho_mms.Input.Integers.{get_var_int-Reads}
use broncho_mms.Wire.{value_length_bytes, var_int_bytes}
use broncho_mms.Input.Reads.{At, Reads, advance, Reads-eq, At-first}

-- `mms_output_buffer_put_value_length(output, length)`
unfoldable pub put_part_count : Allocator → ℕ → Out MmsResult
unfolding output_buffer_put_value_length
put_part_count a nr = output_buffer_put_value_length a nr

-- `nr = mms_input_buffer_get_var_int(input)`
unfoldable pub get_part_count : In ℕ
unfolding input_buffer_get_var_int
get_part_count = input_buffer_get_var_int

-- A byte below 128 is a whole uintvar.
one_byte :
    {i : InputBuffer} (n : ℕ) → n < 128 → At i (n ∷ []) → Reads input_buffer_get_var_int i 1 n
one_byte {i} n h at =
    let bytes : var_int_bytes n ≡ n ∷ [] = rw (lt→ltb n 128 h) (ap (λ t. t ∷ []) (omega arith)) in
    Reads-eq (get_var_int-Reads n (omega arith) (subst (λ (t : List ℕ). At i t) (sym bytes) at))
      (rw (lt→ltb n 128 h)) refl

module _ (a : Allocator) (good : IsAllocator a) (serves : Serves a most_room) {o o' : OutputBuffer}
    {i : InputBuffer} (v : IsValid o) where
  -- After `mms_body_pack` has written the number of parts, below 2^32, to a valid buffer with
  -- room, with an allocator that serves every request up to 3 GiB, `mms_body_unpack` of a message
  -- received with the cursor where the writing began and the limit at or behind its end takes one
  -- byte for the number of parts: up to 30 it reads what was written, and from 31 on it reads 31.
  pub get_part_count-put_part_count :
      (nr : ℕ)
      → Fits o 6
      → nr < 2 ^ 32
      → put_part_count a nr o ≡ some (result_ok, o')
      → Receives i o o'
      → get_part_count i ≡ some (if leb nr 30 then nr else 31, record i { offset = i.offset + 1 })
  unfolding put_part_count get_part_count
  get_part_count-put_part_count nr fits h run r =
      let p = same_end (put_value_length-Appends a good serves o nr v fits h) run in
      let at = Receives-At v p r in
      elim (lt-cases 30 nr) [
        | inr few ↦
            let bytes : value_length_bytes nr ≡ nr ∷ [] = rw (le→leb nr 30 few) in
            (one_byte nr (omega arith) (subst (λ (t : List ℕ). At i t) bytes at)).runs
            ∙ ap (λ b. some (if b then nr else 31, advance i 1)) (sym (le→leb nr 30 few))
        | inl many ↦
            let bytes : value_length_bytes nr ≡ 31 ∷ var_int_bytes nr = rw (lt→leb nr 30 many) in
            (one_byte 31 (omega arith) (
              At-first i (31 ∷ []) (var_int_bytes nr)
                (subst (λ (t : List ℕ). At i t) bytes at))).runs
            ∙ ap (λ b. some (if b then nr else 31, advance i 1)) (sym (lt→leb nr 30 many))
      ]
