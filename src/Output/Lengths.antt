-- ===== src/Output/Lengths.antt =====
-- The encoders of variable length write the formats of Wire: uintvar, Short-, Long- and
-- Integer-values, Value-lengths.
use broncho_mms.Base.{
  ◌>>◌, pure, ℕ, zero, suc, ◌*◌, ◌/◌, ◌%◌, ◌^◌, ◌≤◌, ◌<◌, ◌≡◌, refl, ap, arith, [], ◌∷◌, ◌==◌, inl,
  inr, lt-cases, le→leb, lt→leb, false, bit_or, bit_and, length,
}
use broncho_mms.Memory.{Allocator, IsAllocator, Serves}
use broncho_mms.Output.State.{OutputBuffer, Out, MmsResult, result_ok}
use broncho_mms.Output.Integers.{Fits, put_int8-Appends, put_septets-Appends}
use broncho_mms.Output.Valid.{
  IsValid, Appends, most_room, Appends-eq, Appends-ok, Appends-then, Appended-refl, Appends-runs,
}
use broncho_mms.Output.Encode.{
  output_buffer_put_int, output_buffer_put_var_int, output_buffer_put_value_length, put_octets,
  output_buffer_put_short_int, output_buffer_put_long_int, read_array, uchar,
  output_buffer_put_int8,
}
use broncho_mms.Output.Digits.{
  little_endian, little_endian_at, skip_empty_top, length-little_endian, octets_lem,
}
use broncho_mms.Wire.{
  var_int_bytes, long_int_bytes, int_bytes, value_length_bytes, short_int_bytes, big_endian,
  octet_count, top_group,
}
use broncho_mms.Base.Bits.{bit_or_0x80, bit_and_0xff}

module _ (a : Allocator) (good : IsAllocator a) (serves : Serves a most_room) where
  -- On a valid buffer with room, with an allocator that serves every request up to 3 GiB,
  -- `put_var_int` of a 32-bit number succeeds and appends its shortest uintvar: groups of seven
  -- bits, highest first, all but the last with the top bit set.
  pub put_var_int-Appends :
      (o : OutputBuffer) (n : ℕ)
      → IsValid o
      → Fits o 5
      → n < 2 ^ 32
      → Appends (output_buffer_put_var_int a n) o (var_int_bytes n)
  unfolding output_buffer_put_var_int
  put_var_int-Appends o n v fits h = elim (lt-cases 0 n) [
    | inr none_left ↦
        let e : n ≡ 0 = omega arith in
        rw e (Appends-ok (put_int8-Appends a good serves o 0 v (omega arith)))
    | inl pos ↦
        let ne : (n == 0) ≡ false = ground arith in
        Appends-runs (rw (ne, skip_empty_top n pos h)) (
          Appends-ok
            (put_septets-Appends a good serves (top_group n) o n (ground arith) v (ground arith)))
  ]

  pub put_short_int-Appends :
      (o : OutputBuffer) (n : ℕ)
      → IsValid o
      → Fits o 1
      → n < 128
      → Appends (output_buffer_put_short_int a n) o (short_int_bytes n)
  unfolding output_buffer_put_short_int
  put_short_int-Appends o n v fits h =
      Appends-eq (put_int8-Appends a good serves o (uchar (bit_or n 0x80)) v fits)
        (ap (λ t. t ∷ []) (omega (arith, bit_or_0x80 n h)))

  put_octets-Appends :
      (k i : ℕ) (o : OutputBuffer) (n : ℕ)
      → i ≤ k
      → IsValid o
      → Fits o i
      → Appends (put_octets a i (little_endian k n)) o (big_endian i n)
  unfolding put_octets read_array
  put_octets-Appends k zero o n h v fits = record {
    after = o;
    runs = refl;
    appended = Appended-refl v;
  }
  put_octets-Appends k (suc i) o n h v fits = Appends-runs (rw (little_endian_at k i n h)) (
      Appends-then (put_int8-Appends a good serves o (n / 2 ^ (8 * i) % 256) v (omega arith))
        (λ o' p. put_octets-Appends k i o' n (omega arith) p.valid (omega (arith, p.counts))))

  -- On a valid buffer with room, with an allocator that serves every request up to 3 GiB,
  -- `put_long_int` of a 32-bit number succeeds and appends its Long-integer: the least count of
  -- bytes, at least one, and the bytes, highest first.
  pub put_long_int-Appends :
      (o : OutputBuffer) (n : ℕ)
      → IsValid o
      → Fits o 5
      → n < 2 ^ 32
      → Appends (output_buffer_put_long_int a n) o (long_int_bytes n)
  unfolding output_buffer_put_long_int
  put_long_int-Appends o n v fits h = elim (lt-cases 0 n) [
    | inr none_left ↦
        let e : n ≡ 0 = omega arith in
        rw e (
          Appends-then (put_int8-Appends a good serves o 1 v (omega arith)) (λ o' p.
            Appends-ok (put_int8-Appends a good serves o' 0 p.valid (omega (arith, p.counts)))))
    | inl pos ↦
        let ne : (n == 0) ≡ false = ground arith in
        let k : ℕ = octet_count n in
        let few : k ≤ 4 = ground arith in
        let put : ℕ → Out MmsResult = λ m. (do
          output_buffer_put_int8 a (uchar m)
          put_octets a m (little_endian k n)
          pure result_ok) in
        let size : length (little_endian k n) ≡ k = length-little_endian k n in
        Appends-runs (rw (ne, octets_lem n pos h) (ap (λ (m : ℕ). put m o) size)) (
          Appends-then
            (Appends-eq (put_int8-Appends a good serves o (uchar k) v (omega arith))
              (ap (λ t. t ∷ []) (omega arith)))
            (λ o' p.
              Appends-ok
                (put_octets-Appends k k o' n (omega arith) p.valid (omega (arith, p.counts)))))
  ]

  pub put_int-Appends :
      (o : OutputBuffer) (n : ℕ)
      → IsValid o
      → Fits o 5
      → n < 2 ^ 32
      → Appends (output_buffer_put_int a n) o (int_bytes n)
  unfolding output_buffer_put_int
  put_int-Appends o n v fits h = elim (lt-cases 0x7f n) [
    | inr short ↦ rw (le→leb n 0x7f short) (put_short_int-Appends o n v (omega arith) (omega arith))
    | inl long ↦ rw (lt→leb n 0x7f long) (put_long_int-Appends o n v fits h)
  ]

  -- On a valid buffer with room, with an allocator that serves every request up to 3 GiB,
  -- `put_value_length` of a 32-bit number succeeds and appends its Value-length: one byte up to
  -- 30, else 31 and the uintvar.
  pub put_value_length-Appends :
      (o : OutputBuffer) (n : ℕ)
      → IsValid o
      → Fits o 6
      → n < 2 ^ 32
      → Appends (output_buffer_put_value_length a n) o (value_length_bytes n)
  unfolding output_buffer_put_value_length
  put_value_length-Appends o n v fits h = elim (lt-cases 30 n) [
    | inr short ↦ rw (le→leb n 30 short) (
        Appends-ok (
          Appends-eq (put_int8-Appends a good serves o (uchar (bit_and n 0xff)) v (omega arith))
            (ap (λ t. t ∷ []) (omega (arith, bit_and_0xff n)))))
    | inl long ↦ rw (lt→leb n 30 long) (
        Appends-then (put_int8-Appends a good serves o 31 v (omega arith))
          (λ o' p. Appends-ok (put_var_int-Appends o' n p.valid (omega (arith, p.counts)) h)))
  ]
