-- ===== src/Output/Integers.antt =====
-- The integer encoders write the formats of Wire, provided that the allocator serves them.
use broncho_mms.Base.{
  ℕ, zero, suc, ◌+◌, ◌*◌, ◌/◌, ◌%◌, ◌^◌, ◌≤◌, ◌<◌, ◌≡◌, refl, arith, some, [], ◌∷◌, get_elem?, ap,
  ◌∙◌, bit_and, bit_or,
}
use broncho_mms.Base.Bits.{bit_and_0x7f, bit_and_0xff, bit_and_0xffff, bit_or_top}
use native.Mathlib.Nat.{div-div-eq-div-mul, pow-suc}
use broncho_mms.Memory.{Allocator, IsAllocator, Serves}
use broncho_mms.Output.State.{OutputBuffer}
use broncho_mms.Output.Valid.{
  most_data, most_room, IsValid, Appends, Appends-then, Appends-eq, Appended-refl, Appends-runs,
}
use broncho_mms.Output.Append.{put_char-Appends}
use broncho_mms.Output.Encode.{
  output_buffer_put_int8, output_buffer_put_int16, septets, uchar,
  output_buffer_put_multi_bytes_int, put_bytes_down, put_septets, output_buffer_put_int32,
  get_int_bytes, read_array,
}
use broncho_mms.Wire.{big_endian, groups}

-- Room for `n` more bytes below the bound on the data.
abbrev pub Fits : OutputBuffer → ℕ → Type 0
Fits o n = o.data_length + n ≤ most_data

pub div-div_pow : (v i : ℕ) → v / 128 / 128 ^ i ≡ v / 128 ^ suc i
div-div_pow v i =
    div-div-eq-div-mul v 128 (128 ^ i) ∙ ap (λ (t : ℕ). v / t) (omega (arith, pow-suc 128 i))

pub septets_at : (n i v : ℕ) → i < n → get_elem? (septets n v) i ≡ some (v / 128 ^ i % 128)
unfolding septets
septets_at zero i v h = absurd (omega arith)
septets_at (suc n) zero v h = ap some (omega (arith, bit_and_0x7f v))
septets_at (suc n) (suc i) v h =
    septets_at n i (v / 128) (omega arith) ∙ ap (λ (t : ℕ). some (t % 128)) (div-div_pow v i)

module _ (a : Allocator) (good : IsAllocator a) (serves : Serves a most_room) where
  pub put_int8-Appends :
      (o : OutputBuffer) (n : ℕ)
      → IsValid o
      → Fits o 1
      → Appends (output_buffer_put_int8 a n) o (n ∷ [])
  unfolding output_buffer_put_int8
  put_int8-Appends = put_char-Appends a good serves

  pub put_int16-Appends :
      (o : OutputBuffer) (n : ℕ)
      → IsValid o
      → Fits o 2
      → n < 2 ^ 16
      → Appends (output_buffer_put_int16 a n) o (big_endian 2 n)
  unfolding output_buffer_put_int16
  put_int16-Appends o n v fits h =
      let hi : ℕ = uchar (bit_and (n / 2 ^ 8) 0xff) in
      let lo : ℕ = uchar (bit_and n 0xff) in
      Appends-eq
        (Appends-then (put_int8-Appends o hi v (omega arith))
          (λ o' p. put_int8-Appends o' lo p.valid (omega (arith, p.counts))))
        (ground (arith, bit_and_0xff (n / 2 ^ 8), bit_and_0xff n))

  pub put_int32-Appends :
      (o : OutputBuffer) (n : ℕ)
      → IsValid o
      → Fits o 4
      → n < 2 ^ 32
      → Appends (output_buffer_put_int32 a n) o (big_endian 4 n)
  unfolding output_buffer_put_int32
  put_int32-Appends o n v fits h =
      let hi : ℕ = bit_and (n / 2 ^ 16) 0xffff in
      let lo : ℕ = bit_and n 0xffff in
      Appends-eq
        (Appends-then
          (put_int16-Appends o hi v (omega arith) (omega (arith, bit_and_0xffff (n / 2 ^ 16))))
          (λ o' p.
            put_int16-Appends o' lo p.valid (omega (arith, p.counts))
              (omega (arith, bit_and_0xffff n))))
        (ground (arith, bit_and_0xffff (n / 2 ^ 16), bit_and_0xffff n))

  put_bytes_down-Appends :
      (i : ℕ) (o : OutputBuffer) (n : ℕ)
      → IsValid o
      → Fits o i
      → Appends (put_bytes_down a i n) o (big_endian i n)
  unfolding put_bytes_down
  put_bytes_down-Appends zero o n v fits = record {
    after = o;
    runs = refl;
    appended = Appended-refl v;
  }
  put_bytes_down-Appends (suc i) o n v fits =
      let b : ℕ = bit_and (n / 2 ^ (8 * i)) 0xff in
      Appends-eq
        (Appends-then (put_int8-Appends o b v (omega arith))
          (λ o' p. put_bytes_down-Appends i o' n p.valid (omega (arith, p.counts))))
        (ap (λ t. t ∷ big_endian i n) (bit_and_0xff (n / 2 ^ (8 * i))))

  pub put_multi_bytes_int-Appends :
      (o : OutputBuffer) (n : ℕ)
      → IsValid o
      → Fits o 4
      → Appends (output_buffer_put_multi_bytes_int a n) o (big_endian (get_int_bytes n) n)
  unfolding output_buffer_put_multi_bytes_int get_int_bytes
  put_multi_bytes_int-Appends o n v fits =
      put_bytes_down-Appends (get_int_bytes n) o n v (ground arith)

  pub put_septets-Appends :
      (i : ℕ) (o : OutputBuffer) (n : ℕ)
      → i < 8
      → IsValid o
      → Fits o (i + 1)
      → Appends (put_septets a i (septets 8 n)) o (groups i n)
  unfolding put_septets read_array
  put_septets-Appends zero o n h v fits =
      let b : ℕ = n / 128 ^ 0 % 128 in
      let w : ℕ = uchar (bit_and b 0x7f) in
      Appends-eq (Appends-runs (rw (septets_at 8 0 n h)) (put_int8-Appends o w v (omega arith)))
        (ap (λ t. t ∷ []) (omega (arith, bit_and_0x7f b)))
  put_septets-Appends (suc i) o n h v fits =
      let b : ℕ = n / 128 ^ suc i % 128 in
      let w : ℕ = uchar (bit_or 0x80 b) in
      Appends-eq
        (Appends-runs (rw (septets_at 8 (suc i) n h)) (
          Appends-then (put_int8-Appends o w v (omega arith))
            (λ o' p. put_septets-Appends i o' n (omega arith) p.valid (omega (arith, p.counts)))))
        (ap (λ t. t ∷ groups i n) (omega (arith, bit_or_top b (omega arith))))

pub get_int_bytes_bounds : (n : ℕ) → (1 ≤ get_int_bytes n) × (get_int_bytes n ≤ 4)
unfolding get_int_bytes
get_int_bytes_bounds n = ground arith
