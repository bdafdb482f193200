-- ===== src/Input/Lengths.antt =====
-- The decoders of variable length read the formats of Wire.
use broncho_mms.Base.{
  ℕ, zero, suc, ◌+◌, ◌*◌, ◌/◌, ◌%◌, ◌^◌, ◌≤◌, ◌<◌, ◌≡◌, refl, ap, ◌∙◌, arith, [], ◌∷◌, pure, inl,
  inr, false, ◌>>=◌, le→leb, word_mod, bit_or, sym, lt→ltb, length, lt-cases, if◌then◌else◌, subst,
  ◌==◌, lt→leb,
}
use native.Mathlib.Nat.{mod-eq_of_lt}
use broncho_mms.Base.Bits.{bit_or-add, bit_and_0x7f}
use broncho_mms.Base.Digits.{next_byte, mod_split, pow_pos}
use broncho_mms.Input.State.{InputBuffer, In}
use broncho_mms.Input.Reads.{
  At, Reads, Reads-map, Reads-eq, Reads-pure, get_int8-Reads, At-second, Reads-then, At-first,
  advance, Reads-runs, is_short_int-At,
}
use broncho_mms.Input.Decode.{
  multi_bytes_loop, input_buffer_get_multi_bytes_int, input_buffer_get_short_int, long_int_loop,
  shift_left, input_buffer_get_value_length, input_buffer_get_long_int, input_buffer_get_int,
  input_buffer_get_var_int,
}
use broncho_mms.Wire.{
  short_int_bytes, big_endian, octet_count, long_int_bytes, value_length_bytes, int_bytes,
  var_int_bytes, top_group,
}
use broncho_mms.Wire.Sizes.{octet_count_bounds, length-long_int_bytes, length-groups}
use broncho_mms.Input.Integers.{get_var_int-Reads}

-- A byte moved from what is to come to what has been read.
octet_moves :
    (r v p q : ℕ) → 0 < p → q ≡ p * 256 → (r * 256 + v / p % 256) * p + v % p ≡ r * q + v % q
octet_moves r v p q pos e =
    let split = ap (λ (t : ℕ). v % t) e ∙ mod_split v p 256 pos (omega arith) in
    omega (arith, split, ap (λ (t : ℕ). r * t) e)

octet-le : (r d p q : ℕ) → 0 < p → q ≡ p * 256 → (r * 256 + d) * p ≡ r * q + d * p
octet-le r d p q pos e = omega (arith, ap (λ (t : ℕ). r * t) e)

le-mul : (a p : ℕ) → 0 < p → a ≤ a * p
le-mul a p h = grind arith

multi_bytes_loop-Reads :
    (n r v : ℕ) {i : InputBuffer}
    → r * 2 ^ (8 * n) + v % 2 ^ (8 * n) < 2 ^ 32
    → At i (big_endian n v)
    → Reads (multi_bytes_loop n r) i n (r * 2 ^ (8 * n) + v % 2 ^ (8 * n))
unfolding multi_bytes_loop
multi_bytes_loop-Reads zero r v small at = Reads-eq Reads-pure refl (omega arith)
multi_bytes_loop-Reads (suc n) r v {i} small at =
    let p : ℕ = 2 ^ (8 * n) in
    let d : ℕ = v / p % 256 in
    let pos : 0 < p = pow_pos 2 (8 * n) (omega arith) in
    let moves = octet_moves r v p (2 ^ (8 * suc n)) pos (next_byte n) in
    let room : r * 256 + d < 2 ^ 32 = omega (arith, moves, le-mul (r * 256 + d) p pos) in
    let wraps : (r * 2 ^ 8 + d) % 2 ^ 32 ≡ r * 256 + d = omega arith in
    let rest =
      multi_bytes_loop-Reads n (r * 256 + d) v (omega (arith, moves))
        (At-second i (d ∷ []) (big_endian n v) at) in
    let next : Reads (multi_bytes_loop n ((r * 2 ^ 8 + d) % word_mod)) (advance i 1) n _ =
      Reads-runs (ap (λ t. multi_bytes_loop n t (advance i 1)) wraps) rest in
    Reads-eq
      (Reads-then (λ ch. multi_bytes_loop n ((r * 2 ^ 8 + ch) % word_mod))
        (get_int8-Reads (At-first i (d ∷ []) (big_endian n v) at)) next)
      (omega arith) moves

pub get_multi_bytes_int-Reads :
    {i : InputBuffer} (n v : ℕ)
    → n ≤ 4
    → v < 2 ^ (8 * n)
    → v < 2 ^ 32
    → At i (big_endian n v)
    → Reads (input_buffer_get_multi_bytes_int n) i n v
unfolding input_buffer_get_multi_bytes_int
get_multi_bytes_int-Reads {i} n v few fits small at =
    let whole : 0 * 2 ^ (8 * n) + v % 2 ^ (8 * n) ≡ v = omega (arith, mod-eq_of_lt fits) in
    rw (le→leb n 4 few)
      (Reads-eq (multi_bytes_loop-Reads n 0 v (omega (arith, whole)) at) refl whole)

pub get_short_int-Reads :
    {i : InputBuffer} (n : ℕ)
    → n < 128
    → At i (short_int_bytes n)
    → Reads input_buffer_get_short_int i 1 n
unfolding input_buffer_get_short_int
get_short_int-Reads n h at = Reads-map _ (omega (arith, bit_and_0x7f (n + 128))) (get_int8-Reads at)

digit_below : (d p q : ℕ) → 0 < p → q ≡ p * 256 → d < 256 → d * p < q
digit_below d p q pos e h = grind arith

-- What a round does with its byte.
abbrev long_int_body : ℕ → ℕ → ℕ → In ℕ
long_int_body len ret ch = do
  shifted ← shift_left ch (8 * len)
  long_int_loop len (bit_or ret shifted)

-- The bytes of a Long-integer, behind those read so far, which stand in the bits above.
long_int_loop-Reads :
    (n r v : ℕ) {i : InputBuffer}
    → n ≤ 4
    → r * 2 ^ (8 * n) + v % 2 ^ (8 * n) < 2 ^ 32
    → At i (big_endian n v)
    → Reads (long_int_loop n (r * 2 ^ (8 * n))) i n (r * 2 ^ (8 * n) + v % 2 ^ (8 * n))
unfolding long_int_loop
long_int_loop-Reads zero r v few small at = Reads-eq Reads-pure refl (omega arith)
long_int_loop-Reads (suc n) r v {i} few small at =
    let p : ℕ = 2 ^ (8 * n) in
    let q : ℕ = 2 ^ (8 * suc n) in
    let d : ℕ = v / p % 256 in
    let pos : 0 < p = pow_pos 2 (8 * n) (omega arith) in
    let moves = octet_moves r v p q pos (next_byte n) in
    let sum = octet-le r d p q pos (next_byte n) in
    let below : d * p < q = digit_below d p q pos (next_byte n) (omega arith) in
    let wraps : d * p % 2 ^ 32 ≡ d * p = omega (arith, moves, sum) in
    let filled : bit_or (r * q) (d * p % 2 ^ 32) ≡ (r * 256 + d) * p =
      ap (bit_or (r * q)) wraps ∙ bit_or-add (8 * suc n) r (d * p) q refl below ∙ sym sum in
    let rest =
      long_int_loop-Reads n (r * 256 + d) v (omega arith) (omega (arith, moves))
        (At-second i (d ∷ []) (big_endian n v) at) in
    let next : Reads (long_int_body n (r * q) d) (advance i 1) n _ =
      Reads-runs
        (rw (long_int_body, lt→ltb (8 * n) 32 (omega arith))
          (ap (λ t. long_int_loop n t (advance i 1)) filled))
        rest in
    Reads-eq
      (Reads-runs refl (
        Reads-then (long_int_body n (r * q))
          (get_int8-Reads (At-first i (d ∷ []) (big_endian n v) at)) next))
      (omega arith) moves

octet_count_holds : (n : ℕ) → n < 2 ^ 32 → n % 2 ^ (8 * octet_count n) ≡ n
octet_count_holds n h = ground arith

pub get_long_int-Reads :
    {i : InputBuffer} (n : ℕ)
    → n < 2 ^ 32
    → At i (long_int_bytes n)
    → Reads input_buffer_get_long_int i (suc (octet_count n)) n
unfolding input_buffer_get_long_int
get_long_int-Reads {i} n h at =
    let k : ℕ = octet_count n in
    let whole : 0 * 2 ^ (8 * k) + n % 2 ^ (8 * k) ≡ n = omega (arith, octet_count_holds n h) in
    let few = octet_count_bounds n in
    let run =
      long_int_loop-Reads k 0 n few.1 (omega (arith, whole))
        (At-second i (k ∷ []) (big_endian k n) at) in
    let run' : Reads (long_int_loop k 0) (advance i 1) k n =
      Reads-eq (Reads-runs (ap (λ (t : ℕ). long_int_loop k t (advance i 1)) (omega arith)) run) refl
        whole in
    Reads-eq
      (Reads-then (λ len. long_int_loop len 0)
        (get_int8-Reads (At-first i (k ∷ []) (big_endian k n) at)) run')
      (omega arith) refl

pub get_int-Reads :
    {i : InputBuffer} (n : ℕ)
    → n < 2 ^ 32
    → At i (int_bytes n)
    → Reads input_buffer_get_int i (length (int_bytes n)) n
unfolding input_buffer_get_int
get_int-Reads {i} n h at = elim (lt-cases 0x7f n) [
  | inr short ↦
      let e : int_bytes n ≡ short_int_bytes n = rw (le→leb n 0x7f short) in
      let at' : At i (short_int_bytes n) = subst (At i) e at in
      Reads-eq
        (Reads-runs (rw (is_short_int-At at', le→leb 0x80 (n + 128) (omega arith)))
          (get_short_int-Reads n (omega arith) at'))
        (sym (ap length e)) refl
  | inl long ↦
      let e : int_bytes n ≡ long_int_bytes n = rw (lt→leb n 0x7f long) in
      let at' : At i (long_int_bytes n) = subst (At i) e at in
      Reads-eq
        (Reads-runs
          (rw (
            is_short_int-At at',
            lt→leb 0x80 (octet_count n) (omega (arith, octet_count_bounds n)),
          ))
          (get_long_int-Reads n h at'))
        (omega (arith, ap length e, length-long_int_bytes n)) refl
]

abbrev value_length_body : ℕ → In ℕ
value_length_body len = if len == 31 then input_buffer_get_var_int else pure len

pub get_value_length-Reads :
    {i : InputBuffer} (n : ℕ)
    → n < 2 ^ 32
    → At i (value_length_bytes n)
    → Reads input_buffer_get_value_length i (length (value_length_bytes n)) n
unfolding input_buffer_get_value_length
get_value_length-Reads {i} n h at = elim (lt-cases 30 n) [
  | inr short ↦
      let e : value_length_bytes n ≡ n ∷ [] = rw (le→leb n 30 short) in
      let at' : At i (n ∷ []) = subst (At i) e at in
      let ne : (n == 31) ≡ false = ground arith in
      let done : Reads (value_length_body n) (advance i 1) 0 n =
        rw (value_length_body, ne) Reads-pure in
      Reads-eq (Reads-runs refl (Reads-then value_length_body (get_int8-Reads at') done))
        (omega (arith, ap length e)) refl
  | inl long ↦
      let e : value_length_bytes n ≡ 31 ∷ var_int_bytes n = rw (lt→leb n 30 long) in
      let at' : At i (31 ∷ var_int_bytes n) = subst (At i) e at in
      Reads-eq
        (Reads-runs refl (
          Reads-then value_length_body (get_int8-Reads (At-first i (31 ∷ []) (var_int_bytes n) at'))
            (get_var_int-Reads n h (At-second i (31 ∷ []) (var_int_bytes n) at'))))
        (omega (arith, ap length e, length-groups (top_group n) n)) refl
]
