-- ===== src/Input/Integers.antt =====
-- The integer decoders read the formats of Wire.
use broncho_mms.Base.{
  ℕ, zero, suc, ◌+◌, ◌*◌, ◌/◌, ◌%◌, ◌^◌, ◌≤◌, ◌<◌, ◌≡◌, refl, ap, ◌∙◌, arith, [], ◌∷◌, ◌++◌, pure,
  bit_and, ◌==◌, true, false, subst, bit_or, ap₂, ◌-◌,
}
use native.Mathlib.Nat.{pow-suc}
use broncho_mms.Base.Bits.{bit_or_shift8, bit_and_0x80, bit_and_0x7f, bit_or_shift16, bit_or_shift7}
use broncho_mms.Input.State.{InputBuffer, In}
use broncho_mms.Input.Reads.{
  At, Reads, Reads-then, At-first, get_int8-Reads, Reads-map, At-second, Reads-eq, Reads-pure,
  advance, Reads-runs,
}
use broncho_mms.Input.Decode.{
  var_int_loop, input_buffer_get_int32, add_septet, input_buffer_get_int16,
  input_buffer_get_var_int,
}
use broncho_mms.Wire.{groups, big_endian, var_int_bytes, top_group}
use broncho_mms.Base.Digits.{pow_pos, mod_split}
use broncho_mms.Wire.Sizes.{length-groups}

pub get_int16-Reads :
    {i : InputBuffer} (n : ℕ)
    → n < 2 ^ 16
    → At i (big_endian 2 n)
    → Reads input_buffer_get_int16 i 2 n
unfolding input_buffer_get_int16
get_int16-Reads {i} n h at =
    let hi : ℕ = n / 2 ^ 8 % 256 in
    let lo : ℕ = n / 2 ^ 0 % 256 in
    Reads-then _ (get_int8-Reads (At-first i (hi ∷ []) (lo ∷ []) at)) (
      Reads-map _ (omega (arith, bit_or_shift8 hi lo))
        (get_int8-Reads (At-second i (hi ∷ []) (lo ∷ []) at)))

pub get_int32-Reads :
    {i : InputBuffer} (n : ℕ)
    → n < 2 ^ 32
    → At i (big_endian 4 n)
    → Reads input_buffer_get_int32 i 4 n
unfolding input_buffer_get_int32
get_int32-Reads {i} n h at =
    let hi : ℕ = n / 2 ^ 16 in
    let lo : ℕ = n % 2 ^ 16 in
    let wraps : hi * 2 ^ 16 % 2 ^ 32 ≡ hi * 65536 = omega arith in
    let split : big_endian 4 n ≡ big_endian 2 hi ++ big_endian 2 lo = ground arith in
    let at' : At i (big_endian 2 hi ++ big_endian 2 lo) = subst (At i) split at in
    Reads-then _
      (get_int16-Reads hi (omega arith) (At-first i (big_endian 2 hi) (big_endian 2 lo) at'))
      (Reads-map _ (ap (λ (t : ℕ). bit_or t lo) wraps ∙ omega (arith, bit_or_shift16 hi lo))
        (get_int16-Reads lo (omega arith) (At-second i (big_endian 2 hi) (big_endian 2 lo) at')))

-- One round on a group with the top bit set, and on the last.
more_group : (d : ℕ) → d < 128 → (bit_and (d + 128) 0x80 == 0) ≡ false
more_group d h = ground (arith, bit_and_0x80 (d + 128))

last_group : (d : ℕ) → d < 128 → (bit_and d 0x80 == 0) ≡ true
last_group d h = ground (arith, bit_and_0x80 d)

add_septet_lem :
    (r d b : ℕ) → d < 128 → r * 128 < 2 ^ 32 → b % 128 ≡ d → add_septet r b ≡ r * 128 + d
add_septet_lem r d b h small e =
    let wraps : r * 2 ^ 7 % 2 ^ 32 ≡ r * 128 = omega arith in
    let low : bit_and b 0x7f ≡ d = omega (arith, bit_and_0x7f b) in
    ap₂ bit_or wraps low ∙ bit_or_shift7 r d h

-- What a round does with its octet.
abbrev pub var_int_body : ℕ → ℕ → ℕ → In ℕ
var_int_body fuel r octet = elim (bit_and octet 0x80 == 0) [
  | true ↦ pure (add_septet r octet)
  | false ↦ var_int_loop fuel (add_septet r octet)
]

-- A group moved from what is to come to what has been read.
septet_moves :
    (r v p q : ℕ) → 0 < p → q ≡ p * 128 → (r * 128 + v / p % 128) * p + v % p ≡ r * q + v % q
septet_moves r v p q pos e =
    let split = ap (λ (t : ℕ). v % t) e ∙ mod_split v p 128 pos (omega arith) in
    omega (arith, split, ap (λ (t : ℕ). r * t) e)

mul-le : (r p q : ℕ) → 0 < p → q ≡ p * 128 → r * 128 ≤ r * q
mul-le r p q pos e = grind arith

-- The loop on a uintvar takes it whole, behind what it has read before.
var_int_loop-Reads :
    (k fuel r v : ℕ) {i : InputBuffer}
    → k < fuel
    → r * 128 ^ suc k + v % 128 ^ suc k < 2 ^ 32
    → At i (groups k v)
    → Reads (var_int_loop fuel r) i (suc k) (r * 128 ^ suc k + v % 128 ^ suc k)
unfolding var_int_loop
var_int_loop-Reads k zero r v {i} lt small at = absurd (omega arith)
var_int_loop-Reads zero (suc fuel) r v {i} lt small at =
    let d : ℕ = v % 128 in
    let sum : add_septet r d ≡ r * 128 + d =
      add_septet_lem r d d (omega arith) (omega arith) (omega arith) in
    let tail : Reads (var_int_body fuel r d) (advance i 1) 0 (r * 128 + d) =
      rw (last_group d (omega arith), var_int_body) (Reads-eq Reads-pure refl sum) in
    record { runs = (Reads-then (var_int_body fuel r) (get_int8-Reads at) tail).runs }
var_int_loop-Reads (suc k) (suc fuel) r v {i} lt small at =
    let p : ℕ = 128 ^ suc k in
    let d : ℕ = v / p % 128 in
    let pos : 0 < p = pow_pos 128 (suc k) (omega arith) in
    let next : 128 ^ suc (suc k) ≡ p * 128 = pow-suc 128 (suc k) in
    let moves = septet_moves r v p (128 ^ suc (suc k)) pos next in
    let room : r * 128 < 2 ^ 32 = omega (arith, mul-le r p (128 ^ suc (suc k)) pos next) in
    let sum : add_septet r (d + 128) ≡ r * 128 + d =
      add_septet_lem r d (d + 128) (omega arith) (omega arith) (omega arith) in
    let rest : Reads (var_int_loop fuel (r * 128 + d)) (advance i 1) (suc k)
        ((r * 128 + d) * p + v % p) =
      var_int_loop-Reads k fuel (r * 128 + d) v (omega arith) (omega (arith, moves))
        (At-second i ((d + 128) ∷ []) (groups k v) at) in
    let tail : Reads (var_int_body fuel r (d + 128)) (advance i 1) (suc k)
        ((r * 128 + d) * p + v % p) =
      rw (more_group d (omega arith), var_int_body) (rw sum rest) in
    Reads-eq
      (Reads-runs refl (
        Reads-then (var_int_body fuel r)
          (get_int8-Reads (At-first i ((d + 128) ∷ []) (groups k v) at)) tail))
      (omega arith) moves

top_group_holds : (n : ℕ) → n < 2 ^ 32 → n % 128 ^ suc (top_group n) ≡ n
top_group_holds n h = ground arith

-- `get_var_int` reads back a 32-bit number from its uintvar.
pub get_var_int-Reads :
    {i : InputBuffer} (n : ℕ)
    → n < 2 ^ 32
    → At i (var_int_bytes n)
    → Reads input_buffer_get_var_int i (suc (top_group n)) n
unfolding input_buffer_get_var_int
get_var_int-Reads {i} n h at =
    let k : ℕ = top_group n in
    let whole : 0 * 128 ^ suc k + n % 128 ^ suc k ≡ n = omega (arith, top_group_holds n h) in
    let fuel : k < suc (i.limit - i.offset) = omega (arith, at.inside, length-groups k n) in
    let run = var_int_loop-Reads k (suc (i.limit - i.offset)) 0 n fuel (omega (arith, whole)) at in
    Reads-eq (Reads-runs refl run) refl whole
