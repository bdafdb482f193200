-- ===== src/Base/Bits.antt =====
-- Masks and shifts as arithmetic, from the digit recursion that the native operations stand for.
use Prim.Native.Nat.{
  ℕ, zero, suc, ◌+◌, ◌-◌, ◌*◌, ◌/◌, ◌%◌, ◌^◌, ◌≤◌, ◌<◌, min, max, bit_and, bit_or, digits,
  bit_and-bitwise, bit_or-bitwise,
}
use mathlib.Core.Path.{◌≡◌, refl, ap, ◌∙◌, sym}
use mathlib.Core.Bool.{Bool, true, ◌&&◌}
use native.Mathlib.Omega.{arith}
use native.Mathlib.Nat.{pow-suc, mod-lt, mod-eq_of_lt, div-add-mod, mul-add-mod_self_left}
use broncho_mms.Base.Tests.{◌==◌, ==_iff}

module _ (ending : ℕ → ℕ) (digit : ℕ → ℕ → ℕ) where
  -- The recursion with as many rounds as the first number is large, and one more.
  abbrev rounds : ℕ → ℕ → ℕ → ℕ
  rounds = digits ending digit

  one_more : (k x y : ℕ) → x ≤ k → rounds (suc k) x y ≡ rounds k x y
  one_more zero zero y le = refl
  one_more (suc k) zero y le = refl
  one_more zero (suc x) y le = absurd (omega arith)
  one_more (suc k) (suc x) y le =
      ap (λ (t : ℕ). t * 2 + digit (suc x % 2) (y % 2))
        (one_more k (suc x / 2) (y / 2) (omega arith))

  enough : (more k x y : ℕ) → k ≡ x + more → rounds k x y ≡ rounds x x y
  enough zero k x y e = let same : k ≡ x = omega arith in ap (λ (t : ℕ). rounds t x y) same
  enough (suc more) zero x y e = absurd (omega arith)
  enough (suc more) (suc k) x y e = one_more k x y (omega arith) ∙ enough more k x y (omega arith)

  -- The lowest digit apart from the others.
  lowest :
      (x y : ℕ)
      → rounds (suc x) (suc x) y
        ≡ rounds (suc x / 2) (suc x / 2) (y / 2) * 2 + digit (suc x % 2) (y % 2)
  lowest x y =
      ap (λ (t : ℕ). t * 2 + digit (suc x % 2) (y % 2))
        (enough (x - suc x / 2) x (suc x / 2) (y / 2) (omega arith))

bit_or_step : (a b : ℕ) → bit_or a b ≡ bit_or (a / 2) (b / 2) * 2 + max (a % 2) (b % 2)
bit_or_step zero y = omega (arith, bit_or-bitwise 0 (y / 2), bit_or-bitwise 0 y)
bit_or_step (suc x) y =
    bit_or-bitwise (suc x) y
    ∙ lowest (λ t. t) max x y
    ∙ ap (λ (t : ℕ). t * 2 + max (suc x % 2) (y % 2)) (sym (bit_or-bitwise (suc x / 2) (y / 2)))

bit_and_step : (a b : ℕ) → bit_and a b ≡ bit_and (a / 2) (b / 2) * 2 + min (a % 2) (b % 2)
bit_and_step zero y = omega (arith, bit_and-bitwise 0 (y / 2), bit_and-bitwise 0 y)
bit_and_step (suc x) y =
    bit_and-bitwise (suc x) y
    ∙ lowest (λ t. 0) min x y
    ∙ ap (λ (t : ℕ). t * 2 + min (suc x % 2) (y % 2)) (sym (bit_and-bitwise (suc x / 2) (y / 2)))

-- Zero sets no bit and keeps none.
bit_or-zero_below : (most x : ℕ) → x ≤ most → bit_or x 0 ≡ x
bit_or-zero_below most zero le = refl
bit_or-zero_below zero (suc x) le = absurd (omega arith)
bit_or-zero_below (suc most) (suc x) le =
    bit_or_step (suc x) 0 ∙ omega (arith, bit_or-zero_below most (suc x / 2) (omega arith))

bit_and-zero_below : (most x : ℕ) → x ≤ most → bit_and x 0 ≡ 0
bit_and-zero_below most zero le = refl
bit_and-zero_below zero (suc x) le = absurd (omega arith)
bit_and-zero_below (suc most) (suc x) le =
    bit_and_step (suc x) 0 ∙ omega (arith, bit_and-zero_below most (suc x / 2) (omega arith))

-- A number below `2 ^ k` fills the place that a shift by `k` left free.
pub bit_or-add : (k a b p : ℕ) → p ≡ 2 ^ k → b < p → bit_or (a * p) b ≡ a * p + b
bit_or-add zero a b p e h =
    let e0 : b ≡ 0 = omega arith in
    rw e0 (omega (arith, bit_or-zero_below (a * p) (a * p) (omega arith)))
bit_or-add (suc k) a b p e h =
    let q : ℕ = 2 ^ k in
    let pq : p ≡ q * 2 = omega (arith, pow-suc 2 k) in
    let ap2 : a * p ≡ a * q * 2 = omega (arith, ap (λ (t : ℕ). a * t) pq) in
    let half : a * p / 2 ≡ a * q = omega arith in
    omega (
      arith,
      bit_or_step (a * p) b,
      ap (λ (t : ℕ). bit_or t (b / 2)) half,
      bit_or-add k a (b / 2) q refl (omega arith),
    )

-- The remainder by twice `q`, from the lowest digit and the rest.
mod_halve : (a q : ℕ) → 0 < q → a % (q * 2) ≡ a / 2 % q * 2 + a % 2
mod_halve a q h =
    let d : ℕ = a / 2 / q in
    let low : ℕ = a / 2 % q * 2 + a % 2 in
    let small : low < q * 2 = omega (arith, mod-lt (a / 2) h) in
    let split : a ≡ q * 2 * d + low = omega (arith, div-add-mod (a / 2) q) in
    let e = mul-add-mod_self_left (q * 2) d low in
    ap (λ (t : ℕ). t % (q * 2)) split ∙ e ∙ mod-eq_of_lt small

-- `&` by a mask of `k` ones keeps the remainder by `2 ^ k`.
bit_and_mask : (k a m p : ℕ) → p ≡ 2 ^ k → m + 1 ≡ p → bit_and a m ≡ a % p
bit_and_mask zero a m p e h =
    let e0 : m ≡ 0 = omega arith in
    let e1 : p ≡ 1 = omega arith in
    rw (e0, e1) (omega (arith, bit_and-zero_below a a (omega arith)))
bit_and_mask (suc k) a m p e h =
    let q : ℕ = 2 ^ k in
    let pq : p ≡ q * 2 = omega (arith, pow-suc 2 k) in
    let ih : bit_and (a / 2) (m / 2) ≡ a / 2 % q =
      bit_and_mask k (a / 2) (m / 2) q refl (omega arith) in
    rw pq (omega (arith, bit_and_step a m, ih, mod_halve a q (omega arith)))

pub bit_and_0x7f : (a : ℕ) → bit_and a 0x7f ≡ a % 128
bit_and_0x7f a = bit_and_mask 7 a 0x7f 128 refl refl

pub bit_and_0xff : (a : ℕ) → bit_and a 0xff ≡ a % 256
bit_and_0xff a = bit_and_mask 8 a 0xff 256 refl refl

pub bit_and_0xffff : (a : ℕ) → bit_and a 0xffff ≡ a % 65536
bit_and_0xffff a = bit_and_mask 16 a 0xffff 65536 refl refl

pub bit_or_shift7 : (a b : ℕ) → b < 128 → bit_or (a * 128) b ≡ a * 128 + b
bit_or_shift7 a b = bit_or-add 7 a b 128 refl

pub bit_or_shift8 : (a b : ℕ) → b < 256 → bit_or (a * 256) b ≡ a * 256 + b
bit_or_shift8 a b = bit_or-add 8 a b 256 refl

pub bit_or_shift16 : (a b : ℕ) → b < 65536 → bit_or (a * 65536) b ≡ a * 65536 + b
bit_or_shift16 a b = bit_or-add 16 a b 65536 refl

pub bit_or_shift24 : (a b : ℕ) → b < 16777216 → bit_or (a * 16777216) b ≡ a * 16777216 + b
bit_or_shift24 a b = bit_or-add 24 a b 16777216 refl

-- Tables of the masks on the top bit of a byte.
agrees : ℕ → (ℕ → Bool) → Bool
agrees zero p = true
agrees (suc n) p = p n && agrees n p

agrees_at : (n : ℕ) (p : ℕ → Bool) (x : ℕ) → agrees n p ≡ true → x < n → p x ≡ true
unfolding agrees
agrees_at zero p x h lt = absurd (omega arith)
agrees_at (suc n) p x h lt = ground (arith, agrees_at n p x)

top_bit_table : agrees 256 (λ b. bit_and b 0x80 == b / 128 * 128) ≡ true
unfolding agrees
top_bit_table = refl

set_top_bit_table : agrees 128 (λ b. bit_or b 0x80 == b + 128) ≡ true
unfolding agrees
set_top_bit_table = refl

top_bit_set_table : agrees 128 (λ b. bit_or 0x80 b == b + 128) ≡ true
unfolding agrees
top_bit_set_table = refl

pub bit_and_0x80 : (b : ℕ) → b < 256 → bit_and b 0x80 ≡ b / 128 * 128
bit_and_0x80 b h = (==_iff _ _).0 (agrees_at 256 _ b top_bit_table h)

pub bit_or_0x80 : (b : ℕ) → b < 128 → bit_or b 0x80 ≡ b + 128
bit_or_0x80 b h = (==_iff _ _).0 (agrees_at 128 _ b set_top_bit_table h)

pub bit_or_top : (b : ℕ) → b < 128 → bit_or 0x80 b ≡ b + 128
bit_or_top b h = (==_iff _ _).0 (agrees_at 128 _ b top_bit_set_table h)
