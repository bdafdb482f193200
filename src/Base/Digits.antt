-- ===== src/Base/Digits.antt =====
-- Numbers taken apart at a power of the base.
use Prim.Native.Nat.{ℕ, zero, suc, ◌+◌, ◌*◌, ◌/◌, ◌%◌, ◌^◌, ◌<◌}
use mathlib.Core.Path.{◌≡◌, ap, ◌∙◌}
use native.Mathlib.Omega.{arith}
use native.Mathlib.Nat.{mod-lt, mod-eq_of_lt, div-add-mod, mul-add-mod_self_left, pow-suc, pow-zero}
use native.Mathlib.Numerals.{towards_suc}

-- The remainder by `p * q` is a digit in base `q` above the remainder by `p`.
pub mod_split : (v p q : ℕ) → 0 < p → 0 < q → v % (p * q) ≡ v / p % q * p + v % p
mod_split v p q hp hq =
    let e : ℕ = v / p / q in
    let r : ℕ = v / p % q in
    let low : ℕ = r * p + v % p in
    let small : low < p * q = grind (arith, mod-lt (v / p) hq, mod-lt v hp) in
    let outer = div-add-mod v p in
    let inner = ap (λ (t : ℕ). p * t) (div-add-mod (v / p) q) in
    let whole : v ≡ p * q * e + low = omega (arith, outer, inner) in
    ap (λ (t : ℕ). t % (p * q)) whole ∙ mul-add-mod_self_left (p * q) e low ∙ mod-eq_of_lt small

pub pow_pos : (b i : ℕ) → 0 < b → 0 < b ^ i
pow_pos b zero h = omega (arith, pow-zero b)
pow_pos b (suc i) h = grind (arith, pow-suc b i, pow_pos b i h)

-- A byte more.
pub next_byte : (i : ℕ) → 2 ^ (8 * suc i) ≡ 2 ^ (8 * i) * 256
next_byte i =
    let e : 8 * suc i ≡ 8 * i + 8 = omega arith in
    ap (λ (t : ℕ). 2 ^ t) e ∙ simp towards_suc (omega arith)
