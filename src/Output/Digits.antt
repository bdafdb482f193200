-- ===== src/Output/Digits.antt =====
-- The local arrays of the variable-length encoders: which digits of a number they hold.
use broncho_mms.Base.{
  ℕ, zero, suc, ◌+◌, ◌*◌, ◌/◌, ◌%◌, ◌^◌, ◌<◌, ◌≡◌, refl, ap, ◌∙◌, arith, some, List, [], ◌∷◌, ◌==◌,
  if◌then◌else◌, length, ltb, get_elem?, lt-cases, false, subst, inl, lt→ltb, inr, le→ltb,
}
use broncho_mms.Base.Bits.{bit_and_0xff}
use broncho_mms.Output.Integers.{septets_at}
use native.Mathlib.Numerals.{towards_suc}
use native.Mathlib.Nat.{div-div-eq-div-mul}
use broncho_mms.Output.Encode.{octets, skip_empty, septets}
use broncho_mms.Wire.{octet_count, top_group}

-- A step of the search for the top group, on the groups of `v`.
skip_empty_step :
    (i v : ℕ)
    → i < 8
    → skip_empty (suc i) (septets 8 v)
      ≡ (if v / 128 ^ i % 128 == 0 then skip_empty i (septets 8 v) else some i)
unfolding skip_empty
skip_empty_step i v h = rw (septets_at 8 i v h)

-- Below `p * 128` the group at `p` is empty exactly below `p`.
group_empty : (v p : ℕ) → 0 < p → v < p * 128 → (v / p % 128 == 0) ≡ ltb v p
group_empty v p pos h = elim (lt-cases v p) [
  | inl low ↦ let e : v / p ≡ 0 = grind arith in ground (arith, e)
  | inr high ↦
      let lo : 0 < v / p = grind arith in
      let hi : v / p < 128 = grind arith in
      let e : v / p % 128 ≡ v / p = omega arith in rw e (ground arith)
]

skip_empty_below :
    (i v p : ℕ)
    → i < 8
    → p ≡ 128 ^ i
    → 0 < p
    → v < p * 128
    → skip_empty (suc i) (septets 8 v) ≡ (if ltb v p then skip_empty i (septets 8 v) else some i)
skip_empty_below i v p h e pos below =
    skip_empty_step i v h
    ∙ ap (λ b. if b then skip_empty i (septets 8 v) else some i)
        (subst (λ (q : ℕ). (v / q % 128 == 0) ≡ ltb v p) e (group_empty v p pos below))

-- On a 32-bit number that is not 0 the search stays in the array.
pub skip_empty_top : (v : ℕ) → 0 < v → v < 2 ^ 32 → skip_empty 8 (septets 8 v) ≡ some (top_group v)
skip_empty_top v pos h = ground (
  arith,
  skip_empty_below 7 v (128 ^ 7),
  skip_empty_below 6 v (128 ^ 6),
  skip_empty_below 5 v (128 ^ 5),
  skip_empty_below 4 v (128 ^ 4),
  skip_empty_below 3 v (128 ^ 3),
  skip_empty_below 2 v (128 ^ 2),
  skip_empty_below 1 v 128,
  skip_empty_below 0 v 1,
)

-- The bytes of a number, lowest first.
pub little_endian : ℕ → ℕ → List ℕ
little_endian zero v = []
little_endian (suc n) v = (v % 256) ∷ little_endian n (v / 256)

octets_end : (room v : ℕ) → v ≡ 0 → octets room v ≡ some []
unfolding octets
octets_end zero v e = rw e
octets_end (suc room) v e = rw e

octets_step :
    (room n v : ℕ)
    → 0 < v
    → octets room (v / 256) ≡ some (little_endian n (v / 256))
    → octets (suc room) v ≡ some (little_endian (suc n) v)
unfolding octets little_endian
octets_step room n v pos h =
    let ne : (v == 0) ≡ false = ground arith in
    rw (ne, h) (ap (λ b. some (b ∷ little_endian n (v / 256))) (omega (arith, bit_and_0xff v)))

octets_last : (room v : ℕ) → 0 < v → v < 256 → octets (suc room) v ≡ some (little_endian 1 v)
unfolding little_endian
octets_last room v pos h = octets_step room 0 v pos (octets_end room (v / 256) (omega arith))

-- A 32-bit number fills at most four places of the array.
pub octets_lem : (v : ℕ) → 0 < v → v < 2 ^ 32 → octets 32 v ≡ some (little_endian (octet_count v) v)
octets_lem v pos h = elim (lt-cases v (2 ^ 8)) [
  | inl one ↦ rw (lt→ltb v (2 ^ 8) one) (octets_last 31 v pos one)
  | inr more ↦ rw (le→ltb v (2 ^ 8) more) (elim (lt-cases v (2 ^ 16)) [
    | inl two ↦
        rw (lt→ltb v (2 ^ 16) two)
          (octets_step 31 1 v pos (octets_last 30 (v / 256) (omega arith) (omega arith)))
    | inr more ↦ rw (le→ltb v (2 ^ 16) more) (elim (lt-cases v (2 ^ 24)) [
      | inl three ↦ rw (lt→ltb v (2 ^ 24) three) (
          octets_step 31 2 v pos (
            octets_step 30 1 (v / 256) (omega arith)
              (octets_last 29 (v / 256 / 256) (omega arith) (omega arith))))
      | inr four ↦ rw (le→ltb v (2 ^ 24) four) (
          octets_step 31 3 v pos (
            octets_step 30 2 (v / 256) (omega arith) (
              octets_step 29 1 (v / 256 / 256) (omega arith)
                (octets_last 28 (v / 256 / 256 / 256) (omega arith) (omega arith)))))
    ])
  ])
]

next_byte : (i : ℕ) → 256 * 2 ^ (8 * i) ≡ 2 ^ (8 * suc i)
next_byte i = let e : 8 * suc i ≡ 8 * i + 8 = omega arith in rw e (simp towards_suc (omega arith))

pub little_endian_at :
    (n i v : ℕ) → i < n → get_elem? (little_endian n v) i ≡ some (v / 2 ^ (8 * i) % 256)
unfolding little_endian
little_endian_at zero i v h = absurd (omega arith)
little_endian_at (suc n) zero v h = ap some (omega arith)
little_endian_at (suc n) (suc i) v h =
    little_endian_at n i (v / 256) (omega arith)
    ∙ ap (λ (t : ℕ). some (t % 256))
        (div-div-eq-div-mul v 256 (2 ^ (8 * i)) ∙ ap (λ (t : ℕ). v / t) (next_byte i))

pub length-little_endian : (n v : ℕ) → length (little_endian n v) ≡ n
unfolding little_endian
length-little_endian zero v = refl
length-little_endian (suc n) v = ap suc (length-little_endian n (v / 256))
