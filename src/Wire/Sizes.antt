-- ===== src/Wire/Sizes.antt =====
-- How many bytes the formats take.
use broncho_mms.Base.{ℕ, zero, suc, ◌+◌, ◌≤◌, ◌≡◌, refl, ap, arith, length}
use broncho_mms.Wire.{
  value_length_bytes, groups, octet_count, big_endian, long_int_bytes, top_group,
}

pub length-groups : (i v : ℕ) → length (groups i v) ≡ suc i
length-groups zero v = refl
length-groups (suc i) v = ap suc (length-groups i v)

pub length-big_endian : (n v : ℕ) → length (big_endian n v) ≡ n
length-big_endian zero v = refl
length-big_endian (suc n) v = ap suc (length-big_endian n v)

pub top_group_bound : (v : ℕ) → top_group v ≤ 4
top_group_bound v = ground arith

pub octet_count_bounds : (v : ℕ) → (1 ≤ octet_count v) × (octet_count v ≤ 4)
octet_count_bounds v = ground arith

-- A Value-length takes at most six bytes.
pub value_length_size : (v : ℕ) → length (value_length_bytes v) ≤ 6
value_length_size v = ground (arith, length-groups (top_group v) v, top_group_bound v)

-- A Long-integer takes one byte more than the number.
pub length-long_int_bytes : (v : ℕ) → length (long_int_bytes v) ≡ octet_count v + 1
length-long_int_bytes v = omega (arith, length-big_endian (octet_count v) v)
