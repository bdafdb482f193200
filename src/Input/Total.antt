-- ===== src/Input/Total.antt =====
-- The readers of src/mms_input_buffer.c on a received message, whatever bytes it has.
use broncho_mms.Input.State.{In, input_buffer_get_int8, InputBuffer, input_buffer_is_eof}
use broncho_mms.Input.Decode.{
  var_int_loop, add_septet, multi_bytes_loop, input_buffer_get_multi_bytes_int,
  input_buffer_get_value_length, input_buffer_get_var_int,
}
use broncho_mms.Base.{
  refl, zero, suc, ◌≤◌, ◌>>=◌, ℕ, pure, ◌≡◌, arith, length, ◌-◌, inl, inr, ◌<◌, some, suc, ◌+◌, ◌^◌,
  ◌⊎◌, Bool-cases, bit_and, ◌==◌, lt-cases, le→leb, get_elem?_total, lt→leb, leb, ◌∙◌,
}
use broncho_mms.Input.Reads.{advance}
use broncho_mms.Input.Integers.{var_int_body}

-- The message lies within its object.
pub record IsInside (i : InputBuffer) : Type 0 where
  pub inside : i.limit ≤ length i.buffer
  pub small : i.limit < 2 ^ 32

-- The reader returns, the cursor does not move back, and where it moves it does not pass the limit.
pub record Returns {A : Type 0} (m : In A) (i : InputBuffer) : Type 0 where
  pub value : A
  pub offset : ℕ
  pub runs : m i ≡ some (value, record i { offset = offset })
  pub forward : i.offset ≤ offset
  pub below : (offset ≤ i.limit) ⊎ (offset ≡ i.offset)

module _ {A B : Type 0} {m : In A} {i : InputBuffer} where
  pub Returns-then :
      (k : A → In B)
      → (h : Returns m i) → Returns (k h.value) (record i { offset = h.offset })
      → Returns (m >>= k) i
  Returns-then k h next = record {
    value = next.value;
    offset = next.offset;
    runs = rw h.runs next.runs;
    forward = omega (arith, h.forward, next.forward);
    below = elim next.below [
      | inl inside ↦ inl inside
      | inr still ↦ elim h.below [
        | inl inside ↦ inl (omega arith)
        | inr before ↦ inr (still ∙ before)
      ]
    ];
  }

pub Returns-pure : {A : Type 0} {i : InputBuffer} (a : A) → Returns (pure a) i
Returns-pure {i} a = record {
  value = a;
  offset = i.offset;
  runs = refl;
  forward = omega arith;
  below = inr refl;
}

get_int8_cases :
    (i : InputBuffer)
    → IsInside i
    → (i.limit ≤ i.offset) × (input_buffer_get_int8 i ≡ some (0, i))
      ⊎ (i.offset < i.limit) × ((b : ℕ) × (input_buffer_get_int8 i ≡ some (b, advance i 1)))
unfolding input_buffer_get_int8 input_buffer_is_eof
get_int8_cases i h = elim (lt-cases i.offset i.limit) [
  | inr over ↦ inl (over, rw (le→leb i.limit i.offset over))
  | inl more ↦
      let (b, at) = get_elem?_total i.buffer i.offset (omega (arith, h.inside)) in
      inr (more, (b, rw (lt→leb i.limit i.offset more, at)))
]

pub get_int8-Returns : {i : InputBuffer} → IsInside i → Returns input_buffer_get_int8 i
get_int8-Returns {i} h = elim (get_int8_cases i h) [
  | inl (over, runs) ↦ record {
    value = 0;
    offset = i.offset;
    runs = runs;
    forward = omega arith;
    below = inr refl;
  }
  | inr (more, (b, runs)) ↦ record {
    value = b;
    offset = i.offset + 1;
    runs = runs;
    forward = omega arith;
    below = inl (omega arith);
  }
]

moved : {i : InputBuffer} → IsInside i → (offset : ℕ) → IsInside (record i { offset = offset })
moved h offset = record { inside = h.inside; small = h.small }

-- The loop of a uintvar ends, at the latest with the input.
var_int_loop-Returns :
    (fuel result : ℕ) (i : InputBuffer)
    → IsInside i
    → i.limit - i.offset < fuel
    → Returns (var_int_loop fuel result) i
unfolding var_int_loop
var_int_loop-Returns zero result i h enough = absurd (omega arith)
var_int_loop-Returns (suc fuel) result i h enough = elim (get_int8_cases i h) [
  | inl (over, runs) ↦ record {
    value = add_septet result 0;
    offset = i.offset;
    runs = rw runs;
    forward = omega arith;
    below = inr refl;
  }
  | inr (more, (b, runs)) ↦
      let octet : Returns input_buffer_get_int8 i = record {
        value = b;
        offset = i.offset + 1;
        runs = runs;
        forward = omega arith;
        below = inl (omega arith);
      } in
      let sum : ℕ = add_septet result b in
      let next : Returns (var_int_body fuel result b) (advance i 1) =
        elim (Bool-cases (bit_and b 0x80 == 0)) [
          | inl last ↦ rw (last, var_int_body) (Returns-pure sum)
          | inr more_groups ↦
              rw (more_groups, var_int_body)
                (var_int_loop-Returns fuel sum (advance i 1) (moved h (i.offset + 1)) (omega arith))
        ] in
      let both = Returns-then (var_int_body fuel result) octet next in
      record {
        value = both.value;
        offset = both.offset;
        runs = both.runs;
        forward = both.forward;
        below = both.below;
      }
]

-- On every message that lies within its object and below 4 GiB, whatever its bytes and the cursor,
-- `get_var_int` returns, and the cursor stays or moves on to no further than the limit.
pub get_var_int-Returns : (i : InputBuffer) → IsInside i → Returns input_buffer_get_var_int i
unfolding input_buffer_get_var_int
get_var_int-Returns i h =
    let r = var_int_loop-Returns (suc (i.limit - i.offset)) 0 i h (omega arith) in
    record {
      value = r.value;
      offset = r.offset;
      runs = r.runs;
      forward = r.forward;
      below = r.below;
    }

-- On every message that lies within its object and below 4 GiB, `get_value_length` returns, and
-- the cursor stays or moves on to no further than the limit.
pub get_value_length-Returns :
    (i : InputBuffer) → IsInside i → Returns input_buffer_get_value_length i
unfolding input_buffer_get_value_length
get_value_length-Returns i h =
    let first = get_int8-Returns h in
    Returns-then _ first (elim (Bool-cases (first.value == 31)) [
      | inl long ↦ rw long (get_var_int-Returns _ (moved h first.offset))
      | inr short ↦ rw short (Returns-pure first.value)
    ])

multi_bytes_loop-Returns :
    (n value : ℕ) (i : InputBuffer) → IsInside i → Returns (multi_bytes_loop n value) i
unfolding multi_bytes_loop
multi_bytes_loop-Returns zero value i h = Returns-pure value
multi_bytes_loop-Returns (suc n) value i h =
    let first = get_int8-Returns h in
    Returns-then _ first (multi_bytes_loop-Returns n _ _ (moved h first.offset))

-- On every message that lies within its object and below 4 GiB, `get_multi_bytes_int` returns for
-- every length that it is asked for, and the cursor stays or moves on to no further than the
-- limit.
pub get_multi_bytes_int-Returns :
    (n : ℕ) (i : InputBuffer) → IsInside i → Returns (input_buffer_get_multi_bytes_int n) i
unfolding input_buffer_get_multi_bytes_int
get_multi_bytes_int-Returns n i h = elim (Bool-cases (leb n 4)) [
  | inl few ↦ rw few (multi_bytes_loop-Returns n 0 i h)
  | inr many ↦ rw many (Returns-pure 0)
]
