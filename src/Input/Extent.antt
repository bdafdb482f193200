-- ===== src/Input/Extent.antt =====
-- How far the readers of src/mms_input_buffer.c that take a length from their caller or from the
-- message go.
use broncho_mms.Input.State.{
  InputBuffer, input_buffer_get_data, input_buffer_seek, input_buffer_tell, input_buffer_is_eof,
  int_leb, input_buffer_get_int8,
}
use broncho_mms.Input.Decode.{long_int_loop, input_buffer_get_long_int, shift_left}
use broncho_mms.Base.{
  refl, zero, suc, ℕ, ◌≡◌, ◌<◌, ◌^◌, some, ◌+◌, ◌≤◌, none, ◌-◌, ◌⊎◌, add32, arith, ◌%◌, lt→leb,
  lt-cases, le→leb, inr, inl, suc, true, ltb, ◌*◌, false, lt→ltb, le→ltb, bit_or, word_mod, ◌∷◌, [],
  subst,
}
use broncho_mms.Output.State.{result_ok}
use broncho_mms.Input.Total.{IsInside, Returns, get_int8-Returns, Returns-pure, Returns-then}
use broncho_mms.Input.Reads.{At, advance, get_int8-Reads}

-- The data is refused, or it lies below the limit and the cursor stands behind it.
abbrev pub Taken : InputBuffer → ℕ → Type 0
Taken i n =
    (input_buffer_get_data n i ≡ some (none, i))
    ⊎ (i.offset + n ≤ i.limit)
      × (input_buffer_get_data n i ≡ some (some i.offset, record i { offset = i.offset + n }))

-- In a message below 4 GiB, for a length that does not take the cursor to 2^32 or beyond,
-- `get_data` either returns NULL and changes nothing, or gives out bytes that lie below the limit
-- and moves the cursor behind them.
pub get_data-Taken :
    (i : InputBuffer) (n : ℕ) → i.limit < 2 ^ 32 → i.offset + n < 2 ^ 32 → Taken i n
unfolding input_buffer_get_data input_buffer_is_eof
get_data-Taken i n small fits =
    let end : add32 i.offset n ≡ i.offset + n = omega arith in
    elim (lt-cases i.offset i.limit) [
      | inr over ↦ inl (rw (le→leb i.limit i.offset over))
      | inl more ↦ elim (lt-cases i.limit (i.offset + n)) [
        | inl beyond ↦
            inl (rw (lt→leb i.limit i.offset more, end, lt→leb (i.offset + n) i.limit beyond))
        | inr inside ↦
            inr
              (inside, rw (lt→leb i.limit i.offset more, end, le→leb (i.offset + n) i.limit inside))
      ]
    ]

-- In a message below 4 GiB with the cursor before the limit, the sum that `get_data` tests wraps:
-- a length of 2^32 - `back`, with `back` from 1 to the cursor, passes the test, and the cursor
-- moves back by `back`.
pub get_data_wraps :
    (i : InputBuffer) (back : ℕ)
    → i.offset < i.limit
    → i.limit < 2 ^ 32
    → 0 < back
    → back ≤ i.offset
    → input_buffer_get_data (2 ^ 32 - back) i
      ≡ some (some i.offset, record i { offset = i.offset - back })
unfolding input_buffer_get_data input_buffer_is_eof
get_data_wraps i back more small pos le =
    let end : add32 i.offset (2 ^ 32 - back) ≡ i.offset - back = omega arith in
    rw (lt→leb i.limit i.offset more, end, le→leb (i.offset - back) i.limit (omega arith))

long_int_loop_undefined :
    (n ret : ℕ) (i : InputBuffer) → IsInside i → 4 ≤ n → long_int_loop (suc n) ret i ≡ none
unfolding long_int_loop
long_int_loop_undefined n ret i h large =
    let first = get_int8-Returns h in
    let wide : ltb (8 * n) 32 ≡ false = le→ltb (8 * n) 32 (omega arith) in rw first.runs (rw wide)

-- On a message that lies within its object and gives a Long-integer more than four octets,
-- `get_long_int` shifts an `int` by 32 bits or more, which is undefined.
pub get_long_int_undefined :
    (i : InputBuffer) (count : ℕ)
    → IsInside i
    → At i (count ∷ [])
    → 4 < count
    → input_buffer_get_long_int i ≡ none
unfolding input_buffer_get_long_int
get_long_int_undefined i count h at large =
    let rest : long_int_loop (suc (count - 1)) 0 (advance i 1) ≡ none =
      long_int_loop_undefined (count - 1) 0 (advance i 1)
        (record { inside = h.inside; small = h.small }) (omega arith) in
    let same : suc (count - 1) ≡ count = omega arith in
    rw (get_int8-Reads at).runs
      (subst (λ (t : ℕ). long_int_loop t 0 (advance i 1) ≡ none) same rest)

long_int_loop-Returns :
    (n ret : ℕ) (i : InputBuffer) → IsInside i → n ≤ 4 → Returns (long_int_loop n ret) i
unfolding long_int_loop
long_int_loop-Returns zero ret i h few = Returns-pure ret
long_int_loop-Returns (suc n) ret i h few =
    let first = get_int8-Returns h in
    let fits : ltb (8 * n) 32 ≡ true = lt→ltb (8 * n) 32 (omega arith) in
    let i₁ : InputBuffer = record i { offset = first.offset } in
    let sum : ℕ = bit_or ret (first.value * 2 ^ (8 * n) % word_mod) in
    let rest =
      long_int_loop-Returns n sum i₁ (record { inside = h.inside; small = h.small })
        (omega arith) in
    let shifted : Returns (shift_left first.value (8 * n)) i₁ = record {
      value = first.value * 2 ^ (8 * n) % word_mod;
      offset = i₁.offset;
      runs = rw fits;
      forward = omega arith;
      below = inr refl;
    } in
    Returns-then _ first (Returns-then _ shifted rest)

-- On a message that lies within its object and gives a Long-integer at most four octets,
-- `get_long_int` returns, even if the input ends before them, and the cursor stays or moves on to
-- no further than the limit.
pub get_long_int-Returns :
    (i : InputBuffer) (count : ℕ)
    → IsInside i
    → At i (count ∷ [])
    → count ≤ 4
    → Returns input_buffer_get_long_int i
unfolding input_buffer_get_long_int
get_long_int-Returns i count h at few =
    let first : Returns input_buffer_get_int8 i = record {
      value = count;
      offset = i.offset + 1;
      runs = (get_int8-Reads at).runs;
      forward = omega arith;
      below = inl at.inside;
    } in
    Returns-then _ first (
      long_int_loop-Returns count 0 (advance i 1) (record { inside = h.inside; small = h.small })
        few)

-- In a message below 2 GiB with the cursor at or before the limit, `seek` by the distance from
-- `tell` to a position up to the limit, forward or back, moves the cursor to it.
pub seek-tell :
    (i : InputBuffer) (position : ℕ)
    → i.limit < 2 ^ 31
    → i.offset ≤ i.limit
    → position ≤ i.limit
    → input_buffer_seek ((position + 2 ^ 32 - input_buffer_tell i) % 2 ^ 32) i
      ≡ some (result_ok, record i { offset = position })
unfolding input_buffer_seek input_buffer_tell
seek-tell i position small at inside =
    let moved : add32 i.offset ((position + 2 ^ 32 - i.offset) % 2 ^ 32) ≡ position = omega arith in
    let low : int_leb 0 position ≡ true = le→leb _ _ (omega arith) in
    let high : int_leb position i.limit ≡ true = le→leb _ _ (omega arith) in
    rw moved (rw (low, high))
