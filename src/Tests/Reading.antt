-- ===== src/Tests/Reading.antt =====
-- Readers on small messages, malformed ones among them.
use broncho_mms.Output.State.{result_ok}
use broncho_mms.Base.{List, refl, [], ◌∷◌, ℕ, ◌≡◌, arith, some, none}
use broncho_mms.Input.Total.{IsInside, Returns, get_var_int-Returns}
use broncho_mms.Input.State.{InputBuffer, input_buffer_get_data, input_buffer_push_limit}
use broncho_mms.Input.Decode.{input_buffer_get_long_int, input_buffer_get_var_int}
use broncho_mms.Input.Limits.{Popped, IsLimited, SameBelow, pop_limit-push_limit}
use broncho_mms.Input.Reads.{At}
use broncho_mms.Input.Extent.{
  Taken, get_long_int-Returns, get_data-Taken, get_data_wraps, get_long_int_undefined,
}
use broncho_mms.Tests.Given.{message, message-IsInside, message-IsLimited}

-- A uintvar that the message breaks off.
abbrev broken_off : InputBuffer
broken_off = message (0x82 ∷ 0x80 ∷ []) 0

broken_off-IsInside : IsInside broken_off
broken_off-IsInside = message-IsInside _ 0 (omega arith)

get_var_int-Returns_example : Returns input_buffer_get_var_int broken_off
get_var_int-Returns_example = get_var_int-Returns broken_off broken_off-IsInside

-- A Long-integer of the length that its first octet gives.
abbrev long_int_of : ℕ → InputBuffer
long_int_of count = message (count ∷ 1 ∷ 2 ∷ 3 ∷ []) 0

long_int_of-At : (count : ℕ) → At (long_int_of count) (count ∷ [])
long_int_of-At count = record {
  rest = 1 ∷ 2 ∷ 3 ∷ [];
  stands = refl;
  inside = omega arith;
  small = omega arith;
}

get_long_int-Returns_example : Returns input_buffer_get_long_int (long_int_of 4)
get_long_int-Returns_example =
    get_long_int-Returns (long_int_of 4) 4 (message-IsInside _ 0 (omega arith)) (long_int_of-At 4)
      (omega arith)

get_long_int_undefined_example : input_buffer_get_long_int (long_int_of 5) ≡ none
get_long_int_undefined_example =
    get_long_int_undefined (long_int_of 5) 5 (message-IsInside _ 0 (omega arith)) (long_int_of-At 5)
      (omega arith)

abbrev letters : InputBuffer
letters = message (65 ∷ 66 ∷ 67 ∷ 68 ∷ []) 1

pop_limit-push_limit_example :
    (limits : List ℕ) × (input_buffer_push_limit 3 letters
      ≡ some (result_ok, record letters { limit = 3; limits = limits; limit_nr = 1 }))
    × IsLimited (record letters { limit = 3; limits = limits; limit_nr = 1 })
    × SameBelow 0 letters.limits limits
    × Popped letters 2 (record letters { offset = 2; limit = 3; limits = limits; limit_nr = 1 })
pop_limit-push_limit_example =
    pop_limit-push_limit letters 3 2 (message-IsLimited _ 1) (omega arith) (omega arith)

get_data-Taken_example : Taken letters 2
get_data-Taken_example = get_data-Taken letters 2 (omega arith) (omega arith)

get_data_wraps_example :
    input_buffer_get_data 4294967295 letters ≡ some (some 1, record letters { offset = 0 })
get_data_wraps_example =
    get_data_wraps letters 1 (omega arith) (omega arith) (omega arith) (omega arith)
