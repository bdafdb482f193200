-- ===== src/Tests/Writing.antt =====
-- Writes to a small buffer, and what becomes of it without memory.
use broncho_mms.Base.{refl, [], ◌∷◌, List, ◌>>=◌, ◌≡◌, none, some, length, arith}
use broncho_mms.Output.Measure.{get_encoded_string_bytes-Implements}
use broncho_mms.Output.Log.{Log, Implements}
use broncho_mms.Output.Sequences.{
  log_calls, written_by, Follows, Call, calls, begin, log_call, put, rollback, commit,
  calls-Follows,
}
use broncho_mms.Output.State.{
  output_buffer_detach_buffer, output_buffer_put_data, OutputBuffer, result_ok, result_fail,
}
use broncho_mms.Output.Valid.{most_room}
use broncho_mms.Output.Append.{Outcome, put_data-Outcome}
use broncho_mms.Memory.{Allocator}
use broncho_mms.Output.Transactions.{output_buffer_get_encoded_string_bytes}
use broncho_mms.Output.Lifetime.{put_data-detach, put_data-put_data_refused}
use broncho_mms.Tests.Given.{
  supply, nearly_full, supply-IsAllocator, nearly_full-IsValid, supply-Serves,
  nearly_full-Implements,
}
use broncho_mms.Output.Strings.{encoded_string_bytes}

-- A transaction inside another, rolled back, and an end too many.
abbrev script : List Call
script =
    begin ∷ put (67 ∷ 68 ∷ []) ∷ begin ∷ put (69 ∷ []) ∷ rollback ∷ put [] ∷ commit ∷ commit ∷ []

abbrev two_bytes : Log
two_bytes = record { bytes = 65 ∷ 66 ∷ []; marks = [] }

script_log : log_calls script two_bytes ≡ (
  result_ok ∷ result_ok ∷ result_ok ∷ result_ok ∷ result_ok ∷ result_fail ∷ result_ok ∷ result_fail
      ∷ [],
  record { bytes = 65 ∷ 66 ∷ 67 ∷ 68 ∷ []; marks = [] },
)
unfolding log_calls log_call
script_log = refl

script_size : written_by script ≡ 3
unfolding written_by
script_size = refl

calls-Follows_example : Follows (calls supply script) nearly_full (log_calls script two_bytes)
calls-Follows_example =
    calls-Follows supply supply-IsAllocator (supply-Serves most_room) script nearly_full two_bytes
      nearly_full-Implements (omega (arith, script_size))

put_data-Outcome_example :
    Outcome (output_buffer_put_data supply (some (67 ∷ 68 ∷ []))) nearly_full (67 ∷ 68 ∷ [])
put_data-Outcome_example =
    put_data-Outcome supply supply-IsAllocator nearly_full (67 ∷ 68 ∷ []) nearly_full-IsValid
      (omega arith) (omega arith)

get_encoded_string_bytes-Implements_example :
    (o : OutputBuffer) × (output_buffer_get_encoded_string_bytes supply
        (some (104 ∷ []))
        106
        nearly_full
      ≡ some (length (encoded_string_bytes 106 (104 ∷ [])), o))
    × Implements o two_bytes
get_encoded_string_bytes-Implements_example =
    get_encoded_string_bytes-Implements supply supply-IsAllocator (supply-Serves most_room)
      nearly_full two_bytes (104 ∷ []) 106 nearly_full-Implements (omega arith) (omega arith)
      (omega arith) (omega arith)

-- Blocks once handed out do not grow.
abbrev no_growth : Allocator
no_growth = record supply { realloc = λ old n. none }

put_data-put_data_refused_example :
    (failed : OutputBuffer) × (output_buffer_put_data no_growth
        (some (67 ∷ 68 ∷ 69 ∷ []))
        nearly_full
      ≡ some (result_fail, failed))
    × (output_buffer_put_data no_growth (some (67 ∷ [])) failed ≡ none)
put_data-put_data_refused_example =
    put_data-put_data_refused no_growth nearly_full (67 ∷ 68 ∷ 69 ∷ []) (67 ∷ [])
      nearly_full-IsValid (λ b n. refl) (omega arith) (omega arith) (omega arith) (omega arith)
      (omega arith)

put_data-detach_example :
    (output_buffer_detach_buffer >>= λ _. output_buffer_put_data supply (some (67 ∷ [])))
      nearly_full
    ≡ none
put_data-detach_example =
    put_data-detach supply supply-IsAllocator (supply-Serves most_room) nearly_full (67 ∷ [])
      (omega arith) (omega arith)
