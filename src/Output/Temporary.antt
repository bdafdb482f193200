-- ===== src/Output/Temporary.antt =====
-- A buffer that a packer creates for itself: written, appended to the output and destroyed.
use broncho_mms.Base.{none, some, Option, ℕ, and_then, if◌then◌else◌, leb, length, take}
use broncho_mms.Memory.{Allocator}
use broncho_mms.Output.State.{
  output_buffer_create, OutputBuffer, output_buffer_put_data, output_buffer_get_buffer,
  output_buffer_get_buffer_length, Out, MmsResult,
}

-- `get_buffer_length`, which is 0 for a NULL handle.
abbrev pub length_of : Option OutputBuffer → ℕ
length_of none = 0
length_of (some temp) = temp.data_length

module _ (a : Allocator) where
  -- `put_data(output, get_buffer(temp), get_buffer_length(temp))`; `none` if the length passes the
  -- block.
  unfoldable pub put_buffer_of : OutputBuffer → Out MmsResult
  unfolding output_buffer_get_buffer output_buffer_get_buffer_length output_buffer_put_data
  put_buffer_of temp = elim (output_buffer_get_buffer temp) [
    | none ↦ output_buffer_put_data a none
    | some b ↦
        if leb (output_buffer_get_buffer_length temp) (length b)
        then output_buffer_put_data a (some (take (output_buffer_get_buffer_length temp) b))
        else λ o. none
  ]

  -- What is written to the new buffer, then `use` of it; the buffer ends with the call. A handle
  -- that could not be allocated is NULL, and writes to it fail.
  unfoldable pub with_temporary :
      ℕ → Out MmsResult → (Option OutputBuffer → Out MmsResult) → Out MmsResult
  unfolding output_buffer_create
  with_temporary size write use_it o = and_then (output_buffer_create a size) λ handle.
      elim handle [
        | none ↦ use_it none o
        | some temp ↦ and_then (write temp) λ r. use_it (some r.1) o
      ]

  -- The data of a NULL handle is NULL.
  unfoldable pub put_temporary : Option OutputBuffer → Out MmsResult
  unfolding put_buffer_of output_buffer_put_data
  put_temporary none = output_buffer_put_data a none
  put_temporary (some temp) = put_buffer_of temp
