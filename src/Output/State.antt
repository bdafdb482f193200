-- ===== src/Output/State.antt =====
-- The output buffer of src/mms_output_buffer.c: its storage, and the raw writes.
-- The handle is a live object, so the tests `thiz != NULL` pass.
use broncho_mms.Base.{
  ℕ, ◌+◌, ◌*◌, ◌%◌, Option, none, some, List, [], ◌∷◌, ltb, ◌==◌, length, replicate, if◌then◌else◌,
  M, pure, and_then, ◌>>=◌, add32, word_mod,
}
use broncho_mms.Memory.{Block, Allocator, write_bytes}

pub data MmsResult : Type 0 where
  result_none result_ok result_fail result_nr : MmsResult

abbrev pub max_transactions : ℕ
max_transactions = 8

abbrev pub default_output_buffer_length : ℕ
default_output_buffer_length = 512

-- `buffer` is `none` where the pointer is NULL.
pub record OutputBuffer : Type 0 where
  pub buffer : Option Block
  pub data_length : ℕ
  pub length : ℕ
  pub transaction_begin : ℕ
  pub transactions : List ℕ
  pub transaction_nr : ℕ

-- `sizeof(MmsOutputBuffer)`: 14 words.
abbrev pub output_buffer_size : ℕ
output_buffer_size = 56

abbrev pub Out : Type 0 → Type 0
Out A = M OutputBuffer A

-- Access to the bytes behind `thiz->buffer`: undefined where that is NULL.
unfoldable pub store : ℕ → List ℕ → OutputBuffer → Option OutputBuffer
store offset bytes o =
    and_then o.buffer
      λ b. and_then (write_bytes b offset bytes) λ b'. some (record o { buffer = some b' })

-- `thiz->buffer[thiz->data_length++] = ch`
unfoldable pub store_char : ℕ → Out MmsResult
unfolding store
store_char ch o =
    and_then (store o.data_length (ch ∷ []) o)
      λ o'. some (result_ok, record o' { data_length = add32 o.data_length 1 })

-- The `memcpy`, the new length and the NUL behind the data.
unfoldable pub store_data : List ℕ → Out MmsResult
unfolding store
store_data bytes o = and_then (store o.data_length bytes o) λ o'.
    let end = add32 o.data_length (length bytes) in
    and_then (store end (0 ∷ []) (record o' { data_length = end })) λ o''. some (result_ok, o'')

module _ (a : Allocator) where
  -- `some none` is a NULL result.
  unfoldable pub output_buffer_create : ℕ → Option (Option OutputBuffer)
  unfolding store
  output_buffer_create init_length = elim (a.calloc output_buffer_size) [
    | none ↦ some none
    | some _ ↦
        let length = if init_length == 0 then default_output_buffer_length else init_length in
        let fresh : OutputBuffer = record {
          buffer = a.malloc length;
          data_length = 0;
          length = length;
          transaction_begin = 0;
          transactions = replicate 9 0;
          transaction_nr = 0;
        } in
        and_then (store 0 (0 ∷ []) fresh) λ o. some (some o)
  ]

  -- `realloc` of a NULL pointer is `malloc`.
  unfoldable pub realloc_buffer : Option Block → ℕ → Option Block
  realloc_buffer none n = a.malloc n
  realloc_buffer (some b) n = a.realloc b n

  unfoldable pub output_buffer_extend : ℕ → Out MmsResult
  unfolding realloc_buffer store
  output_buffer_extend min_size o =
      if ltb (add32 o.data_length min_size) o.length
      then some (result_ok, o)
      else (let new_length = (o.length * 2 + min_size) % word_mod in
          elim (realloc_buffer o.buffer new_length) [
            | none ↦ some (result_fail, record o { buffer = none })
            | some b ↦
                let grown : OutputBuffer = record o { buffer = some b; length = new_length } in
                and_then (store o.data_length (0 ∷ []) grown) λ o'. some (result_ok, o')
          ])

  unfoldable pub output_buffer_put_char : ℕ → Out MmsResult
  unfolding output_buffer_extend store_char
  output_buffer_put_char ch = do
    extended ← output_buffer_extend 1
    elim extended [ result_ok ↦ store_char ch | _ ↦ pure result_fail ]

  -- `none` is a NULL `data`; the source's `data_length` is the length of the list.
  unfoldable pub output_buffer_put_data : Option (List ℕ) → Out MmsResult
  unfolding output_buffer_extend store_data
  output_buffer_put_data none = pure result_fail
  output_buffer_put_data (some bytes) = if length bytes == 0 then pure result_fail else do
    extended ← output_buffer_extend (length bytes)
    elim extended [ result_ok ↦ store_data bytes | _ ↦ pure result_fail ]

unfoldable pub output_buffer_clear : Out MmsResult
output_buffer_clear o = some (result_ok, record o { data_length = 0 })

unfoldable pub output_buffer_reset : Out MmsResult
output_buffer_reset o = some (result_ok, record o { data_length = 0 })

unfoldable pub output_buffer_get_buffer_length : OutputBuffer → ℕ
output_buffer_get_buffer_length o = o.data_length

unfoldable pub output_buffer_get_buffer : OutputBuffer → Option Block
output_buffer_get_buffer o = o.buffer

unfoldable pub output_buffer_detach_buffer : Out (Option Block)
output_buffer_detach_buffer o =
    some (o.buffer, record o { buffer = none; data_length = 0; length = 0 })
