-- ===== src/Input/State.antt =====
-- The input buffer of src/mms_input_buffer.c: a cursor in a block, the limit up to which it may
-- read, and the stack of nested limits. The handle is a live object. A `char*` into the buffer is
-- given as its offset where the caller reads bytes, and as the C string there where it reads text.
use broncho_mms.Base.{
  ◌++◌, ℕ, zero, suc, ◌+◌, ◌-◌, ◌%◌, ◌^◌, Bool, ◌&&◌, Option, none, some, List, [], ◌∷◌, ltb, leb,
  ◌==◌, length, take, drop, get_elem?, replicate, if◌then◌else◌, M, pure, and_then, ◌>>=◌, word_mod,
  add32,
}
use broncho_mms.Memory.{Block, CString, Allocator, store_at, c_string}
use broncho_mms.Output.State.{MmsResult, result_ok, result_fail}

abbrev pub max_limits : ℕ
max_limits = 8

pub record InputBuffer : Type 0 where
  pub buffer : Block
  pub offset : ℕ
  pub limit : ℕ
  pub length : ℕ
  pub limits : List ℕ
  pub limit_nr : ℕ

-- `sizeof(MmsInputBuffer)`: 14 words.
abbrev pub input_buffer_size : ℕ
input_buffer_size = 56

abbrev pub In : Type 0 → Type 0
In A = M InputBuffer A

-- The buffer over the first `length` bytes of an object; `none` is NULL, as argument and as result.
unfoldable pub input_buffer_create : Allocator → Option Block → ℕ → Option InputBuffer
input_buffer_create a none length = none
input_buffer_create a (some buffer) length =
    if length == 0
    then none
    else and_then (a.calloc input_buffer_size) λ _. some (record {
      buffer = buffer;
      offset = 0;
      limit = length;
      length = length;
      limits = replicate 9 0;
      limit_nr = 0;
    })

unfoldable pub input_buffer_is_eof : InputBuffer → Bool
input_buffer_is_eof i = leb i.limit i.offset

unfoldable pub input_buffer_push_limit : ℕ → In MmsResult
input_buffer_push_limit limit i =
    if leb limit i.length && ltb i.limit_nr max_limits
    then (and_then (store_at i.limits i.limit_nr limit) λ limits.
        some (result_ok, record i { limit = limit; limits = limits; limit_nr = i.limit_nr + 1 }))
    else some (result_fail, i)

-- The limit below slot `nr` is current again, and the slot is cleared.
unfoldable pub uncover_limit : ℕ → In MmsResult
uncover_limit nr i = and_then (get_elem? i.limits (nr - 1)) λ limit.
    and_then (store_at i.limits nr 0)
      λ limits. some (result_ok, record i { limit = limit; limits = limits; limit_nr = nr })

unfoldable pub input_buffer_pop_limit : In MmsResult
input_buffer_pop_limit i =
    if ltb 0 i.limit_nr
    then (let nr = i.limit_nr - 1 in
        if ltb 0 nr
        then uncover_limit nr i
        else some (result_ok, record i { limit = i.length; limit_nr = nr }))
    else some (result_fail, i)

unfoldable pub input_buffer_skip_to_limit : In MmsResult
input_buffer_skip_to_limit i = some (result_ok, record i { offset = i.limit })

unfoldable pub input_buffer_peek_int8 : In ℕ
input_buffer_peek_int8 i =
    if input_buffer_is_eof i
    then some (0, i)
    else and_then (get_elem? i.buffer i.offset) λ b. some (b, i)

unfoldable pub input_buffer_get_int8 : In ℕ
input_buffer_get_int8 i =
    if input_buffer_is_eof i
    then some (0, i)
    else and_then (get_elem? i.buffer i.offset) λ b. some (b, record i { offset = i.offset + 1 })

-- `none` is the NULL at the end of the input. `strlen` walks past the limit if there is no NUL.
unfoldable pub input_buffer_get_string : In (Option CString)
input_buffer_get_string i =
    if input_buffer_is_eof i
    then some (none, i)
    else (and_then (c_string (drop i.offset i.buffer))
        λ s. some (some s, record i { offset = add32 i.offset (add32 (length s) 1) }))

-- The first `n` bytes of a block, with the first `ch` among them turned into NUL.
unfoldable pub cut_at : ℕ → ℕ → Block → Block
cut_at ch zero b = b
cut_at ch (suc n) [] = []
cut_at ch (suc n) (c ∷ b) = if c == ch then 0 ∷ b else c ∷ cut_at ch n b

-- The scan writes into the received message.
unfoldable pub input_buffer_get_string_end_with : ℕ → In (Option CString)
input_buffer_get_string_end_with ch i =
    if input_buffer_is_eof i
    then some (none, i)
    else (let rest = cut_at ch (i.limit - i.offset) (drop i.offset i.buffer) in
        and_then (c_string rest) λ s. some (
          some s,
          record i {
            buffer = take i.offset i.buffer ++ rest;
            offset = add32 i.offset (add32 (length s) 1);
          },
        ))

-- The offset of the data. The sum that is tested wraps as `size_t` does.
unfoldable pub input_buffer_get_data : ℕ → In (Option ℕ)
input_buffer_get_data length i =
    if input_buffer_is_eof i
    then some (none, i)
    else if leb (add32 i.offset length) i.limit
    then some (some i.offset, record i { offset = add32 i.offset length })
    else some (none, i)

-- The difference of two `size_t`, the limit lying ahead.
unfoldable pub input_buffer_get_remaining_length : InputBuffer → ℕ
input_buffer_get_remaining_length i = if input_buffer_is_eof i then 0 else i.limit - i.offset

unfoldable pub input_buffer_get_remaining : InputBuffer → Option ℕ
input_buffer_get_remaining i = if input_buffer_is_eof i then none else some i.offset

unfoldable pub input_buffer_is_string : In Bool
input_buffer_is_string = do c ← input_buffer_peek_int8; pure (leb 0x20 c && ltb c 0x80)

unfoldable pub input_buffer_is_short_int : In Bool
input_buffer_is_short_int = do c ← input_buffer_peek_int8; pure (leb 0x80 c)

unfoldable pub input_buffer_is_value_length : In Bool
input_buffer_is_value_length = do c ← input_buffer_peek_int8; pure (leb c 31)

unfoldable pub input_buffer_tell : InputBuffer → ℕ
input_buffer_tell i = i.offset

-- `a <= b` of two `int`s given as bit patterns
abbrev pub int_leb : ℕ → ℕ → Bool
int_leb a b = leb ((a + 2 ^ 31) % word_mod) ((b + 2 ^ 31) % word_mod)

-- `offset` is the bit pattern of an `int`.
unfoldable pub input_buffer_seek : ℕ → In MmsResult
input_buffer_seek offset i =
    let new_offset = add32 i.offset offset in
    if int_leb 0 new_offset && int_leb new_offset i.limit
    then some (result_ok, record i { offset = new_offset })
    else some (result_fail, i)
