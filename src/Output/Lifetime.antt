-- ===== src/Output/Lifetime.antt =====
-- The beginning and the end of a buffer of src/mms_output_buffer.c, and writes to one without its
-- block.
use broncho_mms.Memory.{Allocator, write_bytes, IsAllocator, Serves, Block}
use broncho_mms.Output.State.{
  output_buffer_create, output_buffer_put_data, output_buffer_extend, store, store_data,
  OutputBuffer, realloc_buffer, output_buffer_detach_buffer, output_buffer_size,
  default_output_buffer_length, result_ok, result_fail,
}
use broncho_mms.Base.{
  refl, [], ◌∷◌, ◌>>=◌, List, ℕ, ◌≤◌, ◌<◌, length, ◌≡◌, some, ◌+◌, ◌>>=◌, none, ◌==◌, if◌then◌else◌,
  false, arith, ◌*◌, ◌%◌, word_mod, ltb, add32, le→ltb, true, [], lt→ltb, replicate, ◌∷◌, ◌∙◌,
  lt→leb, ap,
}
use broncho_mms.Output.Valid.{most_room, contents, IsValid, most_data}
use broncho_mms.Output.Log.{Implements}
use broncho_mms.Output.Append.{lost, store_inside}
use broncho_mms.Memory.Laws.{written, length-written}

store_outside :
    (o : OutputBuffer) (b : Block) (offset : ℕ) (bytes : List ℕ)
    → o.buffer ≡ some b
    → length b < offset + length bytes
    → store offset bytes o ≡ none
unfolding store write_bytes
store_outside o b offset bytes e h = rw (e, lt→leb (offset + length bytes) (length b) h)

-- A block that ends where the data do has no byte for the NUL.
no_room :
    (o : OutputBuffer) (b : Block) (bytes : List ℕ)
    → o.buffer ≡ some b
    → length b ≡ length bytes
    → length bytes ≤ most_data
    → store_data bytes (record o { data_length = 0 }) ≡ none
unfolding store_data
no_room o b bytes held full few =
    let n : ℕ = length bytes in
    let b' : Block = written b 0 bytes in
    let size : length b' ≡ n = length-written b 0 bytes (omega arith) ∙ full in
    let o₁ : OutputBuffer = record o { buffer = some b'; data_length = n } in
    let end : add32 0 n ≡ n = omega arith in
    rw (store_inside (record o { data_length = 0 }) b 0 bytes held (omega arith))
      (rw end (rw (store_outside o₁ b' n (0 ∷ []) refl (omega arith))))

-- `extend` of a buffer that has no block.
extend_empty :
    (a : Allocator) (o : OutputBuffer) (n : ℕ) (b : Block)
    → 0 < n
    → n ≤ most_data
    → a.malloc n ≡ some b
    → length b ≡ n
    → output_buffer_extend a n (record o { buffer = none; data_length = 0; length = 0 })
      ≡ some (
        result_ok,
        record o { buffer = some (written b 0 (0 ∷ [])); data_length = 0; length = n },
      )
unfolding output_buffer_extend realloc_buffer
extend_empty a o n b pos few served size =
    let full : ltb (add32 0 n) 0 ≡ false = le→ltb (add32 0 n) 0 (omega arith) in
    let same : (0 * 2 + n) % word_mod ≡ n = omega arith in
    let m : ℕ = (0 * 2 + n) % word_mod in
    let o₁ : OutputBuffer = record o { buffer = some b; data_length = 0; length = m } in
    let o₂ : ℕ → OutputBuffer =
      λ k. record o { buffer = some (written b 0 (0 ∷ [])); data_length = 0; length = k } in
    let served' : a.malloc m ≡ some b = ap a.malloc same ∙ served in
    rw full (
      rw served' (
        rw (store_inside o₁ b 0 (0 ∷ []) refl (omega arith))
          (ap (λ k. some (result_ok, o₂ k)) same)))

module _ (a : Allocator) where
  -- `create`, with an allocator that serves every request up to 3 GiB, returns for every length up
  -- to 3 GiB a valid, empty buffer without transactions, of the length asked for or, for 0, of 512
  -- bytes.
  pub output_buffer_create-Implements :
      IsAllocator a
      → Serves a most_room
      → (n : ℕ) → n ≤ most_room
      → (o : OutputBuffer) × (output_buffer_create a n ≡ some (some o))
        × Implements o (record { bytes = []; marks = [] })
        × (o.length ≡ (if n == 0 then 512 else n))
  unfolding output_buffer_create contents
  output_buffer_create-Implements good serves n h =
      let size : ℕ = if n == 0 then default_output_buffer_length else n in
      let pos : 0 < size = ground arith in
      let small : size ≤ most_room = ground arith in
      let (handle, handled) = serves.calloc_some output_buffer_size (omega arith) in
      let (b, served) = serves.malloc_some size small in
      let length_b : length b ≡ size = good.malloc_size size b served in
      let o₀ : OutputBuffer = record {
        buffer = a.malloc size;
        data_length = 0;
        length = size;
        transaction_begin = 0;
        transactions = replicate 9 0;
        transaction_nr = 0;
      } in
      let stored = store_inside o₀ b 0 (0 ∷ []) served (omega arith) in
      (
        record o₀ { buffer = some (written b 0 (0 ∷ [])) },
        rw (output_buffer_create, handled) (rw stored),
        record {
          valid = record {
            block = written b 0 (0 ∷ []);
            held = refl;
            room = length-written b 0 (0 ∷ []) (omega arith) ∙ length_b;
            spare = pos;
            small = small;
          };
          holds = refl;
          nested = tt;
          stack = tt;
          current = refl;
          slots = refl;
          few = omega arith;
        },
        refl,
      )

  -- With an allocator that serves the handle and refuses every block, `create` writes the NUL
  -- through a NULL pointer.
  pub output_buffer_create_refused :
      (n : ℕ) (handle : Block)
      → a.calloc output_buffer_size ≡ some handle
      → ((k : ℕ) → a.malloc k ≡ none)
      → output_buffer_create a n ≡ none
  unfolding output_buffer_create store
  output_buffer_create_refused n handle handled refused =
      rw (
        output_buffer_create,
        handled,
        refused (if n == 0 then default_output_buffer_length else n),
      )

  -- A write that fits the old length, to a buffer whose block is lost.
  write_lost :
      (o : OutputBuffer) (bytes : List ℕ)
      → IsValid o
      → 0 < length bytes
      → o.data_length + length bytes < o.length
      → output_buffer_put_data a (some bytes) (lost o) ≡ none
  unfolding output_buffer_put_data output_buffer_extend store_data store
  write_lost o bytes v some_bytes room =
      let ne : (length bytes == 0) ≡ false = ground arith in
      let fits : ltb (add32 o.data_length (length bytes)) o.length ≡ true =
        lt→ltb (add32 o.data_length (length bytes)) o.length (omega (arith, v.small)) in
      rw ne (rw fits)

  -- A write that needs a larger block, and is refused one.
  write_refused :
      (o : OutputBuffer) (bytes : List ℕ)
      → IsValid o
      → ((b : Block) (n : ℕ) → a.realloc b n ≡ none)
      → o.length ≤ o.data_length + length bytes
      → o.data_length + length bytes ≤ most_data
      → 0 < length bytes
      → output_buffer_put_data a (some bytes) o ≡ some (result_fail, lost o)
  unfolding output_buffer_put_data output_buffer_extend realloc_buffer
  write_refused o bytes v refused full few some_bytes =
      let n : ℕ = length bytes in
      let ne : (n == 0) ≡ false = ground arith in
      rw ne (
        rw (le→ltb (add32 o.data_length n) o.length (omega arith), v.held)
          (rw (refused v.block ((o.length * 2 + n) % word_mod))))

  -- On a valid buffer, with an allocator that refuses to grow a block: a `put_data` of bytes for
  -- which there is no room, with at most 1 GiB of data after them, returns MMS_RESULT_FAIL, and a
  -- second `put_data`, of at least one byte for which there was room before, is undefined: it
  -- writes through a NULL pointer.
  pub put_data-put_data_refused :
      (o : OutputBuffer) (bytes bytes' : List ℕ)
      → IsValid o
      → ((b : Block) (n : ℕ) → a.realloc b n ≡ none)
      → o.length ≤ o.data_length + length bytes
      → o.data_length + length bytes ≤ most_data
      → 0 < length bytes
      → 0 < length bytes'
      → o.data_length + length bytes' < o.length
      → (failed : OutputBuffer) × (output_buffer_put_data a (some bytes) o
          ≡ some (result_fail, failed))
        × (output_buffer_put_data a (some bytes') failed ≡ none)
  put_data-put_data_refused o bytes bytes' v refused full few some_bytes some_bytes' room = (
    lost o,
    write_refused o bytes v refused full few some_bytes,
    write_lost o bytes' v some_bytes' room,
  )

  -- After `detach_buffer`, with an allocator that serves every request up to 3 GiB with a block of
  -- the size asked for, a `put_data` of 1 byte to 1 GiB writes its NUL behind the end of the new
  -- block, whatever was in the buffer.
  pub put_data-detach :
      IsAllocator a
      → Serves a most_room
      → (o : OutputBuffer) (bytes : List ℕ) → 0 < length bytes
      → length bytes ≤ most_data
      → (output_buffer_detach_buffer >>= λ _. output_buffer_put_data a (some bytes)) o ≡ none
  unfolding output_buffer_put_data output_buffer_detach_buffer
  put_data-detach good serves o bytes some_bytes few =
      let n : ℕ = length bytes in
      let ne : (length bytes == 0) ≡ false = ground arith in
      let (b, served) = serves.malloc_some n (omega arith) in
      let size : length b ≡ n = good.malloc_size n b served in
      let b' : Block = written b 0 (0 ∷ []) in
      let size' : length b' ≡ n = length-written b 0 (0 ∷ []) (omega arith) ∙ size in
      let o₀ : OutputBuffer = record o { buffer = none; data_length = 0; length = 0 } in
      let o₁ : OutputBuffer = record o₀ { buffer = some b'; length = n } in
      rw ne (
        rw (extend_empty a o n b some_bytes (omega arith) served size)
          (no_room o₁ b' bytes refl size' (omega arith)))
