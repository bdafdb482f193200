-- ===== src/Output/Append.antt =====
-- `extend`, `put_char` and `put_data`: on a valid buffer each either appends or, where the
-- allocator refuses to grow the block, reports a failure.
use broncho_mms.Base.{
  ℕ, ◌+◌, ◌*◌, ◌%◌, ◌≤◌, ◌<◌, ◌≡◌, refl, ◌∙◌, ◌⊎◌, inl, inr, Option, none, some, List, [], ◌∷◌,
  arith, length, add32, word_mod, lt→ltb, le→ltb, lt-cases, Option-cases, append-nil, ◌==◌, false,
}
use broncho_mms.Memory.{Block, Allocator, IsAllocator, Serves}
use broncho_mms.Memory.Laws.{
  written, write_bytes_inside, length-written, take-written_before, take-written,
}
use broncho_mms.Output.State.{
  MmsResult, result_ok, result_fail, OutputBuffer, store, realloc_buffer, output_buffer_extend,
  store_char, Out, output_buffer_put_char, store_data, output_buffer_put_data,
}
use broncho_mms.Output.Valid.{
  most_data, IsValid, contents, Appended, Appended-refl, most_room, Appends, Appended-trans,
}

pub store_inside :
    (o : OutputBuffer) (b : Block) (offset : ℕ) (bytes : List ℕ)
    → o.buffer ≡ some b
    → offset + length bytes ≤ length b
    → store offset bytes o ≡ some (record o { buffer = some (written b offset bytes) })
unfolding store
store_inside o b offset bytes e h = rw (e, write_bytes_inside b offset bytes h)

-- The state after a failed `realloc`: the pointer is lost, the lengths stay.
abbrev pub lost : OutputBuffer → OutputBuffer
lost o = record o { buffer = none }

-- Room for `n` more bytes and the NUL, with the contents kept.
abbrev Extends : OutputBuffer → ℕ → Option (MmsResult × OutputBuffer) → Type 0
Extends o n r =
    (o' : OutputBuffer) × (r ≡ some (result_ok, o'))
    × Appended o [] o'
    × (o.data_length + n < o'.length)

-- The size that `extend` asks for.
abbrev pub grown_length : OutputBuffer → ℕ → ℕ
grown_length o n = (o.length * 2 + n) % word_mod

module _ (a : Allocator) (good : IsAllocator a) where
  grown :
      (o : OutputBuffer) (v : IsValid o) (n : ℕ) (b : Block)
      → o.data_length + n ≤ most_data
      → o.length ≤ o.data_length + n
      → a.realloc v.block (grown_length o n) ≡ some b
      → Extends o n (output_buffer_extend a n o)
  unfolding output_buffer_extend realloc_buffer contents
  grown o v n b fits full e =
      let size : length b ≡ o.length * 2 + n =
        omega (arith, good.realloc_size v.block _ b e, v.small, v.spare) in
      let end : o.data_length + 1 ≤ length b = omega (arith, v.spare) in
      let o₁ : OutputBuffer = record o { buffer = some b; length = grown_length o n } in
      let stored = store_inside o₁ b o.data_length (0 ∷ []) refl end in
      let o₂ : OutputBuffer = record o {
        buffer = some (written b o.data_length (0 ∷ []));
        length = grown_length o n;
      } in
      (
        o₂,
        rw (le→ltb (add32 o.data_length n) o.length (omega arith), v.held, e) (rw stored),
        record {
          valid = record {
            block = written b o.data_length (0 ∷ []);
            held = refl;
            room = omega (arith, length-written b o.data_length (0 ∷ []) end, v.small, v.spare);
            spare = omega (arith, v.spare, v.small);
            small = omega (arith, v.spare, v.small);
          };
          shows =
              take-written_before b o.data_length o.data_length (0 ∷ []) (omega arith) end
              ∙ good.realloc_keeps v.block _ o.data_length b e (omega (arith, v.room, v.spare))
                  (omega (arith, v.spare, v.small))
              ∙ rw (v.held, append-nil);
          counts = omega arith;
          same_begin = refl;
          same_marks = refl;
          same_nr = refl;
        },
        omega (arith, v.spare, v.small),
      )

  extend_cases :
      (o : OutputBuffer) (v : IsValid o) (n : ℕ)
      → o.data_length + n ≤ most_data
      → Extends o n (output_buffer_extend a n o)
        ⊎ (output_buffer_extend a n o ≡ some (result_fail, lost o))
          × (a.realloc v.block (grown_length o n) ≡ none)
          × (o.length ≤ o.data_length + n)
  unfolding output_buffer_extend realloc_buffer
  extend_cases o v n fits = elim (lt-cases (o.data_length + n) o.length) [
    | inl room ↦
        inl (o, rw (lt→ltb (add32 o.data_length n) o.length (omega arith)), Appended-refl v, room)
    | inr full ↦ elim (Option-cases (a.realloc v.block (grown_length o n))) [
      | inl e ↦ inr (rw (le→ltb (add32 o.data_length n) o.length (omega arith), v.held, e), e, full)
      | inr (b, e) ↦ inl (grown o v n b fits full e)
    ]
  ]

store_char_room :
    (o : OutputBuffer) (ch : ℕ)
    → IsValid o
    → o.data_length + 1 < o.length
    → Appends (store_char ch) o (ch ∷ [])
unfolding store_char contents
store_char_room o ch v room =
    let fits : o.data_length + 1 ≤ length v.block = omega (arith, v.room) in
    let end : add32 o.data_length 1 ≡ o.data_length + 1 = omega (arith, v.small) in
    let b : Block = written v.block o.data_length (ch ∷ []) in
    record {
      after = record o { buffer = some b; data_length = o.data_length + 1 };
      runs = rw (store_inside o v.block o.data_length (ch ∷ []) v.held fits) (rw end);
      appended = record {
        valid = record {
          block = b;
          held = refl;
          room = omega (arith, length-written v.block o.data_length (ch ∷ []) fits, v.room);
          spare = room;
          small = v.small;
        };
        shows = take-written v.block o.data_length (ch ∷ []) fits ∙ rw v.held;
        counts = omega arith;
        same_begin = refl;
        same_marks = refl;
        same_nr = refl;
      };
    }

store_data_room :
    (o : OutputBuffer) (bytes : List ℕ)
    → IsValid o
    → o.data_length + length bytes < o.length
    → Appends (store_data bytes) o bytes
unfolding store_data contents
store_data_room o bytes v room =
    let at : ℕ = o.data_length + length bytes in
    let fits : at ≤ length v.block = omega (arith, v.room) in
    let end : add32 o.data_length (length bytes) ≡ at = omega (arith, v.small) in
    let b : Block = written v.block o.data_length bytes in
    let size : length b ≡ o.length =
      omega (arith, length-written v.block o.data_length bytes fits, v.room) in
    let fits' : at + 1 ≤ length b = omega arith in
    let b' : Block = written b at (0 ∷ []) in
    let o₁ : OutputBuffer = record o { buffer = some b; data_length = at } in
    record {
      after = record o { buffer = some b'; data_length = at };
      runs =
          rw (store_inside o v.block o.data_length bytes v.held fits)
            (rw end (rw (store_inside o₁ b at (0 ∷ []) refl fits')));
      appended = record {
        valid = record {
          block = b';
          held = refl;
          room = omega (arith, length-written b at (0 ∷ []) fits');
          spare = room;
          small = v.small;
        };
        shows =
            take-written_before b at at (0 ∷ []) (omega arith) fits'
            ∙ take-written v.block o.data_length bytes fits
            ∙ rw v.held;
        counts = refl;
        same_begin = refl;
        same_marks = refl;
        same_nr = refl;
      };
    }

-- What a write comes to: the bytes appended, or a failure that loses the block.
abbrev pub Outcome : Out MmsResult → OutputBuffer → List ℕ → Type 0
Outcome m o bytes = Appends m o bytes ⊎ (m o ≡ some (result_fail, lost o))

module _ (a : Allocator) (good : IsAllocator a) where
  put_char_cases :
      (o : OutputBuffer) (v : IsValid o) (ch : ℕ)
      → o.data_length + 1 ≤ most_data
      → Appends (output_buffer_put_char a ch) o (ch ∷ [])
        ⊎ (output_buffer_put_char a ch o ≡ some (result_fail, lost o))
          × (a.realloc v.block (grown_length o 1) ≡ none)
          × (o.length ≤ o.data_length + 1)
  unfolding output_buffer_put_char
  put_char_cases o v ch fits = elim (extend_cases a good o v 1 fits) [
    | inr (e, refused, full) ↦ inr (rw e, refused, full)
    | inl (o', e, p, room) ↦
        let put = store_char_room o' ch p.valid (omega (arith, p.counts)) in
        inl (record {
          after = put.after;
          runs = rw e put.runs;
          appended = Appended-trans p put.appended;
        })
  ]

  put_data_cases :
      (o : OutputBuffer) (v : IsValid o) (bytes : List ℕ)
      → 0 < length bytes
      → o.data_length + length bytes ≤ most_data
      → Appends (output_buffer_put_data a (some bytes)) o bytes
        ⊎ (output_buffer_put_data a (some bytes) o ≡ some (result_fail, lost o))
          × (a.realloc v.block (grown_length o (length bytes)) ≡ none)
          × (o.length ≤ o.data_length + length bytes)
  unfolding output_buffer_put_data
  put_data_cases o v bytes some_bytes fits =
      let ne : (length bytes == 0) ≡ false = ground arith in
      elim (extend_cases a good o v (length bytes) fits) [
        | inr (e, refused, full) ↦ inr (rw ne (rw e), refused, full)
        | inl (o', e, p, room) ↦
            let put = store_data_room o' bytes p.valid (omega (arith, p.counts)) in
            inl (record {
              after = put.after;
              runs = rw ne (rw e put.runs);
              appended = Appended-trans p put.appended;
            })
      ]

  -- On a valid buffer with at most 1 GiB of data after the write, `put_data` of at least one byte
  -- either appends exactly the bytes and keeps the invariant and the transactions, or returns
  -- MMS_RESULT_FAIL with the block lost and all else unchanged.
  pub put_data-Outcome :
      (o : OutputBuffer) (bytes : List ℕ)
      → IsValid o
      → 0 < length bytes
      → o.data_length + length bytes ≤ most_data
      → Outcome (output_buffer_put_data a (some bytes)) o bytes
  put_data-Outcome o bytes v some_bytes fits = elim (put_data_cases o v bytes some_bytes fits) [
    | inl p ↦ inl p
    | inr (e, _, _) ↦ inr e
  ]

  module _ (serves : Serves a most_room) where
    pub put_char-Appends :
        (o : OutputBuffer) (ch : ℕ)
        → IsValid o
        → o.data_length + 1 ≤ most_data
        → Appends (output_buffer_put_char a ch) o (ch ∷ [])
    put_char-Appends o ch v fits = elim (put_char_cases o v ch fits) [
      | inl p ↦ p
      | inr (e, refused, full) ↦
          let (b, served) = serves.realloc_some v.block (grown_length o 1) (omega arith) in cc
    ]

    pub put_data-Appends :
        (o : OutputBuffer) (bytes : List ℕ)
        → IsValid o
        → 0 < length bytes
        → o.data_length + length bytes ≤ most_data
        → Appends (output_buffer_put_data a (some bytes)) o bytes
    put_data-Appends o bytes v some_bytes fits = elim (put_data_cases o v bytes some_bytes fits) [
      | inl p ↦ p
      | inr (e, refused, full) ↦
          let size = grown_length o (length bytes) in
          let (b, served) = serves.realloc_some v.block size (omega arith) in cc
    ]
