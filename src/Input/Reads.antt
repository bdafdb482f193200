-- ===== src/Input/Reads.antt =====
-- Readers on known bytes: what stands at the cursor, and a reader that takes exactly it.
use broncho_mms.Base.{
  ℕ, ◌+◌, ◌^◌, ◌≤◌, ◌<◌, ◌≡◌, refl, ap, sym, ◌∙◌, arith, some, List, [], ◌∷◌, ◌++◌, pure, ◌>>=◌,
  length, drop, drop-drop, append_assoc, length-append, get_elem?-drop, false, drop-append, lt→leb,
  add32, ap₂, leb, ◌&&◌, ltb,
}
use native.Mathlib.Nat.{add_assoc, add-zero}
use broncho_mms.Memory.{Block, c_string}
use broncho_mms.Input.State.{
  InputBuffer, In, input_buffer_get_int8, input_buffer_is_eof, input_buffer_get_string,
  input_buffer_peek_int8, input_buffer_is_short_int, input_buffer_is_value_length,
  input_buffer_is_string,
}
use broncho_mms.Memory.Laws.{NoNul, c_string-append}
use broncho_mms.Wire.{text_bytes}

-- `bytes` stand at the cursor, below the limit.
pub record At (i : InputBuffer) (bytes : List ℕ) : Type 0 where
  pub rest : Block
  pub stands : drop i.offset i.buffer ≡ bytes ++ rest
  pub inside : i.offset + length bytes ≤ i.limit
  pub small : i.limit < 2 ^ 32

abbrev pub advance : InputBuffer → ℕ → InputBuffer
advance i n = record i { offset = i.offset + n }

-- The reader returns `a` and takes `n` bytes.
pub record Reads {A : Type 0} (m : In A) (i : InputBuffer) (n : ℕ) (a : A) : Type 0 where
  pub runs : m i ≡ some (a, advance i n)

pub At-first : (i : InputBuffer) (xs ys : List ℕ) → At i (xs ++ ys) → At i xs
At-first i xs ys at = record {
  rest = ys ++ at.rest;
  stands = at.stands ∙ append_assoc xs ys at.rest;
  inside = omega (arith, at.inside, length-append xs ys);
  small = at.small;
}

pub At-second : (i : InputBuffer) (xs ys : List ℕ) → At i (xs ++ ys) → At (advance i (length xs)) ys
At-second i xs ys at = record {
  rest = at.rest;
  stands =
      sym (drop-drop (length xs) i.offset i.buffer)
      ∙ ap (drop (length xs)) (at.stands ∙ append_assoc xs ys at.rest)
      ∙ drop-append xs (ys ++ at.rest) (length xs) refl;
  inside = omega (arith, at.inside, length-append xs ys);
  small = at.small;
}

module _ {A B : Type 0} {m : In A} {i : InputBuffer} {n : ℕ} {a : A} where
  pub Reads-then :
      (k : A → In B) {n' : ℕ} {b : B}
      → Reads m i n a
      → Reads (k a) (advance i n) n' b
      → Reads (m >>= k) i (n + n') b
  Reads-then k {n'} {b} h next = record {
    runs =
        rw h.runs
          (next.runs ∙ ap (λ t. some (b, record i { offset = t })) (add_assoc i.offset n n'));
  }

  pub Reads-map :
      {b : B} (f : A → B) → f a ≡ b → Reads m i n a → Reads (m >>= λ x. pure (f x)) i n b
  Reads-map f e h = record { runs = rw h.runs (ap (λ t. some (t, advance i n)) e) }

pub Reads-pure : {A : Type 0} {i : InputBuffer} {a : A} → Reads (pure a) i 0 a
Reads-pure {i} {a} = record {
  runs = ap (λ t. some (a, record i { offset = t })) (sym (add-zero i.offset));
}

pub Reads-eq :
    {A : Type 0} {m : In A} {i : InputBuffer} {n n' : ℕ} {a a' : A}
    → Reads m i n a
    → n ≡ n'
    → a ≡ a'
    → Reads m i n' a'
Reads-eq {i} h e e' = record { runs = h.runs ∙ ap₂ (λ t b. some (b, advance i t)) e e' }

-- A reader that runs like another from here.
pub Reads-runs :
    {A : Type 0} {m m' : In A} {i : InputBuffer} {n : ℕ} {a : A}
    → m' i ≡ m i
    → Reads m i n a
    → Reads m' i n a
Reads-runs e h = record { runs = e ∙ h.runs }

-- Below the limit the input has not ended.
pub At-ne-eof :
    {i : InputBuffer} {bytes : List ℕ}
    → At i bytes
    → 0 < length bytes
    → input_buffer_is_eof i ≡ false
unfolding input_buffer_is_eof
At-ne-eof {i} at h = lt→leb i.limit i.offset (omega (arith, at.inside))

pub peek_int8-Reads :
    {i : InputBuffer} {b : ℕ} {bytes : List ℕ}
    → At i (b ∷ bytes)
    → input_buffer_peek_int8 i ≡ some (b, i)
unfolding input_buffer_peek_int8
peek_int8-Reads {i} at = rw (At-ne-eof at (omega arith), get_elem?-drop i.offset i.buffer at.stands)

pub get_int8-Reads : {i : InputBuffer} {b : ℕ} → At i (b ∷ []) → Reads input_buffer_get_int8 i 1 b
unfolding input_buffer_get_int8
get_int8-Reads {i} at = record {
  runs = rw (At-ne-eof at (omega arith), get_elem?-drop i.offset i.buffer at.stands);
}

-- A string that starts below the limit; its NUL may stand behind it.
pub get_string-over :
    {i : InputBuffer} (s : List ℕ) (rest : Block)
    → NoNul s
    → drop i.offset i.buffer ≡ text_bytes s ++ rest
    → i.offset < i.limit
    → i.offset + length s + 1 < 2 ^ 32
    → Reads input_buffer_get_string i (length s + 1) (some s)
unfolding input_buffer_get_string input_buffer_is_eof
get_string-over {i} s rest h stands starts small =
    let whole : c_string (drop i.offset i.buffer) ≡ some s =
      ap c_string (stands ∙ append_assoc s (0 ∷ []) rest) ∙ c_string-append s rest h in
    let end : add32 i.offset (add32 (length s) 1) ≡ i.offset + (length s + 1) = omega arith in
    record {
      runs =
          rw (lt→leb i.limit i.offset starts, whole)
            (ap (λ t. some (some s, record i { offset = t })) end);
    }

-- A string with its NUL below the limit.
pub get_string-At :
    {i : InputBuffer} (s : List ℕ)
    → NoNul s
    → At i (text_bytes s)
    → Reads input_buffer_get_string i (length s + 1) (some s)
get_string-At s h at =
    let size = length-append s (0 ∷ []) in
    get_string-over s at.rest h at.stands (omega (arith, size, at.inside))
      (omega (arith, size, at.inside, at.small))

-- What the tests on the next byte answer; none of them moves the cursor.
module _ {i : InputBuffer} {b : ℕ} {bytes : List ℕ} (at : At i (b ∷ bytes)) where
  pub is_short_int-At : input_buffer_is_short_int i ≡ some (leb 0x80 b, i)
  unfolding input_buffer_is_short_int
  is_short_int-At = rw (peek_int8-Reads at)

  pub is_string-At : input_buffer_is_string i ≡ some (leb 0x20 b && ltb b 0x80, i)
  unfolding input_buffer_is_string
  is_string-At = rw (peek_int8-Reads at)

  pub is_value_length-At : input_buffer_is_value_length i ≡ some (leb b 31, i)
  unfolding input_buffer_is_value_length
  is_value_length-At = rw (peek_int8-Reads at)
