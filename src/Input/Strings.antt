-- ===== src/Input/Strings.antt =====
-- The decoder of encoded strings reads the format of Output.Strings.
use broncho_mms.Base.{
  ℕ, suc, ◌+◌, ◌-◌, ◌≤◌, ◌<◌, ◌≡◌, refl, ap, inl, inr, some, arith, length, [], ◌∷◌, ◌++◌, pure,
  ◌>>=◌, ◌>>◌, Option, List, ◌^◌, ◌*◌, if◌then◌else◌, ltb, leb, lt-cases, lt→ltb, subst, le→ltb,
  le→leb, sym, add32, true, lt→leb, length-append, ◌∙◌, append_assoc,
}
use broncho_mms.Input.State.{
  InputBuffer, In, input_buffer_skip_to_limit, input_buffer_get_int8, input_buffer_get_string,
  max_limits,
}
use broncho_mms.Input.Reads.{
  At, Reads, Reads-eq, Reads-runs, peek_int8-Reads, Reads-map, get_int8-Reads, At-first, Reads-then,
  At-second, advance, is_value_length-At, get_string-over,
}
use broncho_mms.Output.Strings.{charset_value}
use broncho_mms.Output.Encode.{get_int_bytes}
use broncho_mms.Input.Decode.{
  input_buffer_get_charset, get_limited_string, counted_charset, input_buffer_get_value_length,
  input_buffer_get_multi_bytes_int, input_buffer_get_encoded_string,
}
use broncho_mms.Wire.{big_endian, value_length_bytes, text_bytes, var_int_bytes}
use broncho_mms.Input.Limits.{
  IsLimited, pushed, push_limit-pushed, pop_limit-pushed, Popped, SameBelow,
}
use broncho_mms.Output.Integers.{get_int_bytes_bounds}
use broncho_mms.Input.Lengths.{get_value_length-Reads, get_multi_bytes_int-Reads}
use broncho_mms.Wire.Sizes.{length-big_endian}
use broncho_mms.Memory.Laws.{NoNul}

get_int_bytes_holds : (n : ℕ) → n < 2 ^ 32 → n < 2 ^ (8 * get_int_bytes n)
unfolding get_int_bytes
get_int_bytes_holds n h = ground arith

abbrev charset_body : ℕ → In ℕ
charset_body val =
    if ltb val 32
    then counted_charset
    else if leb 128 val
    then (do c ← input_buffer_get_int8; pure (c - 128))
    else (do input_buffer_get_string; pure 0)

counted_charset-Reads :
    {i : InputBuffer} (n c : ℕ)
    → n ≤ 4
    → c < 2 ^ (8 * n)
    → c < 2 ^ 32
    → At i (n ∷ big_endian n c)
    → Reads counted_charset i (suc n) c
unfolding counted_charset
counted_charset-Reads {i} n c few fits small at =
    let one : value_length_bytes n ≡ n ∷ [] = rw (le→leb n 30 (omega arith)) in
    let at' : At i (value_length_bytes n) =
      subst (At i) (sym one) (At-first i (n ∷ []) (big_endian n c) at) in
    let count : Reads input_buffer_get_value_length i 1 n =
      Reads-eq (get_value_length-Reads n (omega arith) at') (ap length one) refl in
    Reads-eq
      (Reads-then (λ m. input_buffer_get_multi_bytes_int m) count
        (get_multi_bytes_int-Reads n c few fits small (At-second i (n ∷ []) (big_endian n c) at)))
      (omega arith) refl

get_charset-Reads :
    {i : InputBuffer} (c : ℕ)
    → c < 2 ^ 32
    → At i (charset_value c)
    → Reads input_buffer_get_charset i (length (charset_value c)) c
unfolding input_buffer_get_charset
get_charset-Reads {i} c small at = elim (lt-cases c 128) [
  | inl low ↦
      let e : charset_value c ≡ (c + 128) ∷ [] = rw (lt→ltb c 128 low) in
      let at' : At i ((c + 128) ∷ []) = subst (At i) e at in
      Reads-eq
        (Reads-runs
          (rw (
            peek_int8-Reads at',
            le→ltb (c + 128) 32 (omega arith),
            le→leb 128 (c + 128) (omega arith),
          ))
          (Reads-map (λ (b : ℕ). b - 128) (omega arith) (get_int8-Reads at')))
        (sym (ap length e)) refl
  | inr high ↦
      let n : ℕ = get_int_bytes c in
      let few = get_int_bytes_bounds c in
      let e : charset_value c ≡ n ∷ big_endian n c = rw (le→ltb c 128 high) in
      let at' : At i (n ∷ big_endian n c) = subst (At i) e at in
      Reads-eq
        (Reads-runs (rw (peek_int8-Reads at', lt→ltb n 32 (omega (arith, few))))
          (counted_charset-Reads n c few.1 (get_int_bytes_holds c small) small at'))
        (omega (arith, ap length e, length-big_endian n c)) refl
]

-- The state at the end of `get_limited_string`.
abbrev pub Limited :
    InputBuffer → ℕ → ℕ → List ℕ → Option ((Option (List ℕ) × ℕ) × InputBuffer) → Type 0
Limited i offset c s r =
    (limits : List ℕ) × (r ≡ some ((some s, c), record i { offset = offset; limits = limits }))
    × SameBelow i.limit_nr i.limits limits

-- `count` reaches into the text, and perhaps not to its end.
get_limited_string-Popped :
    (i : InputBuffer) (count c : ℕ) (s : List ℕ)
    → IsLimited i
    → i.limit_nr < max_limits
    → c < 2 ^ 32
    → NoNul s
    → length (charset_value c) < count
    → count ≤ length (charset_value c ++ text_bytes s)
    → At i (charset_value c ++ text_bytes s)
    → Popped i
        (i.offset + count)
        (record (pushed i (i.offset + count)) { offset = i.offset + count })
    → Limited i (i.offset + count) c s (get_limited_string count i)
unfolding get_limited_string input_buffer_skip_to_limit
get_limited_string-Popped i count c s l free small no_nul reaches size at (limits, pop, _, same) =
    let n₁ : ℕ = length (charset_value c) in
    let parts = length-append (charset_value c) (text_bytes s) in
    let text = length-append s (0 ∷ []) in
    let end : add32 i.offset count ≡ i.offset + count = omega (arith, size, at.inside, at.small) in
    let i₁ : InputBuffer = pushed i (i.offset + count) in
    let push =
      push_limit-pushed i l (i.offset + count) (omega (arith, size, at.inside, l.bound)) free in
    let at₁ : At i₁ (charset_value c) = record {
      rest = text_bytes s ++ at.rest;
      stands = at.stands ∙ append_assoc (charset_value c) (text_bytes s) at.rest;
      inside = omega arith;
      small = omega (arith, size, at.inside, at.small);
    } in
    let at₂ = At-second i (charset_value c) (text_bytes s) at in
    let read₁ = get_charset-Reads c small at₁ in
    let read₂ =
      get_string-over {i = advance i₁ n₁} s at₂.rest no_nul at₂.stands (omega arith)
        (omega (arith, parts, text, at.inside, at.small)) in
    (limits, rw (end, push, read₁.runs, read₂.runs, pop), same)

get_limited_string-At :
    (i : InputBuffer) (count c : ℕ) (s : List ℕ)
    → IsLimited i
    → i.limit_nr < max_limits
    → c < 2 ^ 32
    → NoNul s
    → length (charset_value c) < count
    → count ≤ length (charset_value c ++ text_bytes s)
    → At i (charset_value c ++ text_bytes s)
    → Limited i (i.offset + count) c s (get_limited_string count i)
get_limited_string-At i count c s l free small no_nul reaches size at =
    let end : ℕ = i.offset + count in
    let fits : end ≤ i.length = omega (arith, size, at.inside, l.bound) in
    get_limited_string-Popped i count c s l free small no_nul reaches size at
      (pop_limit-pushed i end end l fits free)

-- The first byte of a Value-length is at most 31.
abbrev first_byte : ℕ → ℕ
first_byte n = if leb n 30 then n else 31

value_length_first :
    (n : ℕ) (xs : List ℕ) → (ys : List ℕ) × (value_length_bytes n ++ xs ≡ first_byte n ∷ ys)
value_length_first n xs = elim (lt-cases 30 n) [
  | inr short ↦ (xs, rw (le→leb n 30 short))
  | inl long ↦ (var_int_bytes n ++ xs, rw (lt→leb n 30 long))
]

-- A limited string behind a Value-length that counts it.
pub get_encoded_string-At :
    (i : InputBuffer) (count c : ℕ) (s : List ℕ)
    → IsLimited i
    → i.limit_nr < max_limits
    → c < 2 ^ 32
    → count < 2 ^ 32
    → NoNul s
    → length (charset_value c) < count
    → count ≤ length (charset_value c ++ text_bytes s)
    → At i (value_length_bytes count ++ (charset_value c ++ text_bytes s))
    → Limited i
        (i.offset + length (value_length_bytes count) + count)
        c
        s
        (input_buffer_get_encoded_string i)
unfolding input_buffer_get_encoded_string
get_encoded_string-At i count c s l free small few no_nul reaches size at =
    let xs = charset_value c ++ text_bytes s in
    let (ys, first) = value_length_first count xs in
    let starts : At i (first_byte count ∷ ys) = subst (At i) first at in
    let counted : leb (first_byte count) 31 ≡ true = ground arith in
    let head = get_value_length-Reads count few (At-first i (value_length_bytes count) xs at) in
    let j : InputBuffer = advance i (length (value_length_bytes count)) in
    let lj : IsLimited j = record { few = l.few; slots = l.slots; bound = l.bound; top = l.top } in
    let (limits, run, same) =
      get_limited_string-At j count c s lj free small no_nul reaches size
        (At-second i (value_length_bytes count) xs at) in
    (limits, rw (is_value_length-At starts, counted, head.runs) run, same)
