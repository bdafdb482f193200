-- ===== src/HeaderCodec/Whole.antt =====
-- What `mms_header_unpack_item` of src/mms_header_codec.c makes of a whole item.
use broncho_mms.Base.{
  [], ◌∷◌, none, some, ℕ, List, ◌<◌, ◌≤◌, ◌^◌, ◌≡◌, length, ◌+◌, and_then, leb, ◌&&◌, ltb, false,
  le→leb, arith, le→ltb, ◌%◌, refl, ◌++◌, ◌∙◌, ap, true, lt→ltb, length-append, subst, lt→leb,
}
use broncho_mms.Memory.{Allocator, IsAllocator, Serves, CString, Block, c_string}
use broncho_mms.Output.Valid.{most_room, most_data}
use broncho_mms.HeaderCodec.Unpack.{
  unpack_kind, header_unpack_item, unpack_retrieve, unpack_unknown, unpack_known, unpack_value,
  placed, unpack_string,
}
use broncho_mms.Items.{MmsDataType, ItemValue, type_string, string}
use broncho_mms.Input.State.{InputBuffer}
use broncho_mms.Memory.Laws.{NoNul}
use broncho_mms.Names.Tables.{header_id_to_name}
use broncho_mms.Input.Reads.{
  At, advance, get_int8-Reads, At-first, At-second, At-ne-eof, is_string-At, get_string-At,
  Reads-then, is_short_int-At,
}
use broncho_mms.HeaderCodec.Kinds.{header_kind, retrieve_kind}
use broncho_mms.HeaderCodec.Forms.{Written}
use broncho_mms.Wire.{long_int_bytes, text_bytes, octet_count}
use broncho_mms.HeaderCodec.Reading.{
  Unpacks, unpack_kind-Unpacks, unpack_string-Unpacks, Unpacks-runs,
}
use broncho_mms.Wire.Sizes.{octet_count_bounds}

module _ (a : Allocator) where
  -- A header of the table: behind its number with the top bit set comes the value, by the kind.
  known_runs :
      (id : ℕ) (bytes : List ℕ) (name : CString) {i : InputBuffer}
      → id < 2 ^ 7
      → header_id_to_name id ≡ some name
      → 0 < length bytes
      → At i ((id + 128) ∷ bytes)
      → header_unpack_item a i
        ≡ and_then
            (unpack_kind a (header_kind id) id (some name) (advance i 1))
            λ r. some (placed i.offset r.0, r.1)
  unfolding header_unpack_item unpack_known unpack_value
  known_runs id bytes name {i} small named some_bytes at =
      let byte = get_int8-Reads (At-first i ((id + 128) ∷ []) bytes at) in
      let behind = At-second i ((id + 128) ∷ []) bytes at in
      let ne_text : (leb 0x20 (id + 128) && ltb (id + 128) 0x80) ≡ false =
        rw (le→leb 0x20 (id + 128) (omega arith), le→ltb (id + 128) 0x80 (omega arith)) in
      let id_is : (id + 0x80 + 0x80) % 256 ≡ id = omega arith in
      rw (header_unpack_item, At-ne-eof at (omega arith), is_string-At at, ne_text)
        (rw (unpack_known, byte.runs, At-ne-eof behind some_bytes, id_is, named) refl)

  -- A Long-integer in the place of a token or a text fails the assertion.
  pub header_unpack_item-retrieve :
      (id n : ℕ) (name : CString) {i : InputBuffer}
      → id < 2 ^ 7
      → header_id_to_name id ≡ some name
      → header_kind id ≡ retrieve_kind
      → At i ((id + 128) ∷ long_int_bytes n)
      → header_unpack_item a i ≡ none
  unfolding unpack_kind unpack_retrieve
  header_unpack_item-retrieve id n name {i} small named kind at =
      let behind = At-second i ((id + 128) ∷ []) (long_int_bytes n) at in
      let few = (octet_count_bounds n).1 in
      let stops : unpack_kind a (header_kind id) id (some name) (advance i 1) ≡ none = rw kind (
        rw
          (
            unpack_retrieve,
            is_short_int-At behind,
            lt→leb 0x80 (octet_count n) (omega (arith, few)),
          )
          (rw (is_string-At behind, lt→leb 0x20 (octet_count n) (omega (arith, few))))) in
      known_runs id (long_int_bytes n) name small named (omega arith) at
      ∙ ap (λ r. and_then r λ r. some (placed i.offset r.0, r.1)) stops

module _ (a : Allocator) (good : IsAllocator a) (serves : Serves a most_room) where
  pub header_unpack_item-Unpacks :
      (id : ℕ) (t : MmsDataType) (x : ItemValue) (bytes : List ℕ) (name : CString) {i : InputBuffer}
      → id < 2 ^ 7
      → header_id_to_name id ≡ some name
      → Written (header_kind id) t x bytes
      → length bytes < most_data
      → 0 < length bytes
      → At i ((id + 128) ∷ bytes)
      → (u : Unpacks (header_unpack_item a) i (1 + length bytes) name t x) × (u.item.offset
          ≡ i.offset)
  header_unpack_item-Unpacks id t x bytes name {i} small named w few some_bytes at =
      let behind = At-second i ((id + 128) ∷ []) bytes at in
      let u = unpack_kind-Unpacks a good serves (header_kind id) t x bytes w id name few behind in
      (
        record {
          item = record u.item { offset = i.offset };
          reads = record {
            runs =
                known_runs a id bytes name small named some_bytes at
                ∙ rw u.reads.runs (
                    ap
                      (λ k.
                        some (some (record u.item { offset = i.offset }), record i { offset = k }))
                      (omega arith));
          };
          name_is = u.name_is;
          type_is = u.type_is;
          value_is = u.value_is;
        },
        refl,
      )

  -- A header with its name written out, which begins like a text.
  pub header_unpack_item-Unpacks_unknown :
      (c : ℕ) (name : CString) (b : Block) (text : CString) {i : InputBuffer}
      → 0x20 ≤ c
      → c < 0x80
      → NoNul (c ∷ name)
      → c_string b ≡ some text
      → NoNul text
      → length text < most_data
      → At i (text_bytes (c ∷ name) ++ text_bytes text)
      → Unpacks
          (header_unpack_item a)
          i
          (length (c ∷ name) + 1 + (length text + 1))
          (c ∷ name)
          type_string
          (string (some b))
  unfolding header_unpack_item unpack_unknown
  header_unpack_item-Unpacks_unknown c name b text {i} low high h e h' few at =
      let is_text : (leb 0x20 c && ltb c 0x80) ≡ true =
        rw (le→leb 0x20 c low, lt→ltb c 0x80 high) in
      let name_read =
        get_string-At (c ∷ name) h (At-first i (text_bytes (c ∷ name)) (text_bytes text) at) in
      let behind = At-second i (text_bytes (c ∷ name)) (text_bytes text) at in
      let moved : advance i (length (text_bytes (c ∷ name))) ≡ advance i (length (c ∷ name) + 1) =
        ap (advance i) (length-append (c ∷ name) (0 ∷ [])) in
      let u =
        unpack_string-Unpacks a good serves (c ∷ name) b text e h' few
          (subst (λ (j : InputBuffer). At j (text_bytes text)) moved behind) in
      Unpacks-runs
        (rw (header_unpack_item, At-ne-eof at (omega arith), is_string-At at, is_text) refl) refl
        (record {
          item = u.item;
          reads = Reads-then (unpack_string a) name_read u.reads;
          name_is = u.name_is;
          type_is = u.type_is;
          value_is = u.value_is;
        })
