-- ===== src/RoundTrip/Headers.antt =====
-- MMS header items: what `mms_header_pack_item` writes, `mms_header_unpack_item` reads back.
use broncho_mms.Base.{
  [], ◌∷◌, some, Option, ℕ, ◌≡◌, List, ◌<◌, true, ◌≤◌, ◌^◌, length, ◌+◌, arith, length-append, refl,
  ◌∙◌, none,
}
use broncho_mms.Memory.{Allocator, IsAllocator, Serves, CString, Block, c_string}
use broncho_mms.Items.{HeaderItem, item_of, type_string, string, type_long_int, long_int}
use broncho_mms.Input.State.{InputBuffer}
use broncho_mms.Output.Valid.{most_room, IsValid, same_end}
use broncho_mms.HeaderCodec.Forms.{shows, Written, words, Written-size}
use broncho_mms.Output.State.{OutputBuffer, result_ok}
use broncho_mms.Names.Tables.{header_name_to_id, header_id_to_name-header_name_to_id}
use broncho_mms.Output.Encode.{int_negative}
use broncho_mms.HeaderCodec.Kinds.{header_kind, retrieve_kind}
use broncho_mms.Memory.Laws.{NoNul}
use broncho_mms.Output.Integers.{Fits}
use broncho_mms.HeaderCodec.Pack.{header_pack_item}
use broncho_mms.RoundTrip.{Receives, read_up_to, Receives-At, Receives-Reads}
use broncho_mms.HeaderCodec.Unpack.{header_unpack_item}
use broncho_mms.HeaderCodec.Writing.{
  header_pack_item-Appends_unknown, header_pack_item-Appends, header_pack_item-retrieve,
}
use broncho_mms.HeaderCodec.Whole.{
  header_unpack_item-Unpacks_unknown, header_unpack_item-Unpacks, header_unpack_item-retrieve,
}
use broncho_mms.Wire.{text_bytes}

-- The item read: where it stood, and its name, type and value.
pub record ReadBack (m : Option (Option HeaderItem × InputBuffer)) (i' : InputBuffer) (offset : ℕ)
    (item : HeaderItem) : Type 0 where
  pub item_read : HeaderItem
  pub runs : m ≡ some (some item_read, i')
  pub same_name : item_read.name ≡ item.name
  pub same_type : item_read.type ≡ item.type
  pub same_value : shows item_read.value ≡ shows item.value
  pub stood_at : item_read.offset ≡ offset

module _ (a : Allocator) (good : IsAllocator a) (serves : Serves a most_room) {o o' : OutputBuffer}
    {i : InputBuffer} (v : IsValid o) where
  -- For an item whose name is in the table of MMS headers and whose value has the form of its
  -- header (a content type set by its number, a number, a token, a string, a plain text, a time, a
  -- class or a version): after `mms_header_pack_item` has succeeded on a valid buffer with room,
  -- with an allocator that serves every request up to 3 GiB, `mms_header_unpack_item` on a message
  -- received with the cursor where the writing began and the limit at or behind its end returns an
  -- item of the same name, type and value, which notes where it stood, and stops at the end of
  -- what was written.
  pub header_unpack_item-header_pack_item :
      (item : HeaderItem) (bytes : List ℕ)
      → header_name_to_id item.name < 2 ^ 7
      → Written (header_kind (header_name_to_id item.name)) item.type item.value bytes
      → Fits o (length bytes + 12)
      → header_pack_item a item o ≡ some (result_ok, o')
      → Receives i o o'
      → ReadBack (header_unpack_item a i) (read_up_to i o') i.offset item
  header_unpack_item-header_pack_item item bytes small w fits run r =
      let id : ℕ = header_name_to_id item.name in
      let p = same_end (header_pack_item-Appends a good serves o item bytes small w v fits) run in
      let named =
        (header_id_to_name-header_name_to_id id item.name (λ e. absurd (omega (arith, e, small)))).1
          refl in
      let (u, at) =
        header_unpack_item-Unpacks a good serves id item.type item.value bytes item.name small named
          w (omega (arith, fits)) (Written-size w) (Receives-At v p r) in
      record {
        item_read = u.item;
        runs = Receives-Reads v p r (1 + length bytes) (omega arith) u.reads;
        same_name = u.name_is;
        same_type = u.type_is;
        same_value = u.value_is;
        stood_at = at;
      }

  -- For a text item whose name is not in the table of MMS headers and begins with a byte in 32 ..
  -- 127, name and text without NUL: after `mms_header_pack_item` has succeeded on a valid buffer
  -- with room, with an allocator that serves every request up to 3 GiB, `mms_header_unpack_item`
  -- on a message received with the cursor where the writing began and the limit at or behind its
  -- end returns a text item of the same name and text and stops at the end of what was written.
  pub header_unpack_item-header_pack_item_unknown :
      (c : ℕ) (name : CString) (b : Block) (text : CString)
      → int_negative (header_name_to_id (c ∷ name)) ≡ true
      → 0x20 ≤ c
      → c < 0x80
      → NoNul (c ∷ name)
      → c_string b ≡ some text
      → NoNul text
      → Fits o (length (c ∷ name) + length text + 2)
      → header_pack_item a (item_of (c ∷ name) type_string (string (some b))) o
        ≡ some (result_ok, o')
      → Receives i o o'
      → (item : HeaderItem) × (header_unpack_item a i ≡ some (some item, read_up_to i o'))
        × (item.name ≡ c ∷ name)
        × (item.type ≡ type_string)
        × (shows item.value ≡ some (words text))
  unfolding shows
  header_unpack_item-header_pack_item_unknown c name b text unknown_name low high h e h' fits run
        r =
      let p =
        same_end
          (header_pack_item-Appends_unknown a good serves o (c ∷ name) b text unknown_name e v fits)
          run in
      let u =
        header_unpack_item-Unpacks_unknown a good serves c name b text low high h e h'
          (omega (arith, fits)) (Receives-At v p r) in
      let size = length-append (text_bytes (c ∷ name)) (text_bytes text) in
      (
        u.item,
        Receives-Reads v p r _
            (omega (arith, size, length-append (c ∷ name) (0 ∷ []), length-append text (0 ∷ [])))
            u.reads,
        u.name_is,
        u.type_is,
        u.value_is ∙ rw e,
      )

  -- For a header of the kind of X-Mms-Retrieve-Status, which is in the table, with a number in 128
  -- .. 2^32 - 1: after `mms_header_pack_item` has succeeded on a valid buffer with room, with an
  -- allocator that serves every request up to 3 GiB, `mms_header_unpack_item` on a message
  -- received with the cursor where the writing began and the limit at or behind its end fails an
  -- assertion.
  pub header_unpack_item-header_pack_item_retrieve :
      (name : CString) (n : ℕ)
      → header_name_to_id name < 2 ^ 7
      → header_kind (header_name_to_id name) ≡ retrieve_kind
      → 2 ^ 7 ≤ n
      → n < 2 ^ 32
      → Fits o 6
      → header_pack_item a (item_of name type_long_int (long_int n)) o ≡ some (result_ok, o')
      → Receives i o o'
      → header_unpack_item a i ≡ none
  header_unpack_item-header_pack_item_retrieve name n small kind big few fits run r =
      let id : ℕ = header_name_to_id name in
      let p =
        same_end (header_pack_item-retrieve a good serves o name n small kind big few v fits) run in
      let named =
        (header_id_to_name-header_name_to_id id name (λ e. absurd (omega (arith, e, small)))).1
          refl in
      header_unpack_item-retrieve a id n name small named kind (Receives-At v p r)
