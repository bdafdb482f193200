-- ===== src/HeaderCodec/Reading.antt =====
-- What `mms_header_unpack_item` of src/mms_header_codec.c makes of the values of Forms.
use broncho_mms.Base.{
  [], ◌∷◌, some, Option, ◌≡◌, ℕ, arith, refl, List, length, ◌<◌, ◌+◌, length-append, lt→leb, le→leb,
  ap, ◌∙◌, ◌^◌, ◌>>=◌, pure,
}
use broncho_mms.Memory.{CString, Allocator, IsAllocator, Serves, Block, c_string}
use broncho_mms.Input.State.{In, InputBuffer, input_buffer_get_int8}
use broncho_mms.Items.{
  HeaderItem, MmsDataType, ItemValue, header_item_long_create, create_item, item_of, type_long_int,
  long_int, header_item_size, header_item_string_create, type_string, string,
  header_item_time_create, type_time, time, header_item_data_create, type_data, data_and_destroy,
  content_type_destroy,
}
use broncho_mms.Input.Reads.{
  Reads, Reads-eq, Reads-runs, At, Reads-pure, Reads-then, get_int8-Reads, Reads-map,
  is_value_length-At, is_short_int-At, get_string-At, At-first, At-second, advance,
}
use broncho_mms.Output.Valid.{most_room, most_data}
use broncho_mms.HeaderCodec.Unpack.{
  created, described, unpack_string, unpack_kind, unpack_token, unpack_long, unpack_text,
  value_desc, unpack_class, unpack_version, unpack_time, unpack_content_type,
}
use broncho_mms.HeaderCodec.Forms.{
  shows, Written, long_form, token_form, string_form, text_form, class_token_form, class_text_form,
  version_form, time_form, time_bytes, media_form,
}
use broncho_mms.Memory.Laws.{NoNul}
use broncho_mms.HeaderCodec.Kinds.{HeaderKind}
use broncho_mms.Wire.{text_bytes, value_length_bytes, long_int_bytes, short_int_bytes}
use broncho_mms.Input.Lengths.{get_long_int-Reads, get_short_int-Reads, get_value_length-Reads}
use broncho_mms.Paths.Copies.{strdup-Copy}
use broncho_mms.Wire.Sizes.{length-long_int_bytes}
use broncho_mms.Input.Decode.{input_buffer_get_long_int}
use broncho_mms.ContentType.State.{
  content_type_create, MmsContentType, content_type_nr, content_type_set_content_type_by_id,
  no_content_type, content_type_size,
}
use broncho_mms.ContentType.Unpack.{content_type_unpack, unpack_by_id}
use broncho_mms.Output.State.{result_ok}

-- The reader takes `n` bytes and returns an item of that name and type that shows the same value.
pub record Unpacks (m : In (Option HeaderItem)) (i : InputBuffer) (n : ℕ) (name : CString)
    (t : MmsDataType) (x : ItemValue) : Type 0 where
  pub item : HeaderItem
  pub reads : Reads m i n (some item)
  pub name_is : item.name ≡ name
  pub type_is : item.type ≡ t
  pub value_is : shows item.value ≡ shows x

-- Steps that leave the cursor.
created-Reads :
    (r : Option (Option HeaderItem)) (item : Option HeaderItem) {i : InputBuffer}
    → r ≡ some item
    → Reads (created r) i 0 item
created-Reads r item {i} e = Reads-runs (rw e) Reads-pure

described-Reads :
    (desc : Option CString) (r : Option HeaderItem) (item : HeaderItem) {i : InputBuffer}
    → r ≡ some item
    → Reads (described desc r) i 0 (some (record item { value_desc = desc }))
described-Reads desc r item {i} e = Reads-runs (rw e) Reads-pure

-- A reader that runs like another.
pub Unpacks-runs :
    {m m' : In (Option HeaderItem)} {i : InputBuffer} {n n' : ℕ} {name : CString} {t : MmsDataType}
    {x : ItemValue}
    → m' i ≡ m i
    → n ≡ n'
    → Unpacks m i n name t x
    → Unpacks m' i n' name t x
Unpacks-runs e size u = record {
  item = u.item;
  reads = Reads-eq (Reads-runs e u.reads) size refl;
  name_is = u.name_is;
  type_is = u.type_is;
  value_is = u.value_is;
}

module _ (a : Allocator) (good : IsAllocator a) (serves : Serves a most_room) where
  long_created :
      (name : CString) (n : ℕ)
      → header_item_long_create a (some name) n ≡ some (item_of name type_long_int (long_int n))
  unfolding header_item_long_create create_item
  long_created name n = rw ((serves.calloc_some header_item_size (omega arith)).1)

  pub unpack_string-Unpacks :
      (name : CString) (b : Block) (s : CString) {i : InputBuffer}
      → c_string b ≡ some s
      → NoNul s
      → length s < most_data
      → At i (text_bytes s)
      → Unpacks (unpack_string a (some name)) i (length s + 1) name type_string (string (some b))
  unfolding unpack_string header_item_string_create shows
  unpack_string-Unpacks name b s e h small at =
      let (p, copied, text) = strdup-Copy a good serves s h small in
      record {
        item = item_of name type_string (string (some p));
        reads =
            Reads-eq
              (Reads-then (λ str. created (header_item_string_create a (some name) str))
                (get_string-At s h at)
                (created-Reads _ _ (
                  rw
                    (
                      header_item_string_create,
                      (serves.calloc_some header_item_size (omega arith)).1,
                    )
                    (rw copied))))
              (omega arith) refl;
        name_is = refl;
        type_is = refl;
        value_is = rw (text, e);
      }

  unpack_token-Unpacks :
      (id : ℕ) (name : CString) (n : ℕ) {i : InputBuffer}
      → At i (n ∷ [])
      → Unpacks (unpack_token a id (some name)) i 1 name type_long_int (long_int n)
  unfolding unpack_token
  unpack_token-Unpacks id name n at = record {
    item = record (item_of name type_long_int (long_int n)) { value_desc = value_desc id n };
    reads =
        Reads-then
          (λ value. described (value_desc id value) (header_item_long_create a (some name) value))
          (get_int8-Reads at) (described-Reads _ _ _ (long_created name n));
    name_is = refl;
    type_is = refl;
    value_is = refl;
  }

  unpack_time-Unpacks :
      (name : CString) (rel_abs n : ℕ) {i : InputBuffer}
      → n < 2 ^ 32
      → At i (time_bytes rel_abs n)
      → Unpacks
          (unpack_time a (some name))
          i
          (length (time_bytes rel_abs n))
          name
          type_time
          (time rel_abs n)
  unfolding unpack_time header_item_time_create create_item
  unpack_time-Unpacks name rel_abs n {i} few at =
      let len = value_length_bytes (length (long_int_bytes n) + 1) in
      let behind = At-second i len (rel_abs ∷ long_int_bytes n) at in
      let last = At-second (advance i (length len)) (rel_abs ∷ []) (long_int_bytes n) behind in
      record {
        item = item_of name type_time (time rel_abs n);
        reads =
            Reads-eq
              (Reads-then
                (λ length. (do
                  rel_abs ← input_buffer_get_int8
                  n ← input_buffer_get_long_int
                  pure (header_item_time_create a (some name) rel_abs n)))
                (get_value_length-Reads (length (long_int_bytes n) + 1)
                  (ground (arith, length-long_int_bytes n))
                  (At-first i len (rel_abs ∷ long_int_bytes n) at))
                (Reads-then
                  (λ rel_abs. (do
                    n ← input_buffer_get_long_int
                    pure (header_item_time_create a (some name) rel_abs n)))
                  (get_int8-Reads
                    (At-first (advance i (length len)) (rel_abs ∷ []) (long_int_bytes n) behind))
                  (Reads-map _ (rw ((serves.calloc_some header_item_size (omega arith)).1))
                    (get_long_int-Reads n few last))))
              (omega
                (arith, length-append len (rel_abs ∷ long_int_bytes n), length-long_int_bytes n))
              refl;
        name_is = refl;
        type_is = refl;
        value_is = refl;
      }

  unpack_content_type-Unpacks :
      (name : CString) (id : ℕ) (t : MmsContentType) {i : InputBuffer}
      → id < content_type_nr
      → content_type_set_content_type_by_id id no_content_type ≡ some (result_ok, t)
      → At i (short_int_bytes id)
      → Unpacks
          (unpack_content_type a (some name))
          i
          1
          name
          type_data
          (data_and_destroy (some t) content_type_destroy)
  unfolding unpack_content_type content_type_create content_type_unpack unpack_by_id
      header_item_data_create create_item
  unpack_content_type-Unpacks name id t {i} small set at = record {
    item = item_of name type_data (data_and_destroy (some t) content_type_destroy);
    reads = record {
      runs =
          rw
            (
              unpack_content_type,
              content_type_create,
              (serves.calloc_some content_type_size (omega arith)).1,
            )
            (rw (content_type_unpack, is_short_int-At at, le→leb 0x80 (id + 128) (omega arith))
              (rw (unpack_by_id, (get_short_int-Reads id (omega (arith, small)) at).runs, set)
                (rw (
                  header_item_data_create,
                  create_item,
                  (serves.calloc_some header_item_size (omega arith)).1,
                ))));
    };
    name_is = refl;
    type_is = refl;
    value_is = refl;
  }

  pub unpack_kind-Unpacks :
      (k : HeaderKind) (t : MmsDataType) (x : ItemValue) (bytes : List ℕ)
      → Written k t x bytes
      → (id : ℕ) (name : CString) {i : InputBuffer} → length bytes < most_data
      → At i bytes
      → Unpacks (unpack_kind a k id (some name)) i (length bytes) name t x
  unfolding unpack_kind unpack_long unpack_text unpack_class unpack_version
  unpack_kind-Unpacks _ _ _ _ (long_form n h) id name small at = record {
    item = item_of name type_long_int (long_int n);
    reads =
        Reads-eq (Reads-map _ (long_created name n) (get_long_int-Reads n h at))
          (omega (arith, length-long_int_bytes n)) refl;
    name_is = refl;
    type_is = refl;
    value_is = refl;
  }
  unpack_kind-Unpacks _ _ _ _ (token_form n h) id name small at = unpack_token-Unpacks id name n at
  unpack_kind-Unpacks _ _ _ _ (string_form b s e h) id name small at =
      let size = length-append s (0 ∷ []) in
      Unpacks-runs refl (omega (arith, size))
        (unpack_string-Unpacks name b s e h (omega (arith, small, size)) at)
  unpack_kind-Unpacks _ _ _ _ (text_form b c s e h first) id name small at =
      let size = length-append s (0 ∷ []) in
      Unpacks-runs (rw (is_value_length-At at, lt→leb c 31 first)) (omega (arith, size))
        (unpack_string-Unpacks name b (c ∷ s) e h (omega (arith, small, size)) at)
  unpack_kind-Unpacks _ _ _ _ (class_token_form n big h) id name small at =
      Unpacks-runs (rw (is_short_int-At at, le→leb 0x80 n big)) refl
        (unpack_token-Unpacks id name n at)
  unpack_kind-Unpacks _ _ _ _ (class_text_form b c s e h first) id name small at =
      let size = length-append s (0 ∷ []) in
      Unpacks-runs (rw (is_short_int-At at, lt→leb 0x80 c first)) (omega (arith, size))
        (unpack_string-Unpacks name b (c ∷ s) e h (omega (arith, small, size)) at)
  unpack_kind-Unpacks _ _ _ _ (version_form n h) id name small at = record {
    item = item_of name type_long_int (long_int n);
    reads =
        Reads-map _ (ap (header_item_long_create a (some name)) (omega arith) ∙ long_created name n)
          (get_short_int-Reads n h at);
    name_is = refl;
    type_is = refl;
    value_is = refl;
  }
  unpack_kind-Unpacks _ _ _ _ (time_form rel_abs n h h') id name small at =
      unpack_time-Unpacks name rel_abs n h' at
  unpack_kind-Unpacks _ _ _ _ (media_form n t h e) id name small at =
      unpack_content_type-Unpacks name n t h e at
