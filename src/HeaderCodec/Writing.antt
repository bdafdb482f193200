-- ===== src/HeaderCodec/Writing.antt =====
-- What `mms_header_pack_item` of src/mms_header_codec.c writes, for the values of Forms.
use broncho_mms.Base.{
  [], ◌∷◌, some, ℕ, ◌<◌, ◌^◌, ◌≡◌, length, List, ◌+◌, ap, arith, Option, length-append, lt→leb,
  true, ◌++◌, add32, ◌>>◌, ◌≤◌, refl, lt→ltb, ◌∙◌, pure,
}
use broncho_mms.Memory.{Allocator, IsAllocator, Serves, Block, CString, c_string}
use broncho_mms.Output.Valid.{
  most_room, IsValid, Appends, Appends-eq, Appends-runs, Appends-then, Appends-ok, Appended-trans,
}
use broncho_mms.HeaderCodec.Pack.{
  pack_value, put_item_string, put_item_char, pack_kind, header_pack_item, pack_long, pack_token,
  pack_string, pack_text, pack_class, pack_version, pack_unknown, pack_time, pack_content_type,
  pack_other,
}
use broncho_mms.Output.State.{OutputBuffer, result_ok}
use broncho_mms.Output.Integers.{Fits, put_int8-Appends}
use broncho_mms.Items.{
  HeaderItem, long_int, string, MmsDataType, ItemValue, item_of, type_string, time, type_time,
  type_data, data_and_destroy, content_type_destroy, type_long_int,
}
use broncho_mms.HeaderCodec.Forms.{
  Written, long_form, token_form, string_form, text_form, class_token_form, class_text_form,
  version_form, time_form, time_bytes, media_form,
}
use broncho_mms.Wire.{text_bytes, value_length_bytes, long_int_bytes, short_int_bytes}
use broncho_mms.Output.Encode.{
  uchar, int_negative, output_buffer_put_value_length, output_buffer_put_int8,
  output_buffer_put_long_int, output_buffer_put_short_int,
}
use broncho_mms.Output.Strings.{put_string-Appends}
use broncho_mms.HeaderCodec.Kinds.{header_kind, HeaderKind, retrieve_kind}
use broncho_mms.Output.Lengths.{
  put_long_int-Appends, put_short_int-Appends, put_value_length-Appends, put_int-Appends,
}
use broncho_mms.Names.Tables.{header_name_to_id}
use broncho_mms.Output.Measure.{get_long_int_bytes-Measures, Measures-Appended}
use broncho_mms.Wire.Sizes.{length-long_int_bytes, value_length_size}
use broncho_mms.ContentType.Pack.{content_type_pack}
use broncho_mms.ContentType.State.{
  content_type_has_params, MmsContentType, content_type_nr, content_type_set_content_type_by_id,
  no_content_type,
}
use broncho_mms.ContentType.Facts.{set_by_id-shape}

module _ (a : Allocator) (good : IsAllocator a) (serves : Serves a most_room) where
  put_item_string-Appends :
      (o : OutputBuffer) (b : Block) (s : CString)
      → c_string b ≡ some s
      → IsValid o
      → Fits o (length s + 1)
      → Appends (put_item_string a (string (some b))) o (text_bytes s)
  unfolding put_item_string
  put_item_string-Appends o b s h v fits =
      Appends-runs (rw h) (put_string-Appends a good serves o s v fits)

  put_item_char-Appends :
      (o : OutputBuffer) (n : ℕ)
      → n < 2 ^ 8
      → IsValid o
      → Fits o 1
      → Appends (put_item_char a (long_int n)) o (n ∷ [])
  unfolding put_item_char
  put_item_char-Appends o n small v fits =
      Appends-eq (put_int8-Appends a good serves o (uchar n) v fits)
        (ap (λ t. t ∷ []) (omega arith))

  -- The length is measured, then all is written.
  time_written :
      (o : OutputBuffer) (rel_abs n : ℕ)
      → rel_abs < 2 ^ 8
      → n < 2 ^ 32
      → IsValid o
      → Fits o 13
      → Appends
          (output_buffer_put_value_length a (add32 (length (long_int_bytes n)) 1)
            >> (output_buffer_put_int8 a (uchar rel_abs) >> output_buffer_put_long_int a n))
          o
          (time_bytes rel_abs n)
  time_written o rel_abs n small few v fits =
      let size : add32 (length (long_int_bytes n)) 1 ≡ length (long_int_bytes n) + 1 =
        ground (arith, length-long_int_bytes n) in
      Appends-then
        (Appends-eq
          (put_value_length-Appends a good serves o (add32 (length (long_int_bytes n)) 1) v
            (omega (arith, fits)) (omega arith))
          (ap value_length_bytes size))
        (λ o' p.
          let counts : length (value_length_bytes (length (long_int_bytes n) + 1)) ≤ 6 =
            value_length_size (length (long_int_bytes n) + 1) in
          Appends-then
            (Appends-eq
              (put_int8-Appends a good serves o' (uchar rel_abs) p.valid
                (omega (arith, p.counts, fits)))
              (ap (λ t. t ∷ []) (omega (arith, small))))
            (λ o'' q.
              put_long_int-Appends a good serves o'' n q.valid
                (omega (arith, p.counts, q.counts, fits)) few))

  pack_time-Appends :
      (o : OutputBuffer) (rel_abs n : ℕ) (item : HeaderItem)
      → item.value ≡ time rel_abs n
      → rel_abs < 2 ^ 8
      → n < 2 ^ 32
      → IsValid o
      → Fits o 13
      → Appends (pack_time a item) o (time_bytes rel_abs n)
  unfolding pack_time
  pack_time-Appends o rel_abs n item e small few v fits =
      let measured = get_long_int_bytes-Measures a good serves o n v (omega (arith, fits)) few in
      let rest =
        time_written measured.after rel_abs n small few measured.valid
          (omega (arith, fits, measured.same_length)) in
      record {
        after = rest.after;
        runs = rw (pack_time, e, measured.runs) rest.runs;
        appended = Appended-trans (Measures-Appended measured) rest.appended;
      }

  -- A content type without parameters is its number.
  content_type_pack_plain :
      (o : OutputBuffer) (id : ℕ) (name : CString)
      → id < content_type_nr
      → content_type_pack a (record no_content_type { id = id; name = name }) o
        ≡ (output_buffer_put_short_int a id >> pure result_ok) o
  unfolding content_type_pack content_type_has_params
  content_type_pack_plain o id name small = rw (content_type_pack, lt→ltb id content_type_nr small)

  pack_content_type-Appends :
      (o : OutputBuffer) (id : ℕ) (t : MmsContentType) (item : HeaderItem)
      → item.value ≡ data_and_destroy (some t) content_type_destroy
      → id < content_type_nr
      → content_type_set_content_type_by_id id no_content_type ≡ some (result_ok, t)
      → IsValid o
      → Fits o 1
      → Appends (pack_content_type a item) o (short_int_bytes id)
  unfolding pack_content_type content_type_pack content_type_has_params
  pack_content_type-Appends o id t item e small set v fits =
      let (name, shape) = set_by_id-shape id t small set in
      Appends-runs
        (rw (pack_content_type, e)
          (ap (λ t. content_type_pack a t o) shape ∙ content_type_pack_plain o id name small))
        (Appends-ok (put_short_int-Appends a good serves o id v fits (omega (arith, small))))

  pack_kind-Appends :
      (o : OutputBuffer) (k : HeaderKind) (t : MmsDataType) (x : ItemValue) (bytes : List ℕ)
      → Written k t x bytes
      → (name : CString) (desc : Option CString) (offset : ℕ) → IsValid o
      → Fits o (length bytes + 11)
      → Appends
          (pack_kind a k
            (record { name = name; type = t; value = x; value_desc = desc; offset = offset }))
          o
          bytes
  unfolding pack_kind pack_long pack_token pack_string pack_text pack_class pack_version
  pack_kind-Appends o _ _ _ _ (long_form n h) name desc offset v fits =
      put_long_int-Appends a good serves o n v (omega (arith, fits)) h
  pack_kind-Appends o _ _ _ _ (token_form n h) name desc offset v fits =
      put_item_char-Appends o n h v (omega (arith, fits))
  pack_kind-Appends o _ _ _ _ (string_form b s e h) name desc offset v fits =
      put_item_string-Appends o b s e v (omega (arith, fits, length-append s (0 ∷ [])))
  pack_kind-Appends o _ _ _ _ (text_form b c s e h first) name desc offset v fits =
      put_item_string-Appends o b (c ∷ s) e v (omega (arith, fits, length-append s (0 ∷ [])))
  pack_kind-Appends o _ _ _ _ (class_token_form n big h) name desc offset v fits =
      put_item_char-Appends o n h v (omega (arith, fits))
  pack_kind-Appends o _ _ _ _ (class_text_form b c s e h first) name desc offset v fits =
      put_item_string-Appends o b (c ∷ s) e v (omega (arith, fits, length-append s (0 ∷ [])))
  pack_kind-Appends o _ _ _ _ (version_form n h) name desc offset v fits =
      put_short_int-Appends a good serves o n v (omega (arith, fits)) h
  pack_kind-Appends o _ _ _ _ (time_form rel_abs n h h') name desc offset v fits =
      pack_time-Appends o rel_abs n
        (record {
          name = name;
          type = type_time;
          value = time rel_abs n;
          value_desc = desc;
          offset = offset;
        })
        refl h h' v
        (omega (
          arith,
          fits,
          length-append (value_length_bytes (length (long_int_bytes n) + 1))
              (rel_abs ∷ long_int_bytes n),
          length-long_int_bytes n,
        ))
  pack_kind-Appends o _ _ _ _ (media_form id t h e) name desc offset v fits =
      pack_content_type-Appends o id t
        (record {
          name = name;
          type = type_data;
          value = data_and_destroy (some t) content_type_destroy;
          value_desc = desc;
          offset = offset;
        })
        refl h e v (omega (arith, fits))

  -- A name of the table: its number with the top bit set, then the value.
  pub header_pack_item-Appends :
      (o : OutputBuffer) (item : HeaderItem) (bytes : List ℕ)
      → header_name_to_id item.name < 2 ^ 7
      → Written (header_kind (header_name_to_id item.name)) item.type item.value bytes
      → IsValid o
      → Fits o (length bytes + 12)
      → Appends (header_pack_item a item) o ((header_name_to_id item.name + 128) ∷ bytes)
  unfolding header_pack_item pack_value
  header_pack_item-Appends o item bytes small w v fits =
      let id : ℕ = header_name_to_id item.name in
      rw (lt→leb (2 ^ 31) id (omega (arith, small))) (
        Appends-then
          (Appends-eq (put_int8-Appends a good serves o (uchar (id + 0x80)) v (omega (arith, fits)))
            (ap (λ t. t ∷ []) (omega (arith, small))))
          (λ o' p. Appends-ok (
            pack_kind-Appends o' (header_kind id) item.type item.value bytes w item.name
              item.value_desc item.offset p.valid (omega (arith, p.counts, fits)))))

  -- A number that is no Short-integer, in a header of a retrieve status or text or a read status.
  pub header_pack_item-retrieve :
      (o : OutputBuffer) (name : CString) (n : ℕ)
      → header_name_to_id name < 2 ^ 7
      → header_kind (header_name_to_id name) ≡ retrieve_kind
      → 2 ^ 7 ≤ n
      → n < 2 ^ 32
      → IsValid o
      → Fits o 6
      → Appends
          (header_pack_item a (item_of name type_long_int (long_int n)))
          o
          ((header_name_to_id name + 128) ∷ long_int_bytes n)
  unfolding header_pack_item pack_value pack_kind pack_other
  header_pack_item-retrieve o name n small kind big few v fits =
      let id : ℕ = header_name_to_id name in
      rw (lt→leb (2 ^ 31) id (omega (arith, small))) (
        Appends-then
          (Appends-eq (put_int8-Appends a good serves o (uchar (id + 0x80)) v (omega (arith, fits)))
            (ap (λ t. t ∷ []) (omega (arith, small))))
          (λ o' p. Appends-ok (
            Appends-runs (rw kind refl) (
              Appends-eq
                (put_int-Appends a good serves o' n p.valid (omega (arith, p.counts, fits)) few)
                (rw (lt→leb n 0x7f (omega (arith, big))))))))

  -- Any other name is written out, and so is the value, which must be a text.
  pub header_pack_item-Appends_unknown :
      (o : OutputBuffer) (name : CString) (b : Block) (text : CString)
      → int_negative (header_name_to_id name) ≡ true
      → c_string b ≡ some text
      → IsValid o
      → Fits o (length name + length text + 2)
      → Appends
          (header_pack_item a (item_of name type_string (string (some b))))
          o
          (text_bytes name ++ text_bytes text)
  unfolding header_pack_item pack_unknown
  header_pack_item-Appends_unknown o name b text unknown_name e v fits = rw unknown_name (
      Appends-then (put_string-Appends a good serves o name v (omega (arith, fits))) (λ o' p.
        Appends-ok (
          put_item_string-Appends o' b text e p.valid
            (omega (arith, p.counts, fits, length-append name (0 ∷ []))))))
