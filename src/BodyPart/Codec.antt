-- ===== src/BodyPart/Codec.antt =====
-- `mms_body_part_unpack` and `mms_body_part_pack` of src/mms_body_part.c.
use broncho_mms.Base.{
  none, some, Option, and_then, pure, ℕ, if◌then◌else◌, ◌==◌, leb, length, take, ◌>>=◌, ◌>>◌, add32,
  drop,
}
use broncho_mms.Memory.{Allocator}
use broncho_mms.Input.State.{
  In, input_buffer_push_limit, input_buffer_pop_limit, input_buffer_get_data,
}
use broncho_mms.ContentType.State.{MmsContentType, content_type_create}
use broncho_mms.Header.Codec.{header_unpack, header_pack}
use broncho_mms.BodyPart.State.{header_content_type, MmsBodyPart}
use broncho_mms.Output.State.{
  output_buffer_put_data, MmsResult, output_buffer_create, Out, result_fail, result_ok,
  OutputBuffer,
}
use broncho_mms.Items.{HeaderItem}
use broncho_mms.Output.Encode.{output_buffer_put_var_int}
use broncho_mms.ContentType.Pack.{content_type_pack}
use broncho_mms.ContentType.Unpack.{content_type_unpack}
use broncho_mms.Output.Temporary.{put_temporary}
use broncho_mms.Header.Setters.{header_set_content_type}
use broncho_mms.Header.State.{MmsHeader}
use broncho_mms.Wsp.Codec.{wsp_header_pack_item, wsp_header_unpack_item}
use broncho_mms.Input.Decode.{input_buffer_get_var_int}
use broncho_mms.Output.Transactions.{sub32}

-- A call that does not read the input.
abbrev pub aside : {A : Type 0} → Option A → In A
aside r i = and_then r λ x. some (x, i)

module _ (a : Allocator) where
  -- The content type that begins the header; NULL where it could not be created.
  unfoldable pub unpack_first : In (Option MmsContentType)
  unfolding content_type_create content_type_unpack
  unpack_first = elim (content_type_create a) [
    | none ↦ pure none
    | some fresh ↦ do t ← content_type_unpack fresh; pure (some t)
  ]

  -- The other items, and then the content type.
  unfoldable pub unpack_header : Option MmsHeader → Option MmsContentType → In (Option MmsHeader)
  unfolding header_unpack header_set_content_type wsp_header_unpack_item
  unpack_header none t = pure none
  unpack_header (some h) t = do
    r ← header_unpack a (wsp_header_unpack_item a) h
    s ← aside (header_set_content_type a t r.1)
    pure (some s.1)

  unfoldable pub body_part_unpack : MmsBodyPart → In (MmsResult × MmsBodyPart)
  unfolding unpack_first unpack_header
  body_part_unpack p = do
    header_length ← input_buffer_get_var_int
    body_length ← input_buffer_get_var_int
    λ i.
        (do
          input_buffer_push_limit (add32 i.offset header_length)
          t ← unpack_first
          h ← unpack_header p.header t
          input_buffer_pop_limit
          λ j.
              (do
                place ← input_buffer_get_data body_length
                pure (
                  result_ok,
                  record {
                    header = h;
                    content = and_then place λ offset. some (drop offset j.buffer);
                    length = body_length;
                    header_offset = i.offset;
                    data_offset = j.offset;
                  },
                ))
                j)
          i

  -- The pack function of the header, on an item that may be NULL.
  abbrev pub pack_item : Option HeaderItem → Out MmsResult
  pack_item none = pure result_fail
  pack_item (some item) = wsp_header_pack_item a item

  unfoldable pub pack_header : Option MmsHeader → Out (Option MmsHeader)
  unfolding header_pack
  pack_header none = pure none
  pack_header (some h) = do r ← header_pack a pack_item h; pure (some r.1)

  abbrev pub pack_first : Option MmsContentType → Out MmsResult
  pack_first none = pure result_fail
  pack_first (some t) = content_type_pack a t

  -- The data, if there are any; undefined where they are shorter than the length.
  unfoldable pub pack_data : MmsBodyPart → Out MmsResult
  unfolding output_buffer_put_data
  pack_data p = elim p.content [
    | none ↦ pure result_ok
    | some b ↦
        if p.length == 0
        then pure result_ok
        else if leb p.length (length b)
        then output_buffer_put_data a (some (take p.length b))
        else λ o. none
  ]

  -- The temporary buffer: the header, its length, and the data behind it.
  unfoldable pub pack_inside : Option MmsContentType → MmsBodyPart → Out (ℕ × Option MmsHeader)
  unfolding pack_header pack_data
  pack_inside t p = do
    pack_first t
    h ← pack_header p.header
    λ o. (do pack_data p; pure (o.data_length, h)) o

  -- Both lengths, and what the temporary buffer holds.
  unfoldable pub pack_framed : ℕ → ℕ → Option OutputBuffer → Out MmsResult
  unfolding output_buffer_put_var_int put_temporary
  pack_framed header_length data_length temp = do
    output_buffer_put_var_int a header_length
    output_buffer_put_var_int a data_length
    put_temporary a temp
    pure result_ok

  unfoldable pub body_part_pack : MmsBodyPart → Out (MmsResult × MmsBodyPart)
  unfolding pack_inside pack_framed header_content_type output_buffer_create
  body_part_pack p o = and_then (header_content_type p.header) λ t.
      and_then (output_buffer_create a 2048) λ handle. elim handle [
        | none ↦ (do r ← pack_framed 0 0 none; pure (r, p)) o
        | some temp ↦ and_then (pack_inside t p temp) λ r.
            (do
              ok ← pack_framed r.0.0 (sub32 r.1.data_length r.0.0) (some r.1)
              pure (ok, record p { header = r.0.1 }))
              o
      ]
