-- ===== src/Body/Codec.antt =====
-- `mms_body_unpack` and `mms_body_pack` of src/mms_body.c.
use broncho_mms.Base.{
  [], ◌∷◌, none, some, zero, suc, ℕ, Option, and_then, pure, if◌then◌else◌, ◌==◌, ◌>>◌, ◌>>=◌, true,
  Bool, add32, false,
}
use broncho_mms.Memory.{Allocator}
use broncho_mms.Body.State.{
  SmilCalls, append_part, Parts, MmsBody, body_get_body_part_count, body_reset,
}
use broncho_mms.BodyPart.Codec.{body_part_unpack, body_part_pack, aside}
use broncho_mms.Body.Count.{get_part_count, put_part_count}
use broncho_mms.Input.State.{In, input_buffer_create, input_buffer_is_eof}
use broncho_mms.Output.State.{Out, MmsResult, result_ok}
use broncho_mms.BodyPart.State.{
  MmsBodyPart, body_part_create, header_content_type, body_part_get_name, is_named,
  body_part_get_cid,
}
use broncho_mms.Header.State.{MmsHeader}
use broncho_mms.ContentType.State.{content_type_get_content_type_name}
use broncho_mms.Names.Pairs.{codes}
use broncho_mms.Output.Encode.{int_negative}

module _ (a : Allocator) (c : SmilCalls) where
  -- The header of a part, and its content type, where the part may be NULL.
  abbrev pub header_of : Option MmsBodyPart → Option MmsHeader
  header_of none = none
  header_of (some part) = part.header

  -- Whether the part has the content type of a presentation.
  unfoldable pub is_smil : Option MmsBodyPart → Option Bool
  unfolding header_content_type is_named content_type_get_content_type_name
  is_smil part = and_then (header_content_type (header_of part)) λ t.
      some (is_named (codes "application/smil") (and_then t content_type_get_content_type_name))

  -- The data of the part are unpacked as a message of their own, and the header goes over.
  unfoldable pub take_smil : Option MmsBodyPart → MmsBody c.Smil → Option (MmsBody c.Smil)
  unfolding input_buffer_create
  take_smil none b = none
  take_smil (some part) b =
      let input = and_then part.content λ bytes. input_buffer_create a (some bytes) part.length in
      and_then (c.unpack input b.smil)
        λ smil. and_then (c.set_header part.header smil) λ smil₁. some (record b { smil = smil₁ })

  unfoldable pub unpack_part : Option MmsBodyPart → In (Option MmsBodyPart)
  unfolding body_part_unpack
  unpack_part none = pure none
  unpack_part (some part) = do r ← body_part_unpack a part; pure (some r.1)

  unfoldable pub unpack_one : MmsBody c.Smil → In (MmsBody c.Smil)
  unfolding unpack_part is_smil take_smil append_part body_part_create
  unpack_one b = do
    part ← unpack_part (body_part_create a)
    smil ← aside (is_smil part)
    if smil then aside (take_smil part b) else pure (append_part a part b).1

  -- As many parts as the count says, or as the input has.
  unfoldable pub unpack_parts : ℕ → MmsBody c.Smil → In (MmsBody c.Smil)
  unfolding unpack_one
  unpack_parts zero b i = some (b, i)
  unpack_parts (suc nr) b i = elim (input_buffer_is_eof i) [
    | true ↦ some (b, i)
    | false ↦ and_then (unpack_one b i) λ r. unpack_parts nr r.0 r.1
  ]

  -- `mms_body_fix_smil_filename` on every part; it reads the header of a NULL part.
  unfoldable pub fix_smil_filenames : Parts → Option c.Smil → Option (Option c.Smil)
  unfolding body_part_get_name body_part_get_cid
  fix_smil_filenames [] smil = some smil
  fix_smil_filenames (none ∷ parts) smil = none
  fix_smil_filenames (some part ∷ parts) smil = and_then (body_part_get_name part) λ filename.
      and_then (body_part_get_cid part) λ cid.
        and_then (c.fix_filename_by_cid cid filename smil) λ smil₁. fix_smil_filenames parts smil₁

  -- The count is signed: a negative one is no part.
  unfoldable pub body_unpack : MmsBody c.Smil → In (MmsResult × MmsBody c.Smil)
  unfolding get_part_count unpack_parts body_reset fix_smil_filenames
  body_unpack b = do
    nr ← get_part_count
    b₁ ← unpack_parts (if int_negative nr then 0 else nr) (body_reset a b)
    smil ←
        aside (elim b₁.body_parts [
          | none ↦ some b₁.smil
          | some parts ↦ fix_smil_filenames parts b₁.smil
        ])
    pure (result_ok, record b₁ { smil = smil })

  -- The parts in order, until a NULL one.
  unfoldable pub pack_parts : Parts → Out Parts
  unfolding body_part_pack
  pack_parts [] = pure []
  pack_parts (none ∷ parts) = pure (none ∷ parts)
  pack_parts (some part ∷ parts) = do
    r ← body_part_pack a part
    rest ← pack_parts parts
    pure (some r.1 ∷ rest)

  unfoldable pub pack_list : Option Parts → Out (Option Parts)
  unfolding pack_parts
  pack_list none = pure none
  pack_list (some parts) = do rest ← pack_parts parts; pure (some rest)

  -- The presentation counts as a part and comes first.
  unfoldable pub body_pack : MmsBody c.Smil → Out (MmsResult × MmsBody c.Smil)
  unfolding put_part_count pack_list body_get_body_part_count
  body_pack b =
      let count = body_get_body_part_count b in
      if c.is_empty b.smil
      then (if count == 0 then pure (result_ok, b) else do
        put_part_count a count
        parts ← pack_list b.body_parts
        pure (result_ok, record b { body_parts = parts }))
      else do
        put_part_count a (add32 count 1)
        smil ← c.pack_with_header b.smil
        parts ← pack_list b.body_parts
        pure (result_ok, record { smil = smil; body_parts = parts })
