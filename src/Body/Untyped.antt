-- ===== src/Body/Untyped.antt =====
-- What the searches of src/mms_body.c make of a part without a content type.
use broncho_mms.Base.{none, some, ◌≡◌, true, Bool-cases, inl, inr, Option, ◌∷◌, ap, ◌∙◌}
use broncho_mms.Memory.{CString}
use broncho_mms.Paths.Files.{get_file_name}
use broncho_mms.Names.Pairs.{codes}
use broncho_mms.Header.State.{MmsHeader, Items, find_item, header_get_content_type}
use broncho_mms.Header.Names.{Absent}
use broncho_mms.Header.Laws.{find_item-is}
use broncho_mms.Header.Found.{find_first-Absent}
use broncho_mms.Linked.Spec.{find_first, remove_first}
use broncho_mms.Output.State.{result_ok}
use broncho_mms.BodyPart.State.{
  MmsBodyPart, body_part_compare_by_name, header_text, header_content_type, is_named,
  compare_by_type,
}
use broncho_mms.Body.State.{Parts, body_find_body_part, body_erase_body_part}

-- The part has a header with its list, where the Content-ID and the Content-Location, if they are
-- there, are texts, and no item is Content-Type.
pub record IsUntyped (p : MmsBodyPart) : Type 0 where
  pub header : MmsHeader
  pub list : Items
  pub headed : p.header ≡ some header
  pub held : header.items ≡ some list
  pub untyped : Absent (codes "Content-Type") list
  pub cid : Option CString
  pub location : Option CString
  pub cid_read : header_text (codes "Content-ID") p.header ≡ some cid
  pub location_read : header_text (codes "Content-Location") p.header ≡ some location

no_type : (p : MmsBodyPart) → IsUntyped p → header_content_type p.header ≡ some none
unfolding header_content_type header_get_content_type
no_type p u =
    let missing : find_item (codes "Content-Type") u.header.items ≡ some none =
      ap (find_item (codes "Content-Type")) u.held
      ∙ find_item-is (codes "Content-Type") u.list none
          (find_first-Absent (codes "Content-Type") u.list u.untyped) in
    ap header_content_type u.headed ∙ rw (header_content_type, header_get_content_type, missing)

-- Whatever its names are, the part is equal to every name.
untyped_is_part :
    (p : MmsBodyPart) (path : CString) → IsUntyped p → body_part_compare_by_name p path ≡ some true
unfolding body_part_compare_by_name compare_by_type
untyped_is_part p path u = elim (Bool-cases (is_named (get_file_name path) u.cid)) [
  | inl e ↦ rw (body_part_compare_by_name, u.cid_read, e)
  | inr e ↦ elim (Bool-cases (is_named (get_file_name path) u.location)) [
    | inl k ↦ rw (body_part_compare_by_name, u.cid_read, e, u.location_read, k)
    | inr k ↦ rw (body_part_compare_by_name, u.cid_read, e, u.location_read, k, no_type p u)
  ]
]

module _ {S : Type 0} where
  -- Where the first part of a body has a header with its list, in which no item is NULL and none
  -- is Content-Type, and whose Content-ID and Content-Location are each a text or missing:
  -- whatever these are, `mms_body_find_body_part` returns that part for every name, and
  -- `mms_body_erase_body_part` of any name succeeds and takes it out of the body.
  pub find_erase_untyped :
      (smil : Option S) (p : MmsBodyPart) (parts : Parts) (path : CString)
      → IsUntyped p
      → (body_find_body_part path (record { smil = smil; body_parts = some (some p ∷ parts) })
          ≡ some (some p))
        × (body_erase_body_part path (record { smil = smil; body_parts = some (some p ∷ parts) })
            ≡ some (result_ok, record { smil = smil; body_parts = some parts }))
  unfolding body_find_body_part body_erase_body_part find_first remove_first
  find_erase_untyped smil p parts path u =
      let e = untyped_is_part p path u in
      (rw (body_find_body_part, e), rw (body_erase_body_part, e))
