-- ===== src/BodyPart/Named.antt =====
-- `mms_body_part_set_name` and the parts made from a buffer, of src/mms_body_part.c.
use broncho_mms.Base.{none, some, Option, ℕ, take, and_then, ◌++◌, ◌==◌, true, false}
use broncho_mms.Memory.{Allocator, CString, Block}
use broncho_mms.Header.State.{MmsHeader}
use broncho_mms.Header.Setters.{change_first, header_set_string, header_set_content_type}
use broncho_mms.ContentType.State.{
  content_type_set_content_type_by_name, content_type_set_param_name, MmsContentType,
  content_type_create,
}
use broncho_mms.Wsp.Http.{digits_of}
use broncho_mms.Names.Pairs.{codes}
use broncho_mms.BodyPart.State.{body_part_create, header_content_type, MmsBodyPart}
use broncho_mms.Paths.ContentTypes.{get_file_content_type}
use broncho_mms.Output.State.{MmsResult, result_ok}
use broncho_mms.HeaderCodec.Kinds.{item_data}
use broncho_mms.Paths.Files.{get_file_name}
use broncho_mms.Items.{data_and_destroy, content_type_destroy}

-- A call on a header that may be NULL, its result ignored.
abbrev pub on_header :
    (MmsHeader → Option (MmsResult × MmsHeader)) → Option MmsHeader → Option (Option MmsHeader)
on_header f none = some none
on_header f (some h) = and_then (f h) λ r. some (some r.1)

-- The content type behind the pointer that `mms_header_get_content_type` returned, changed in place.
unfoldable pub change_content_type :
    (MmsContentType → MmsContentType) → MmsHeader → Option (MmsResult × MmsHeader)
unfolding change_first
change_content_type f h = and_then h.items λ items.
    and_then
      (change_first (codes "Content-Type")
        (λ it. and_then (item_data it.value) λ t.
          and_then t
            λ t. some (record it { value = data_and_destroy (some (f t)) content_type_destroy }))
        items)
      λ changed. some (result_ok, record h { items = some changed })

-- The type by the file's extension, and the file's name as the name.
unfoldable pub typed_for : CString → MmsContentType → MmsContentType
unfolding content_type_set_content_type_by_name content_type_set_param_name get_file_content_type
    get_file_name
typed_for filename t =
    (content_type_set_param_name (some (get_file_name filename))
      (content_type_set_content_type_by_name (some (get_file_content_type filename)) t).1).1

-- `sprintf(value, "<CID%u>", id)`
unfoldable pub cid_text : ℕ → CString
unfolding digits_of
cid_text id = codes "<CID" ++ (digits_of 10 id ++ codes ">")

-- `snprintf(value, MMS_VALUE_LENGTH, "http://orig.host/%s", name)`
unfoldable pub uri_text : CString → CString
uri_text name = take 1023 (codes "http://orig.host/" ++ name)

module _ (a : Allocator) where
  -- The three texts.
  unfoldable pub set_texts : ℕ → CString → Option MmsHeader → Option (Option MmsHeader)
  unfolding header_set_string cid_text uri_text
  set_texts id name h =
      and_then (on_header (header_set_string a (some (codes "Content-Location")) (some name)) h)
        λ h₁.
          and_then
            (on_header (header_set_string a (some (codes "Content-ID")) (some (cid_text id))) h₁)
            λ h₂.
              on_header
                (header_set_string a (some (codes "X-Wap-Content-URI")) (some (uri_text name))) h₂

  -- `id` is what `mms_get_unique_id` returned. A content type that the header has is changed; else a
  -- new one is filled, and set behind the texts.
  unfoldable pub body_part_set_name : ℕ → CString → MmsBodyPart → Option MmsBodyPart
  unfolding header_content_type change_content_type typed_for set_texts get_file_name
      content_type_create header_set_content_type
  body_part_set_name id filename p = and_then (header_content_type p.header) λ t. elim t [
    | some _ ↦ and_then (on_header (change_content_type (typed_for filename)) p.header) λ h.
        and_then (set_texts id (get_file_name filename) h) λ h₁. some (record p { header = h₁ })
    | none ↦
        let fresh = and_then (content_type_create a) λ t. some (typed_for filename t) in
        and_then (set_texts id (get_file_name filename) p.header) λ h.
          and_then (on_header (header_set_content_type a fresh) h)
            λ h₁. some (record p { header = h₁ })
  ]

  -- `mms_body_part_create_from_buffer`, with the guards on the buffer; an outer `none` is undefined:
  -- without memory for the part its members are written through NULL.
  unfoldable pub body_part_create_from_buffer :
      ℕ → CString → Option Block → ℕ → Option (Option MmsBodyPart)
  unfolding body_part_create body_part_set_name
  body_part_create_from_buffer id filename none n = some none
  body_part_create_from_buffer id filename (some b) n = elim (n == 0) [
    | true ↦ some none
    | false ↦ and_then (body_part_create a) λ p.
        and_then (body_part_set_name id filename p)
          λ q. some (some (record q { content = some b; length = n }))
  ]
