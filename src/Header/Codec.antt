-- ===== src/Header/Codec.antt =====
-- `mms_header_clear`, `mms_header_unpack` and `mms_header_pack` of src/mms_header.c. The functions
-- that read and write one item are those given to `mms_header_create`.
use broncho_mms.Base.{
  [], ◌∷◌, none, some, zero, suc, Option, Bool, false, if◌then◌else◌, true, and_then, ℕ, ◌&&◌, ◌-◌,
}
use broncho_mms.Memory.{Allocator}
use broncho_mms.Header.State.{Items, MmsHeader, no_items, header_compare_by_name}
use broncho_mms.Input.State.{In}
use broncho_mms.Header.Setters.{append_item}
use broncho_mms.Linked.Spec.{remove_first, visit_all}
use broncho_mms.Items.{HeaderItem}
use broncho_mms.Names.Pairs.{codes}
use broncho_mms.ContentType.State.{content_type_is_content_type}
use broncho_mms.Output.State.{MmsResult, Out, result_ok, result_fail}

abbrev pub any_items : Option Items → Bool
any_items none = false
any_items (some []) = false
any_items (some (item ∷ items)) = true

module _ (a : Allocator) where
  -- A list that is not empty is replaced by a new one.
  unfoldable pub header_reset : MmsHeader → MmsHeader
  header_reset h = if any_items h.items then record h { items = no_items a } else h

  -- Items are read until none comes or, where that is asked for, the content type has come; on fuel.
  unfoldable pub unpack_items : In (Option HeaderItem) → Bool → ℕ → Option Items → In (Option Items)
  unfolding append_item content_type_is_content_type
  unpack_items unpack stops zero items i = none
  unpack_items unpack stops (suc fuel) items i = and_then (unpack i) λ r. elim r.0 [
    | none ↦ some (items, r.1)
    | some it ↦
        let rest = unpack_items unpack stops fuel (append_item a (some it) items) r.1 in
        if content_type_is_content_type it.name && stops
        then some (append_item a (some it) items, r.1)
        else rest
  ]

  -- Every item takes a byte at least.
  unfoldable pub header_unpack : In (Option HeaderItem) → MmsHeader → In (MmsResult × MmsHeader)
  unfolding header_reset unpack_items
  header_unpack unpack h i =
      let fresh = header_reset h in
      and_then
        (unpack_items unpack h.unpack_end_at_content_type (suc (i.limit - i.offset)) fresh.items i)
        λ r.
          some
            ((if any_items r.0 then result_ok else result_fail, record fresh { items = r.0 }), r.1)

  -- The content type, if there is one, goes to the end.
  unfoldable pub content_type_last : Option Items → Option (Option Items)
  unfolding remove_first header_compare_by_name append_item
  content_type_last none = some none
  content_type_last (some items) =
      and_then (remove_first (header_compare_by_name (codes "Content-Type")) items) λ r. elim r.0 [
        | none ↦ some (some r.1)
        | some item ↦ elim item [
          | none ↦ some (some r.1)
          | some it ↦ some (append_item a (some it) (some r.1))
        ]
      ]

  -- Items are written until one fails; the result is MMS_RESULT_OK all the same.
  unfoldable pub header_pack :
      (Option HeaderItem → Out MmsResult) → MmsHeader → Out (MmsResult × MmsHeader)
  unfolding content_type_last visit_all
  header_pack pack h o =
      and_then (if h.unpack_end_at_content_type then content_type_last h.items else some h.items)
        λ items.
          and_then (elim items [ none ↦ some o | some xs ↦ visit_all pack xs o ])
            λ o'. some ((result_ok, record h { items = items }), o')
