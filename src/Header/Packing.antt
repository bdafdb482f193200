-- ===== src/Header/Packing.antt =====
-- The order in which `mms_header_pack` of src/mms_header.c writes the items.
use broncho_mms.Base.{
  [], ◌∷◌, ◌≡◌, ◌++◌, ◌⊎◌, inl, inr, some, Bool, true, false, refl, and_then, Option,
}
use broncho_mms.Memory.{Allocator, Block}
use broncho_mms.Header.State.{Items, MmsHeader}
use broncho_mms.Header.Names.{Unique, Absent}
use broncho_mms.Header.Found.{Place}
use broncho_mms.Header.Laws.{content_type_last-Unique}
use broncho_mms.Header.Codec.{header_pack}
use broncho_mms.Items.{HeaderItem}
use broncho_mms.Linked.Calls.{node_size}
use broncho_mms.Linked.Spec.{visit_all}
use broncho_mms.Names.Pairs.{codes}
use broncho_mms.Output.State.{Out, MmsResult, result_ok, OutputBuffer}

-- The order in which a header that `stops` at the content type, or does not, has its items written.
abbrev pub Ordered : Bool → Items → Items → Type 0
Ordered stops items sent =
    ((stops ≡ false) ⊎ Absent (codes "Content-Type") items) × (sent ≡ items)
    ⊎ (stops ≡ true)
      × ((p : Place (codes "Content-Type") items) × (sent
            ≡ (p.before ++ p.behind) ++ (some p.it ∷ [])))

module _ (a : Allocator) (pack : Option HeaderItem → Out MmsResult) (o : OutputBuffer) where
  -- The header's items are replaced by `sent`, and these are written one after the other.
  abbrev pub Sends : MmsHeader → Items → Type 0
  Sends h sent = header_pack a pack h o ≡ (
      and_then (visit_all pack sent o) λ o'. some ((result_ok, record h { items = some sent }), o'))

  header_pack_ended :
      {b : Block} (items : Items)
      → a.calloc node_size ≡ some b
      → Unique items
      → (sent : Items) × Ordered true items sent
        × Sends (record { items = some items; unpack_end_at_content_type = true }) sent
  unfolding header_pack
  header_pack_ended items served u = elim (content_type_last-Unique a items served u) [
    | inl (out, e) ↦ (items, inl (inr out, refl), rw (header_pack, e) refl)
    | inr (p, e) ↦ (
      (p.before ++ p.behind) ++ (some p.it ∷ []),
      inr (refl, (p, refl)),
      rw (header_pack, e) refl,
    )
  ]

  -- On a header whose items are not NULL and have different names, with memory for a node,
  -- `mms_header_pack` calls the item writer, whichever it is, on the items one after the other
  -- until one call does not return MMS_RESULT_OK, is undefined where a call is, and else returns
  -- MMS_RESULT_OK. The items written, which are the header's items afterwards, are the old ones in
  -- their order, but that in a header that ends at the content type an item Content-Type stands
  -- behind all others.
  pub header_pack-Ordered :
      {b : Block} (items : Items) (stops : Bool)
      → a.calloc node_size ≡ some b
      → Unique items
      → (sent : Items) × Ordered stops items sent
        × Sends (record { items = some items; unpack_end_at_content_type = stops }) sent
  unfolding header_pack
  header_pack-Ordered items false served u = (items, inl (inl refl, refl), refl)
  header_pack-Ordered items true served u = header_pack_ended items served u
