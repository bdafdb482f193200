-- ===== src/ContentType/Facts.antt =====
-- Which names make a multipart, and how the loop over the parameters goes on, in
-- src/mms_content_type.c.
use broncho_mms.Base.{
  none, some, zero, suc, ℕ, ◌≡◌, ◌&&◌, true, ◌<◌, lt→ltb, refl, not, Bool-cases, inl, inr, ltb,
  Option, and_then, get_elem?, sym, ◌∙◌, [], ◌∷◌, List, Bool, false, ◌⊎◌, ◌≤◌, length, arith, take,
  lt→leb, ◌^◌,
}
use broncho_mms.ContentType.Unpack.{unpack_params, unpack_param, skip_param}
use broncho_mms.ContentType.State.{
  content_type_is_multi_part, MmsContentType, has_prefix, content_type_nr,
  content_type_set_content_type_by_name, content_type_set_content_type_by_id, no_content_type,
  copied, mms_name_length,
}
use broncho_mms.Input.Decode.{
  input_buffer_get_short_int, input_buffer_get_int, input_buffer_get_long_int, long_int_loop,
}
use broncho_mms.Output.Encode.{int_negative}
use broncho_mms.Input.State.{
  InputBuffer, input_buffer_is_eof, input_buffer_get_int8, input_buffer_is_short_int,
  input_buffer_is_string, input_buffer_peek_int8,
}
use broncho_mms.Names.Lookup.{has_name}
use broncho_mms.Names.Pairs.{codes, NameIdPair, name_to_id, unknown, same_text}
use broncho_mms.Output.State.{result_ok, MmsResult}
use broncho_mms.Memory.{CString}
use broncho_mms.ContentType.Table.{g_content_types}

ids_below : ℕ → List NameIdPair → Bool
ids_below n [] = true
ids_below n (p ∷ pairs) = ltb p.id n && ids_below n pairs

-- The search in a table of small numbers finds one of them where a row has the name, and else -1.
name_to_id_listed :
    (n : ℕ) (t : List NameIdPair) (name : CString)
    → ids_below n t ≡ true
    → (has_name name t ≡ true) × (name_to_id t name < n)
      ⊎ (has_name name t ≡ false) × (name_to_id t name ≡ unknown)
unfolding name_to_id ids_below has_name
name_to_id_listed n [] name h = inr (refl, refl)
name_to_id_listed n (p ∷ t) name h =
    let later = name_to_id_listed n t name (ground (arith, h)) in
    elim (Bool-cases (same_text p.name name)) [
      | inl e ↦ inl (rw e refl, rw e (ground (arith, h)))
      | inr e ↦ elim later [
        | inl (k, small) ↦ inl (rw (e, k) refl, rw e small)
        | inr (k, new) ↦ inr (rw (e, k) refl, rw e new)
      ]
    ]

small_id : (id : ℕ) → id < content_type_nr → int_negative id ≡ false
small_id id h = lt→leb (2 ^ 31) id (omega arith)

table_ids : ids_below content_type_nr g_content_types ≡ true
unfolding ids_below g_content_types
table_ids = refl

has_prefix-take : (p s : CString) (n : ℕ) → length p ≤ n → has_prefix p (take n s) ≡ has_prefix p s
unfolding has_prefix
has_prefix-take [] s n h = refl
has_prefix-take (c ∷ p) s zero h = absurd (omega arith)
has_prefix-take (c ∷ p) [] (suc n) h = refl
has_prefix-take (c ∷ p) (d ∷ s) (suc n) h = rw (has_prefix-take p s n (omega arith)) refl

-- After `mms_content_type_set_content_type_by_name`, `mms_content_type_is_multi_part` holds
-- exactly where no row of the table of content types has the name and the name begins with
-- multipart/; so it does not hold for any name of the table, those of multiparts among them.
pub is_multi_part-set_content_type_by_name :
    (name : CString) (t : MmsContentType)
    → content_type_is_multi_part (content_type_set_content_type_by_name (some name) t).1
      ≡ not (has_name name g_content_types) && has_prefix (codes "multipart/") name
unfolding content_type_is_multi_part content_type_set_content_type_by_name
is_multi_part-set_content_type_by_name name t =
    let cut = has_prefix-take (codes "multipart/") name mms_name_length (omega arith) in
    elim (name_to_id_listed content_type_nr g_content_types name table_ids) [
      | inr (new, e) ↦ rw (e, new, cut)
      | inl (known, small) ↦
          let id : ℕ = name_to_id g_content_types name in
          let listed : ltb id content_type_nr ≡ true = lt→ltb id content_type_nr small in
          rw (small_id id small, listed, known)
    ]

-- At the end of the input a round reads nothing and stays where it is.
unpack_param_at_end :
    (t : MmsContentType) (i : InputBuffer)
    → input_buffer_is_eof i ≡ true
    → unpack_param t i ≡ some (t, i)
unfolding unpack_param skip_param input_buffer_get_short_int input_buffer_get_int8
    input_buffer_get_int input_buffer_get_long_int input_buffer_is_short_int input_buffer_is_string
    input_buffer_peek_int8 long_int_loop
unpack_param_at_end t i e =
    rw (unpack_param, input_buffer_get_short_int, input_buffer_get_int8, e)
      (rw (skip_param, input_buffer_is_string, input_buffer_peek_int8, e)
        (rw (input_buffer_get_int, input_buffer_is_short_int, input_buffer_peek_int8, e)
          (rw (input_buffer_get_long_int, input_buffer_get_int8, e))))

-- A round is made, and leaves what the rounds behind it start from as it was.
round_repeats :
    (fuel end : ℕ) (t : MmsContentType) (i : InputBuffer)
    → input_buffer_is_eof i ≡ true
    → i.offset < end
    → unpack_params (suc fuel) end t i ≡ unpack_params fuel end t i
unfolding unpack_params
round_repeats fuel end t i e h =
    rw (unpack_params, lt→ltb i.offset end h, unpack_param_at_end t i e) refl

rounds_run_out :
    (fuel end : ℕ) (t : MmsContentType) (i : InputBuffer)
    → input_buffer_is_eof i ≡ true
    → i.offset < end
    → unpack_params fuel end t i ≡ none
unfolding unpack_params
rounds_run_out zero end t i e h = refl
rounds_run_out (suc fuel) end t i e h =
    round_repeats fuel end t i e h ∙ rounds_run_out fuel end t i e h

-- At the end of the input and before the end that the Value-length gives, a round of the loop over
-- the parameters in `mms_content_type_unpack` runs and leaves the content type and the input as
-- they were; so with one round more the loop comes to the same, and no number of rounds is enough
-- to end it.
pub unpack_params_stuck :
    (fuel end : ℕ) (t : MmsContentType) (i : InputBuffer)
    → input_buffer_is_eof i ≡ true
    → i.offset < end
    → (unpack_param t i ≡ some (t, i))
      × (unpack_params (suc fuel) end t i ≡ unpack_params fuel end t i)
      × (unpack_params fuel end t i ≡ none)
unpack_params_stuck fuel end t i e h =
    (unpack_param_at_end t i e, round_repeats fuel end t i e h, rounds_run_out fuel end t i e h)

-- A content type that was set by number alone.
pub set_by_id-shape :
    (id : ℕ) (t : MmsContentType)
    → id < content_type_nr
    → content_type_set_content_type_by_id id no_content_type ≡ some (result_ok, t)
    → (name : CString) × (t ≡ record no_content_type { id = id; name = name })
unfolding content_type_set_content_type_by_id
set_by_id-shape id t small e =
    by_row (get_elem? g_content_types id) (sym (rw (lt→ltb id content_type_nr small) refl) ∙ e)
  where
    by_row :
        (row : Option NameIdPair)
        → and_then {B = MmsResult × MmsContentType} row (λ p.
          some
            (result_ok, record no_content_type { id = id; name = copied mms_name_length p.name }))
          ≡ some (result_ok, t)
        → (name : CString) × (t ≡ record no_content_type { id = id; name = name })
    by_row none h = absurd (cc)
    by_row (some p) h = (copied mms_name_length p.name, cc)
