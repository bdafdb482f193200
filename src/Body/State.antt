-- ===== src/Body/State.antt =====
-- The state of src/mms_body.c and its calls on the parts. The list of parts is the data it holds, as
-- the items of a header are. The presentation is what src/mms_smil.c makes of it, given by its calls.
use broncho_mms.Base.{[], ◌∷◌, none, some, List, ℕ, Option, Bool, length, false, and_then, ◌++◌}
use broncho_mms.Memory.{CString, Allocator}
use broncho_mms.BodyPart.State.{MmsBodyPart, body_part_compare_by_name}
use broncho_mms.Linked.Spec.{find_first, remove_first}
use broncho_mms.Input.State.{InputBuffer}
use broncho_mms.Header.State.{MmsHeader}
use broncho_mms.Linked.Calls.{node_size}
use broncho_mms.Output.State.{MmsResult, result_fail, Out, result_ok}

-- The calls of src/mms_smil.c; a NULL presentation is `none`, undefined behaviour an outer `none`.
pub record SmilCalls : Type 1 where
  pub Smil : Type 0
  pub create : Option Smil
  pub is_empty : Option Smil → Bool
  pub unpack : Option InputBuffer → Option Smil → Option (Option Smil)
  pub set_header : Option MmsHeader → Option Smil → Option (Option Smil)
  pub pack_with_header : Option Smil → Out (Option Smil)
  pub fix_filename_by_cid : Option CString → Option CString → Option Smil → Option (Option Smil)

abbrev pub Parts : Type 0
Parts = List (Option MmsBodyPart)

pub record MmsBody (S : Type 0) : Type 0 where
  pub smil : Option S
  pub body_parts : Option Parts

-- `sizeof(MmsBody)`: two words.
abbrev pub body_size : ℕ
body_size = 8

-- A new list for the parts.
abbrev pub no_parts : Allocator → Option Parts
no_parts a = and_then (a.calloc node_size) λ _. some []

-- The comparison of a part that may be NULL: then it is not equal.
abbrev pub is_part : CString → Option MmsBodyPart → Option Bool
is_part filename none = some false
is_part filename (some part) = body_part_compare_by_name part filename

module _ {S : Type 0} where
  unfoldable pub body_create : Allocator → Option S → Option (MmsBody S)
  body_create a smil =
      and_then (a.calloc body_size) λ _. some (record { smil = smil; body_parts = no_parts a })

  unfoldable pub body_reset : Allocator → MmsBody S → MmsBody S
  body_reset a b = record b { body_parts = no_parts a }

  -- The presentation given is another than the body's.
  unfoldable pub body_set_smil : Option S → MmsBody S → MmsBody S
  body_set_smil smil b = record b { smil = smil }

  -- `mms_list_append`
  unfoldable pub append_part : Allocator → Option MmsBodyPart → MmsBody S → MmsResult × MmsBody S
  append_part a part b = elim b.body_parts [
    | none ↦ (result_fail, b)
    | some parts ↦ elim (a.calloc node_size) [
      | none ↦ (result_fail, b)
      | some _ ↦ (result_ok, record b { body_parts = some (parts ++ (part ∷ [])) })
    ]
  ]

  unfoldable pub body_add_body_part :
      Allocator → Option MmsBodyPart → MmsBody S → MmsResult × MmsBody S
  unfolding append_part
  body_add_body_part a none b = (result_fail, b)
  body_add_body_part a (some part) b = append_part a (some part) b

  unfoldable pub body_erase_body_part : CString → MmsBody S → Option (MmsResult × MmsBody S)
  unfolding remove_first body_part_compare_by_name
  body_erase_body_part filename b = elim b.body_parts [
    | none ↦ some (result_fail, b)
    | some parts ↦ and_then (remove_first (is_part filename) parts) λ r. elim r.0 [
      | none ↦ some (result_fail, b)
      | some _ ↦ some (result_ok, record b { body_parts = some r.1 })
    ]
  ]

  unfoldable pub body_find_body_part : CString → MmsBody S → Option (Option MmsBodyPart)
  unfolding find_first body_part_compare_by_name
  body_find_body_part filename b = elim b.body_parts [
    | none ↦ some none
    | some parts ↦
        and_then (find_first (is_part filename) parts) λ r. some (and_then r λ part. part)
  ]

  unfoldable pub body_get_body_part_count : MmsBody S → ℕ
  body_get_body_part_count b = elim b.body_parts [ none ↦ 0 | some parts ↦ length parts ]
