-- ===== src/Linked/Spec.antt =====
-- What the calls of src/mms_list.c promise, on a list of the data. A comparison that runs into
-- undefined behaviour is `none`.
use broncho_mms.Base.{none, some, true, false, [], ◌∷◌, Option, Bool, List, and_then}
use broncho_mms.Output.State.{MmsResult, result_ok}

module _ {D : Type 0} where
  -- The first datum that matches.
  unfoldable pub find_first : (D → Option Bool) → List D → Option (Option D)
  find_first matches [] = some none
  find_first matches (x ∷ xs) =
      and_then (matches x) λ b. elim b [ true ↦ some (some x) | false ↦ find_first matches xs ]

  -- The first datum that matches, and the list without it.
  unfoldable pub remove_first : (D → Option Bool) → List D → Option (Option D × List D)
  remove_first matches [] = some (none, [])
  remove_first matches (x ∷ xs) = and_then (matches x) λ b. elim b [
    | true ↦ some (some x, xs)
    | false ↦ and_then (remove_first matches xs) λ r. some (r.0, x ∷ r.1)
  ]

  -- The last datum.
  unfoldable pub final : List D → Option D
  final [] = none
  final (x ∷ []) = some x
  final (x ∷ y ∷ xs) = final (y ∷ xs)

  -- Every datum is visited until a visitor does not return MMS_RESULT_OK.
  module _ {S : Type 0} (visit : D → S → Option (MmsResult × S)) where
    unfoldable pub visit_all : List D → S → Option S
    visit_all [] s = some s
    visit_all (x ∷ xs) s =
        and_then (visit x s) λ r. elim r.0 [ result_ok ↦ visit_all xs r.1 | _ ↦ some r.1 ]
