-- ===== src/Tests/Lists.antt =====
-- A list of two numbers in memory.
use broncho_mms.Base.{
  [], ◌∷◌, some, ℕ, Option, Bool, ◌==◌, true, ◌≡◌, arith, if◌then◌else◌, ltb, ◌+◌, refl,
}
use broncho_mms.Linked.Calls.{
  MmsList, list_find, list_foreach, list_erase, list_destroy, list_append, list_remove,
}
use broncho_mms.Linked.Release.{
  Erased, logged, list_destroy_lem, list_erase-Erased, list_remove-Removed,
}
use broncho_mms.Output.State.{MmsResult, result_fail, result_ok}
use broncho_mms.Linked.Holds.{Holds, Leaves}
use broncho_mms.Linked.Search.{Removed}
use broncho_mms.Linked.Segments.{linked}
use broncho_mms.Linked.Spec.{remove_first, visit_all, find_first}
use broncho_mms.Linked.Walks.{list_foreach-Holds, list_find-Holds}
use broncho_mms.Tests.Given.{supply}
use broncho_mms.Linked.Growth.{list_append-Holds}

abbrev two_numbers : MmsList ℕ
two_numbers = record {
  nodes = some (linked 0 2 5) ∷ some (linked 1 0 7) ∷ [];
  head = 1;
  tail = 2;
  destroyed = [];
}

two_numbers-Holds : Holds two_numbers (5 ∷ 7 ∷ [])
two_numbers-Holds = record {
  places = 1 ∷ 2 ∷ [];
  seg = (refl, (refl, tt));
  head_is = refl;
  tail_is = refl;
  distinct = ((λ e. absurd (omega (arith, e)), tt), (tt, tt));
  few = omega arith;
}

-- A comparison, and a visitor that adds up and stops behind a number above 5.
abbrev is : ℕ → ℕ → Option Bool
is n m = some (n == m)

abbrev add_up : ℕ → ℕ → Option (MmsResult × ℕ)
add_up n sum = some (if ltb 5 n then result_fail else result_ok, sum + n)

list_remove-Removed_example :
    Removed true two_numbers (list_remove (is 7) two_numbers) [] (remove_first (is 7) (5 ∷ 7 ∷ []))
list_remove-Removed_example = list_remove-Removed (is 7) two_numbers two_numbers-Holds

list_erase-Erased_example :
    Erased (is 5) two_numbers (list_erase (is 5) two_numbers) (remove_first (is 5) (5 ∷ 7 ∷ []))
list_erase-Erased_example = list_erase-Erased (is 5) two_numbers two_numbers-Holds

list_destroy_lem_example :
    (l : MmsList ℕ) × (list_destroy two_numbers ≡ some l) × (l.destroyed ≡ logged (5 ∷ 7 ∷ []) [])
list_destroy_lem_example = list_destroy_lem two_numbers two_numbers-Holds

list_append-Holds_example : Leaves (list_append supply 9 two_numbers) result_ok (5 ∷ 7 ∷ 9 ∷ [])
list_append-Holds_example = list_append-Holds supply 9 two_numbers refl two_numbers-Holds

list_find-Holds_example : list_find (is 7) two_numbers ≡ find_first (is 7) (5 ∷ 7 ∷ [])
list_find-Holds_example = list_find-Holds two_numbers (is 7) two_numbers-Holds

list_foreach-Holds_example : list_foreach add_up two_numbers 1 ≡ visit_all add_up (5 ∷ 7 ∷ []) 1
list_foreach-Holds_example = list_foreach-Holds two_numbers add_up 1 two_numbers-Holds
