-- ===== src/Linked/Release.antt =====
-- `mms_list_remove`, `mms_list_erase` and `mms_list_destroy` of src/mms_list.c as a whole.
use broncho_mms.Base.{
  [], zero, none, some, suc, ◌∷◌, List, Option, Bool, ℕ, length, ◌<◌, ◌≡◌, false, arith, ==_iff,
  ◌≤◌, subst, and_then, true, sym, refl, ap, ◌∙◌,
}
use broncho_mms.Linked.Calls.{
  remove_from, destroy_from, MmsList, list_erase, list_destroy, list_remove,
}
use broncho_mms.Linked.Segments.{Distinct, Seg, first, last, Seg-frame, linked}
use broncho_mms.Linked.Spec.{remove_first}
use broncho_mms.Output.State.{MmsResult, result_fail, result_ok}
use broncho_mms.Linked.Holds.{Holds, place_ne_null}
use broncho_mms.Linked.Search.{Removed, remove_from-Removed}
use broncho_mms.Linked.Nodes.{set_node, ListNode, node_at}

module _ {D : Type 0} (matches : D → Option Bool) where
  from_head :
      (keep : Bool) (l : MmsList D) (ps : List ℕ) (xs : List D)
      → Seg l.nodes 0 ps xs 0
      → l.head ≡ first ps 0
      → l.tail ≡ last 0 ps
      → Distinct ps
      → length ps ≤ length l.nodes
      → Removed keep l
          (remove_from matches (suc (length l.nodes)) keep (first ps 0) l)
          []
          (remove_first matches xs)
  unfolding remove_from remove_first
  from_head keep l [] [] seg h e d few = refl
  from_head keep l [] (x ∷ xs) seg h e d few = absurd seg
  from_head keep l (p ∷ ps) xs seg h e d few =
      remove_from-Removed matches keep l (suc (length l.nodes)) [] [] p ps xs (omega (arith, few))
        tt seg d h e few

  pub remove_from-Holds :
      (keep : Bool) (l : MmsList D) {xs : List D}
      → Holds l xs
      → Removed keep l
          (remove_from matches (suc (length l.nodes)) keep l.head l)
          []
          (remove_first matches xs)
  remove_from-Holds keep l {xs} h =
      subst
        (λ p.
          Removed keep l (remove_from matches (suc (length l.nodes)) keep p l) []
            (remove_first matches xs))
        (sym h.head_is) (from_head keep l h.places xs h.seg h.head_is h.tail_is h.distinct h.few)

  -- On a list in memory that holds some data, `mms_list_remove` does to it what removing the first
  -- match does to the data: undefined where a comparison is, MMS_RESULT_FAIL and no change where
  -- nothing matches, and else MMS_RESULT_OK with the datum, a list in memory that holds the rest
  -- in order, and nothing destroyed.
  pub list_remove-Removed :
      (l : MmsList D) {xs : List D}
      → Holds l xs
      → Removed true l (list_remove matches l) [] (remove_first matches xs)
  unfolding list_remove
  list_remove-Removed l h = remove_from-Holds true l h

  -- What `mms_list_erase` did, by what was to be erased: nothing is left of the datum but that it was
  -- destroyed.
  abbrev pub Erased :
      MmsList D → Option (MmsResult × MmsList D) → Option (Option D × List D) → Type 0
  Erased l m none = m ≡ none
  Erased l m (some (none, rest)) = m ≡ some (result_fail, l)
  Erased l m (some (some x, rest)) =
      (l' : MmsList D) × (m ≡ some (result_ok, l'))
      × Holds l' rest
      × (l'.destroyed ≡ x ∷ l.destroyed)

  Removed-Erased :
      (l : MmsList D) (m : Option ((MmsResult × Option D) × MmsList D))
      (r : Option (Option D × List D))
      → Removed false l m [] r
      → Erased l (and_then m λ t. some (t.0.0, t.1)) r
  Removed-Erased l m none h = rw h
  Removed-Erased l m (some (none, rest)) h = rw h
  Removed-Erased l m (some (some x, rest)) (l', run, h, e) = (l', rw run, h, e)

  -- On a list in memory that holds some data, `mms_list_erase` does to it what removing the first
  -- match does to the data: undefined where a comparison is, MMS_RESULT_FAIL and no change where
  -- nothing matches, and else MMS_RESULT_OK with a list that holds the rest in order, the datum
  -- having been destroyed once.
  pub list_erase-Erased :
      (l : MmsList D) {xs : List D}
      → Holds l xs
      → Erased l (list_erase matches l) (remove_first matches xs)
  unfolding list_erase
  list_erase-Erased l {xs} h =
      Removed-Erased l _ (remove_first matches xs) (remove_from-Holds false l h)

-- The data on top of a log, each on its predecessor.
unfoldable pub logged : {D : Type 0} → List D → List D → List D
logged [] log = log
logged (x ∷ xs) log = logged xs (x ∷ log)

after_head : {D : Type 0} → ListNode D → MmsList D → ℕ → MmsList D
after_head n l p = record l {
  head = n.next;
  destroyed = n.datum ∷ l.destroyed;
  nodes = set_node p none l.nodes;
}

destroy_round :
    {D : Type 0} (fuel : ℕ) (l : MmsList D) {n : ListNode D}
    → node_at l.nodes l.head ≡ some n
    → destroy_from (suc fuel) l ≡ destroy_from fuel (after_head n l l.head)
unfolding destroy_from after_head
destroy_round fuel l h = rw (destroy_from, place_ne_null l.nodes l.head h, h)

destroy_from-Seg :
    {D : Type 0} (fuel b : ℕ) (l : MmsList D) (ps : List ℕ) (xs : List D)
    → length ps < fuel
    → Distinct ps
    → Seg l.nodes b ps xs 0
    → l.head ≡ first ps 0
    → (l' : MmsList D) × (destroy_from fuel l ≡ some l') × (l'.destroyed ≡ logged xs l.destroyed)
unfolding destroy_from logged after_head
destroy_from-Seg zero b l ps xs few d h e = absurd (omega (arith, few))
destroy_from-Seg (suc fuel) b l [] [] few d h e =
    (record l { head = 0; tail = 0 }, rw (destroy_from, (==_iff l.head 0).1 e), refl)
destroy_from-Seg (suc fuel) b l [] (x ∷ xs) few d h e = absurd h
destroy_from-Seg (suc fuel) b l (p ∷ ps) [] few d h e = absurd h
destroy_from-Seg (suc fuel) b l (p ∷ ps) (x ∷ xs) few d h e =
    let (l', run, log) =
      destroy_from-Seg fuel p (after_head (linked b (first ps 0) x) l p) ps xs (omega (arith, few))
        d.1 (Seg-frame l.nodes p none p ps xs 0 d.0 h.1) refl in
    (
      l',
      destroy_round fuel l (ap (node_at l.nodes) e ∙ h.0)
          ∙ ap (λ q. destroy_from fuel (after_head (linked b (first ps 0) x) l q)) e
          ∙ run,
      log,
    )

-- On a list in memory that holds some data, `mms_list_destroy` ends, having destroyed each of them
-- once, from first to last.
pub list_destroy_lem :
    {D : Type 0} (l : MmsList D) {xs : List D}
    → Holds l xs
    → (l' : MmsList D) × (list_destroy l ≡ some l') × (l'.destroyed ≡ logged xs l.destroyed)
unfolding list_destroy destroy_from
list_destroy_lem l {xs} h =
    destroy_from-Seg (suc (length l.nodes)) 0 l h.places xs (omega (arith, h.few)) h.distinct h.seg
      h.head_is
