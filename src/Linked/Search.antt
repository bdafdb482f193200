-- ===== src/Linked/Search.antt =====
-- The loops of `mms_list_remove` and `mms_list_erase` of src/mms_list.c, on the data. They end: there
-- is fuel for every node.
use broncho_mms.Base.{
  [], zero, none, some, suc, ◌∷◌, Bool, Option, List, ℕ, ◌++◌, ◌≡◌, length, ◌≤◌, and_then, subst,
  arith, if◌then◌else◌, true, append_assoc, false, refl, sym, ◌∙◌, ap,
}
use broncho_mms.Linked.Calls.{MmsList, remove_from, unlink}
use broncho_mms.Linked.Segments.{
  Seg, last, Distinct, first, linked, Distinct-split, Seg-append, last-append,
}
use broncho_mms.Linked.Spec.{remove_first}
use broncho_mms.Output.State.{MmsResult, result_fail, result_ok}
use broncho_mms.Linked.Holds.{Holds, place_ne_null}
use broncho_mms.Linked.Removal.{unlink-Holds}
use broncho_mms.Linked.Walks.{at_tail, before_tail}

module _ {D : Type 0} where
  -- What the call `m` did to `l`, which held `ys` before the place where it looks, by what was to be
  -- removed there: undefined like the comparison, or failed without a change, or done.
  abbrev pub Removed :
      Bool
      → MmsList D
      → Option ((MmsResult × Option D) × MmsList D)
      → List D
      → Option (Option D × List D)
      → Type 0
  Removed keep l m ys none = m ≡ none
  Removed keep l m ys (some (none, rest)) = m ≡ some ((result_fail, none), l)
  Removed keep l m ys (some (some x, rest)) =
      (l' : MmsList D) × (m ≡ some ((result_ok, some x), l'))
      × Holds l' (ys ++ rest)
      × (l'.destroyed ≡ (if keep then l.destroyed else x ∷ l.destroyed))

  -- The same, with the datum passed over counted to those before.
  Removed-next :
      (keep : Bool) (l : MmsList D) (m : Option ((MmsResult × Option D) × MmsList D)) (ys : List D)
      (x : D) (r : Option (Option D × List D))
      → Removed keep l m (ys ++ (x ∷ [])) r
      → Removed keep l m ys (and_then r λ r. some (r.0, x ∷ r.1))
  Removed-next keep l m ys x none h = h
  Removed-next keep l m ys x (some (none, rest)) h = h
  Removed-next keep l m ys x (some (some y, rest)) (l', run, h, e) =
      (l', run, subst (λ (t : List D). Holds l' t) (append_assoc ys (x ∷ []) rest) h, e)

  module _ (matches : D → Option Bool) (keep : Bool) (l : MmsList D) where
    found :
        (qs : List ℕ) (ys : List D) (p : ℕ) (ps : List ℕ) (x : D) (xs : List D)
        → Seg l.nodes 0 qs ys p
        → Seg l.nodes (last 0 qs) (p ∷ ps) (x ∷ xs) 0
        → Distinct (qs ++ (p ∷ ps))
        → l.head ≡ first (qs ++ (p ∷ ps)) 0
        → l.tail ≡ last p ps
        → length (qs ++ (p ∷ ps)) ≤ length l.nodes
        → Removed keep l
            (and_then
              (unlink p
                (linked (last 0 qs) (first ps 0) x)
                (if keep then l else record l { destroyed = x ∷ l.destroyed }))
              λ l₂. some ((result_ok, some x), l₂))
            ys
            (some (some x, xs))
    found qs ys p ps x xs front back d head_is tail_is few = by_keep keep
      where
        by_keep :
            (k : Bool)
            → Removed k l
                (and_then
                  (unlink p
                    (linked (last 0 qs) (first ps 0) x)
                    (if k then l else record l { destroyed = x ∷ l.destroyed }))
                  λ l₂. some ((result_ok, some x), l₂))
                ys
                (some (some x, xs))
        by_keep true =
            let (l', run, h, e) = unlink-Holds l p ps x xs qs ys front back d head_is tail_is few in
            (l', rw run, h, e)
        by_keep false =
            let (l', run, h, e) =
              unlink-Holds (record l { destroyed = x ∷ l.destroyed }) p ps x xs qs ys front back d
                head_is tail_is few in
            (l', rw run, h, e)

    -- One round, by the comparison of the datum at the cursor.
    by_test :
        (ys xs : List D) (x : D) (r : Option (Option D × List D)) (b : Option Bool)
        (taken next : Option ((MmsResult × Option D) × MmsList D))
        → Removed keep l taken ys (some (some x, xs))
        → Removed keep l next ys (and_then r λ r. some (r.0, x ∷ r.1))
        → Removed keep l (and_then b λ b. elim b [ true ↦ taken | false ↦ next ]) ys (
            and_then b λ b. elim b [
              | true ↦ some (some x, xs)
              | false ↦ and_then r λ r. some (r.0, x ∷ r.1)
            ])
    by_test ys xs x r none taken next h k = refl
    by_test ys xs x r (some true) taken next h k = h
    by_test ys xs x r (some false) taken next h k = k

    pub remove_from-Removed :
        (fuel : ℕ) (qs : List ℕ) (ys : List D) (p : ℕ) (ps : List ℕ) (xs : List D)
        → length (p ∷ ps) ≤ fuel
        → Seg l.nodes 0 qs ys p
        → Seg l.nodes (last 0 qs) (p ∷ ps) xs 0
        → Distinct (qs ++ (p ∷ ps))
        → l.head ≡ first (qs ++ (p ∷ ps)) 0
        → l.tail ≡ last p ps
        → length (qs ++ (p ∷ ps)) ≤ length l.nodes
        → Removed keep l (remove_from matches fuel keep p l) ys (remove_first matches xs)
    unfolding remove_from remove_first
    remove_from-Removed zero qs ys p ps xs fuel_left front back d head_is tail_is few =
        absurd (omega (arith, fuel_left))
    remove_from-Removed (suc fuel) qs ys p ps [] fuel_left front back d head_is tail_is few =
        absurd back
    remove_from-Removed (suc fuel) qs ys p [] (x ∷ y ∷ xs) fuel_left front back d head_is tail_is
          few =
        absurd back.1
    remove_from-Removed (suc fuel) qs ys p [] (x ∷ []) fuel_left front back d head_is tail_is few =
        rw (remove_from, place_ne_null l.nodes p back.0, back.0)
          (by_test ys [] x (some (none, [])) (matches x) _ _
            (found qs ys p [] x [] front back d head_is tail_is few) (rw (at_tail l p tail_is)))
    remove_from-Removed (suc fuel) qs ys p (q ∷ ps) (x ∷ xs) fuel_left front back d head_is tail_is
          few =
        let assoc = append_assoc qs (p ∷ []) (q ∷ ps) in
        rw (remove_from, place_ne_null l.nodes p back.0, back.0)
          (by_test ys xs x (remove_first matches xs) (matches x) _ _
            (found qs ys p (q ∷ ps) x xs front back d head_is tail_is few)
            (rw (before_tail l p q ps tail_is (Distinct-split qs (p ∷ q ∷ ps) d).1.0) (
              Removed-next keep l _ ys x _ (
                remove_from-Removed fuel (qs ++ (p ∷ [])) (ys ++ (x ∷ [])) q ps xs
                  (omega (arith, fuel_left))
                  (Seg-append l.nodes 0 qs (p ∷ []) ys (x ∷ []) q front (back.0, tt))
                  (subst (λ (b : ℕ). Seg l.nodes b (q ∷ ps) xs 0) (sym (last-append 0 qs p []))
                    back.1)
                  (subst (λ (t : List ℕ). Distinct t) (sym assoc) d)
                  (head_is ∙ ap (λ t. first t 0) (sym assoc)) tail_is
                  (subst (λ (t : List ℕ). length t ≤ length l.nodes) (sym assoc) few)))))
