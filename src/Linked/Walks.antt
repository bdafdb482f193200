-- ===== src/Linked/Walks.antt =====
-- The calls of src/mms_list.c that walk the list, against the data it holds. Every walk ends: it
-- has fuel for each node.
use broncho_mms.Base.{
  [], zero, none, some, ℕ, ◌≡◌, ◌≢◌, List, Option, Bool, ◌==◌, true, false, arith, ==_iff, sym,
  length, ◌∷◌, ◌≤◌, suc, ◌∙◌, and_then, refl, ◌+◌, get_elem?, ap, ◌-◌, if◌then◌else◌,
}
use broncho_mms.Linked.Calls.{
  MmsList, find_from, list_find, length_from, nth_from, list_length, list_nth, list_first,
  foreach_from, list_foreach, list_last,
}
use broncho_mms.Linked.Segments.{last, Distinct, NotIn-last, Seg, first}
use broncho_mms.Linked.Spec.{find_first, visit_all, final}
use broncho_mms.Linked.Holds.{place_ne_null, Holds}
use broncho_mms.Output.State.{MmsResult, result_ok, result_fail, result_none, result_nr}
use broncho_mms.Linked.Nodes.{node_at}

ne→eqb : (a b : ℕ) → a ≢ b → (a == b) ≡ false
ne→eqb a b ne = ground arith

suc_not_null : (n : ℕ) → (suc n == 0) ≡ false
suc_not_null n = ground arith

suc-minus : (n : ℕ) → suc n - 1 ≡ n
suc-minus n = omega arith

-- Two continuations of the same test.
pub and_then-both :
    {A : Type 0} (m : Option Bool) (f g : Bool → Option A)
    → f true ≡ g true
    → f false ≡ g false
    → and_then m f ≡ and_then m g
and_then-both none f g t e = refl
and_then-both (some true) f g t e = t
and_then-both (some false) f g t e = e

visited-both :
    {A S : Type 0} (m : Option (MmsResult × S)) (f g : S → Option A)
    → ((s : S) → f s ≡ g s)
    → (k : S → Option A)
    → and_then m (λ r. elim r.0 [ result_ok ↦ f r.1 | _ ↦ k r.1 ])
      ≡ and_then m (λ r. elim r.0 [ result_ok ↦ g r.1 | _ ↦ k r.1 ])
visited-both none f g e k = refl
visited-both (some (result_ok, s)) f g e k = e s
visited-both (some (result_fail, s)) f g e k = refl
visited-both (some (result_none, s)) f g e k = refl
visited-both (some (result_nr, s)) f g e k = refl

module _ {D : Type 0} (l : MmsList D) where
  -- A walk from the head is right if it is for no nodes and for some.
  walk :
      {A : Type 0} (f : ℕ → A) (r : List D → A)
      → (l.tail ≡ 0 → f 0 ≡ r [])
      → ((p : ℕ) (ps : List ℕ) (xs : List D)
          → length (p ∷ ps) ≤ suc (length l.nodes)
          → Distinct (p ∷ ps)
          → Seg l.nodes 0 (p ∷ ps) xs 0
          → l.tail ≡ last p ps
          → f p ≡ r xs)
      → (xs : List D) → Holds l xs
      → f l.head ≡ r xs
  walk f r empty some_nodes xs h =
      ap f h.head_is ∙ elim_on h.places xs h.few h.distinct h.seg h.tail_is
    where
      elim_on :
          (ps : List ℕ) (ys : List D)
          → length ps ≤ length l.nodes
          → Distinct ps
          → Seg l.nodes 0 ps ys 0
          → l.tail ≡ last 0 ps
          → f (first ps 0) ≡ r ys
      elim_on [] [] few d g e = empty e
      elim_on [] (y ∷ ys) few d g e = absurd g
      elim_on (p ∷ ps) ys few d g e = some_nodes p ps ys (omega (arith, few)) d g e

  -- The last node is recognised by the tail.
  pub at_tail : (p : ℕ) → l.tail ≡ p → (p == l.tail) ≡ true
  at_tail p e = (==_iff p l.tail).1 (sym e)

  pub before_tail :
      (p q : ℕ) (ps : List ℕ)
      → l.tail ≡ last p (q ∷ ps)
      → Distinct (p ∷ q ∷ ps)
      → (p == l.tail) ≡ false
  before_tail p q ps e d = ne→eqb p l.tail (λ k. NotIn-last p q ps d.0 (k ∙ e))

  module _ (matches : D → Option Bool) where
    find_from-Seg :
        (fuel b p : ℕ) (ps : List ℕ) (xs : List D)
        → length (p ∷ ps) ≤ fuel
        → Distinct (p ∷ ps)
        → Seg l.nodes b (p ∷ ps) xs 0
        → l.tail ≡ last p ps
        → find_from matches fuel p l ≡ find_first matches xs
    unfolding find_from find_first
    find_from-Seg zero b p ps xs few d h e = absurd (omega (arith, few))
    find_from-Seg (suc fuel) b p ps [] few d h e = absurd h
    find_from-Seg (suc fuel) b p [] (x ∷ y ∷ xs) few d h e = absurd h.1
    find_from-Seg (suc fuel) b p (q ∷ ps) (x ∷ []) few d h e = absurd h.1
    find_from-Seg (suc fuel) b p [] (x ∷ []) few d h e =
        rw (find_from, place_ne_null l.nodes p h.0, h.0)
          (and_then-both (matches x) _ _ refl (rw (at_tail p e)))
    find_from-Seg (suc fuel) b p (q ∷ ps) (x ∷ y ∷ xs) few d h e =
        rw (find_from, place_ne_null l.nodes p h.0, h.0)
          (and_then-both (matches x) _ _ refl (
            rw (before_tail p q ps e d)
              (find_from-Seg fuel p q ps (y ∷ xs) (omega (arith, few)) d.1 h.1 e)))

    -- On a list in memory that holds some data, `mms_list_find` ends and returns the first of them
    -- that matches, or NULL; it is undefined exactly where a comparison up to there is.
    pub list_find-Holds : {xs : List D} → Holds l xs → list_find matches l ≡ find_first matches xs
    unfolding list_find find_from find_first
    list_find-Holds {xs} h =
        walk (λ p. find_from matches (suc (length l.nodes)) p l) (find_first matches) (λ _. refl)
          (λ p ps ys few d g e. find_from-Seg (suc (length l.nodes)) 0 p ps ys few d g e) xs h

  length_from-Seg :
      (fuel count b p : ℕ) (ps : List ℕ) (xs : List D)
      → length (p ∷ ps) ≤ fuel
      → Distinct (p ∷ ps)
      → Seg l.nodes b (p ∷ ps) xs 0
      → l.tail ≡ last p ps
      → length_from fuel count p l ≡ some (count + length xs)
  unfolding length_from
  length_from-Seg zero count b p ps xs few d h e = absurd (omega (arith, few))
  length_from-Seg (suc fuel) count b p ps [] few d h e = absurd h
  length_from-Seg (suc fuel) count b p [] (x ∷ y ∷ xs) few d h e = absurd h.1
  length_from-Seg (suc fuel) count b p (q ∷ ps) (x ∷ []) few d h e = absurd h.1
  length_from-Seg (suc fuel) count b p [] (x ∷ []) few d h e =
      rw (length_from, place_ne_null l.nodes p h.0, at_tail p e)
  length_from-Seg (suc fuel) count b p (q ∷ ps) (x ∷ y ∷ xs) few d h e =
      rw (length_from, place_ne_null l.nodes p h.0, before_tail p q ps e d, h.0)
        (length_from-Seg fuel (count + 1) p q ps (y ∷ xs) (omega (arith, few)) d.1 h.1 e
          ∙ ap some (omega arith))

  -- On a list in memory that holds some data, `mms_list_length` ends and returns how many they
  -- are.
  pub list_length-Holds : {xs : List D} → Holds l xs → list_length l ≡ some (length xs)
  unfolding list_length length_from
  list_length-Holds {xs} h =
      walk (λ p. length_from (suc (length l.nodes)) 0 p l) (λ ys. some (length ys)) (λ _. refl)
        (λ p ps ys few d g e.
          length_from-Seg (suc (length l.nodes)) 0 0 p ps ys few d g e ∙ ap some (omega arith))
        xs h

  nth_from-Seg :
      (fuel left b p : ℕ) (ps : List ℕ) (xs : List D)
      → length (p ∷ ps) ≤ fuel
      → Distinct (p ∷ ps)
      → Seg l.nodes b (p ∷ ps) xs 0
      → l.tail ≡ last p ps
      → nth_from fuel left p l ≡ some (get_elem? xs left)
  unfolding nth_from
  nth_from-Seg zero left b p ps xs few d h e = absurd (omega (arith, few))
  nth_from-Seg (suc fuel) left b p ps [] few d h e = absurd h
  nth_from-Seg (suc fuel) left b p [] (x ∷ y ∷ xs) few d h e = absurd h.1
  nth_from-Seg (suc fuel) left b p (q ∷ ps) (x ∷ []) few d h e = absurd h.1
  nth_from-Seg (suc fuel) zero b p [] (x ∷ []) few d h e =
      rw (nth_from, place_ne_null l.nodes p h.0, h.0)
  nth_from-Seg (suc fuel) (suc left) b p [] (x ∷ []) few d h e =
      rw (nth_from, place_ne_null l.nodes p h.0, h.0, suc_not_null left, at_tail p e)
  nth_from-Seg (suc fuel) zero b p (q ∷ ps) (x ∷ y ∷ xs) few d h e =
      rw (nth_from, place_ne_null l.nodes p h.0, h.0)
  nth_from-Seg (suc fuel) (suc left) b p (q ∷ ps) (x ∷ y ∷ xs) few d h e =
      rw
        (
          nth_from,
          place_ne_null l.nodes p h.0,
          h.0,
          suc_not_null left,
          before_tail p q ps e d,
          suc-minus left,
        )
        (nth_from-Seg fuel left p q ps (y ∷ xs) (omega (arith, few)) d.1 h.1 e)

  -- On a list in memory that holds some data, `mms_list_nth` ends and returns the datum at the
  -- index, or NULL behind the last.
  pub list_nth-Holds :
      {xs : List D} (index : ℕ) → Holds l xs → list_nth index l ≡ some (get_elem? xs index)
  unfolding list_nth nth_from
  list_nth-Holds {xs} index h =
      walk (λ p. nth_from (suc (length l.nodes)) index p l) (λ ys. some (get_elem? ys index))
        (λ _. refl)
        (λ p ps ys few d g e. nth_from-Seg (suc (length l.nodes)) index 0 p ps ys few d g e) xs h

  module _ {S : Type 0} (visit : D → S → Option (MmsResult × S)) where
    foreach_from-Seg :
        (fuel b p : ℕ) (ps : List ℕ) (xs : List D) (s : S)
        → length (p ∷ ps) ≤ fuel
        → Distinct (p ∷ ps)
        → Seg l.nodes b (p ∷ ps) xs 0
        → l.tail ≡ last p ps
        → foreach_from visit fuel p l s ≡ visit_all visit xs s
    unfolding foreach_from visit_all
    foreach_from-Seg zero b p ps xs s few d h e = absurd (omega (arith, few))
    foreach_from-Seg (suc fuel) b p ps [] s few d h e = absurd h
    foreach_from-Seg (suc fuel) b p [] (x ∷ y ∷ xs) s few d h e = absurd h.1
    foreach_from-Seg (suc fuel) b p (q ∷ ps) (x ∷ []) s few d h e = absurd h.1
    foreach_from-Seg (suc fuel) b p [] (x ∷ []) s few d h e =
        rw (foreach_from, place_ne_null l.nodes p h.0, h.0)
          (visited-both (visit x s) _ _ (λ s'. rw (at_tail p e)) _)
    foreach_from-Seg (suc fuel) b p (q ∷ ps) (x ∷ y ∷ xs) s few d h e =
        rw (foreach_from, place_ne_null l.nodes p h.0, h.0)
          (visited-both (visit x s) _ _
            (λ s'.
              rw (before_tail p q ps e d)
                (foreach_from-Seg fuel p q ps (y ∷ xs) s' (omega (arith, few)) d.1 h.1 e))
            _)

    -- On a list in memory that holds some data, `mms_list_foreach` ends and visits them in order
    -- until a visitor does not return MMS_RESULT_OK; it is undefined exactly where a visit is.
    pub list_foreach-Holds :
        {xs : List D} (s : S) → Holds l xs → list_foreach visit l s ≡ visit_all visit xs s
    unfolding list_foreach foreach_from visit_all
    list_foreach-Holds {xs} s h =
        walk (λ p. foreach_from visit (suc (length l.nodes)) p l s) (λ ys. visit_all visit ys s)
          (λ _. refl)
          (λ p ps ys few d g e. foreach_from-Seg (suc (length l.nodes)) 0 p ps ys s few d g e) xs h

  -- The datum at an end of the list.
  end_datum : ℕ → Option (Option D)
  end_datum p = if p == 0 then some none else and_then (node_at l.nodes p) λ n. some (some n.datum)

  first-Seg :
      (p : ℕ) (ps : List ℕ) (xs : List D)
      → Seg l.nodes 0 (p ∷ ps) xs 0
      → end_datum p ≡ some (get_elem? xs 0)
  unfolding end_datum
  first-Seg p ps [] g = absurd g
  first-Seg p ps (x ∷ xs) g = rw (place_ne_null l.nodes p g.0, g.0)

  pub list_first-Holds : {xs : List D} → Holds l xs → list_first l ≡ some (get_elem? xs 0)
  unfolding list_first end_datum
  list_first-Holds {xs} h =
      walk end_datum (λ ys. some (get_elem? ys 0)) (λ _. refl)
        (λ p ps ys few d g e. first-Seg p ps ys g) xs h

  last-Seg :
      (b p : ℕ) (ps : List ℕ) (xs : List D)
      → Seg l.nodes b (p ∷ ps) xs 0
      → end_datum (last p ps) ≡ some (final xs)
  unfolding end_datum final
  last-Seg b p ps [] g = absurd g
  last-Seg b p [] (x ∷ []) g = rw (place_ne_null l.nodes p g.0, g.0)
  last-Seg b p [] (x ∷ y ∷ xs) g = absurd g.1
  last-Seg b p (q ∷ ps) (x ∷ []) g = absurd g.1
  last-Seg b p (q ∷ ps) (x ∷ y ∷ xs) g = last-Seg p q ps (y ∷ xs) g.1

  pub list_last-Holds : {xs : List D} → Holds l xs → list_last l ≡ some (final xs)
  unfolding list_last end_datum final
  list_last-Holds {xs} h =
      walk (λ _. end_datum l.tail) (λ ys. some (final ys)) (λ e. ap end_datum e)
        (λ p ps ys few d g e. ap end_datum e ∙ last-Seg 0 p ps ys g) xs h
