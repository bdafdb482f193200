-- ===== src/Header/Found.antt =====
-- The searches of src/mms_header.c in items whose names differ.
use broncho_mms.Base.{
  [], ◌∷◌, none, some, ◌≡◌, Option, ◌⊎◌, Bool, true, inl, ◌++◌, false, Bool-cases, inr, ap, refl,
}
use broncho_mms.Memory.{CString}
use broncho_mms.Linked.Spec.{find_first, remove_first}
use broncho_mms.Header.Setters.{change_first}
use broncho_mms.Header.State.{header_compare_by_name, Items, same_name}
use broncho_mms.Items.{HeaderItem}
use broncho_mms.Header.Names.{Unique, Absent, Absent-like}
use broncho_mms.Linked.Walks.{and_then-both}

module _ (name : CString) where
  compare-some :
      (it : HeaderItem) (b : Bool)
      → same_name it.name name ≡ b
      → header_compare_by_name name (some it) ≡ some b
  unfolding header_compare_by_name
  compare-some it b e = rw e

  pub find_first-Absent :
      (items : Items)
      → Absent name items
      → find_first (header_compare_by_name name) items ≡ some none
  unfolding find_first
  find_first-Absent [] h = refl
  find_first-Absent (none ∷ items) h = absurd h
  find_first-Absent (some it ∷ items) h =
      rw (compare-some it false h.0) (find_first-Absent items h.1)

  pub find_first-at :
      (us : Items) (it : HeaderItem) (vs : Items)
      → Absent name us
      → same_name it.name name ≡ true
      → find_first (header_compare_by_name name) (us ++ (some it ∷ vs)) ≡ some (some (some it))
  unfolding find_first
  find_first-at [] it vs h e = rw (compare-some it true e)
  find_first-at (none ∷ us) it vs h e = absurd h
  find_first-at (some u ∷ us) it vs h e =
      rw (compare-some u false h.0) (find_first-at us it vs h.1 e)

  -- An item of another name is passed over.
  pub find_first-skip :
      (us : Items) (it : HeaderItem) (vs : Items)
      → same_name it.name name ≡ false
      → find_first (header_compare_by_name name) (us ++ (some it ∷ vs))
        ≡ find_first (header_compare_by_name name) (us ++ vs)
  unfolding find_first
  find_first-skip [] it vs e = rw (compare-some it false e)
  find_first-skip (u ∷ us) it vs e =
      and_then-both (header_compare_by_name name u) _ _ refl (find_first-skip us it vs e)

  pub remove_first-Absent :
      (items : Items)
      → Absent name items
      → remove_first (header_compare_by_name name) items ≡ some (none, items)
  unfolding remove_first
  remove_first-Absent [] h = refl
  remove_first-Absent (none ∷ items) h = absurd h
  remove_first-Absent (some it ∷ items) h =
      rw (compare-some it false h.0, remove_first-Absent items h.1)

  pub remove_first-at :
      (us : Items) (it : HeaderItem) (vs : Items)
      → Absent name us
      → same_name it.name name ≡ true
      → remove_first (header_compare_by_name name) (us ++ (some it ∷ vs))
        ≡ some (some (some it), us ++ vs)
  unfolding remove_first
  remove_first-at [] it vs h e = rw (compare-some it true e)
  remove_first-at (none ∷ us) it vs h e = absurd h
  remove_first-at (some u ∷ us) it vs h e =
      rw (compare-some u false h.0, remove_first-at us it vs h.1 e)

  pub change_first-at :
      (f : HeaderItem → Option HeaderItem) (us : Items) (it it' : HeaderItem) (vs : Items)
      → Absent name us
      → same_name it.name name ≡ true
      → f it ≡ some it'
      → change_first name f (us ++ (some it ∷ vs)) ≡ some (us ++ (some it' ∷ vs))
  unfolding change_first
  change_first-at f [] it it' vs h e k = rw (compare-some it true e, k)
  change_first-at f (none ∷ us) it it' vs h e k = absurd h
  change_first-at f (some u ∷ us) it it' vs h e k =
      rw (compare-some u false h.0, change_first-at f us it it' vs h.1 e k)

  -- Where the item of a name is.
  pub record Place (items : Items) : Type 0 where
    pub before : Items
    pub it : HeaderItem
    pub behind : Items
    pub stands : items ≡ before ++ (some it ∷ behind)
    pub not_before : Absent name before
    pub not_behind : Absent name behind
    pub named : same_name it.name name ≡ true

  pub Unique-cases : (items : Items) → Unique items → Absent name items ⊎ Place items
  Unique-cases [] h = inl tt
  Unique-cases (none ∷ items) h = absurd h
  Unique-cases (some u ∷ items) h = elim (Bool-cases (same_name u.name name)) [
    | inl e ↦ inr (record {
      before = [];
      it = u;
      behind = items;
      stands = refl;
      not_before = tt;
      not_behind = Absent-like u.name name items e h.0;
      named = e;
    })
    | inr ne ↦ elim (Unique-cases items h.1) [
      | inl out ↦ inl (ne, out)
      | inr p ↦ inr (record {
        before = some u ∷ p.before;
        it = p.it;
        behind = p.behind;
        stands = ap (λ t. some u ∷ t) p.stands;
        not_before = (ne, p.not_before);
        not_behind = p.not_behind;
        named = p.named;
      })
    ]
  ]
