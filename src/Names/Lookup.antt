-- ===== src/Names/Lookup.antt =====
-- The two searches in a table are inverse to each other where its rows differ.
use broncho_mms.Base.{
  [], ◌∷◌, refl, List, ℕ, Bool, false, true, not, ◌==◌, ◌||◌, ◌&&◌, ◌≡◌, arith, some, Bool-cases,
  inl, sym, ◌∙◌, ap, inr, ==_iff, ◌≢◌,
}
use broncho_mms.Names.Pairs.{same_text, NameIdPair, id_to_name, name_to_id, unknown}
use broncho_mms.Memory.{CString}

-- No other row has the name, or the number, of a row.
unfoldable pub has_name : CString → List NameIdPair → Bool
unfolding same_text
has_name name [] = false
has_name name (p ∷ pairs) = same_text p.name name || has_name name pairs

unfoldable pub names_differ : List NameIdPair → Bool
unfolding has_name
names_differ [] = true
names_differ (p ∷ pairs) = not (has_name p.name pairs) && names_differ pairs

unfoldable pub has_id : ℕ → List NameIdPair → Bool
has_id id [] = false
has_id id (p ∷ pairs) = (p.id == id) || has_id id pairs

unfoldable pub ids_differ : List NameIdPair → Bool
unfolding has_id
ids_differ [] = true
ids_differ (p ∷ pairs) = not (has_id p.id pairs) && ids_differ pairs

pub same_text_refl : (s : CString) → same_text s s ≡ true
unfolding same_text
same_text_refl [] = refl
same_text_refl (c ∷ s) = ground (arith, same_text_refl s)

pub same_text_eq : (s t : CString) → same_text s t ≡ true → s ≡ t
unfolding same_text
same_text_eq [] [] h = refl
same_text_eq [] (d ∷ t) h = absurd (cc)
same_text_eq (c ∷ s) [] h = absurd (cc)
same_text_eq (c ∷ s) (d ∷ t) h = grind (arith, same_text_eq s t)

-- What the searches find is in the table.
has_name-found :
    (t : List NameIdPair) (i : ℕ) (n : CString) → id_to_name t i ≡ some n → has_name n t ≡ true
unfolding id_to_name has_name
has_name-found [] i n h = absurd (cc)
has_name-found (p ∷ t) i n h = elim (Bool-cases (p.id == i)) [
  | inl e ↦
      let first : some p.name ≡ some n = sym (rw e refl) ∙ h in
      let same : p.name ≡ n = cc in rw (ap (λ s. same_text s n) same ∙ same_text_refl n) refl
  | inr ne ↦
      let later : has_name n t ≡ true = has_name-found t i n (sym (rw ne refl) ∙ h) in
      ground (arith, later)
]

has_id-found :
    (t : List NameIdPair) (i : ℕ) (n : CString)
    → name_to_id t n ≡ i
    → i ≢ unknown
    → has_id i t ≡ true
unfolding name_to_id has_id
has_id-found [] i n h known = absurd (known (sym h))
has_id-found (p ∷ t) i n h known = elim (Bool-cases (same_text p.name n)) [
  | inl e ↦ let first : p.id ≡ i = sym (rw e refl) ∙ h in rw ((==_iff p.id i).1 first) refl
  | inr ne ↦
      let later : has_id i t ≡ true = has_id-found t i n (sym (rw ne refl) ∙ h) known in
      ground (arith, later)
]

-- In a table of different names, the name found for a number has that number.
pub name_to_id-id_to_name :
    (t : List NameIdPair) (i : ℕ) (n : CString)
    → names_differ t ≡ true
    → id_to_name t i ≡ some n
    → name_to_id t n ≡ i
unfolding names_differ id_to_name name_to_id
name_to_id-id_to_name [] i n d h = absurd (cc)
name_to_id-id_to_name (p ∷ t) i n d h = elim (Bool-cases (p.id == i)) [
  | inl e ↦
      let first : some p.name ≡ some n = sym (rw e refl) ∙ h in
      let same : p.name ≡ n = cc in
      rw (ap (λ s. same_text s n) same ∙ same_text_refl n) ((==_iff p.id i).0 e)
  | inr ne ↦
      let found : id_to_name t i ≡ some n = sym (rw ne refl) ∙ h in
      elim (Bool-cases (same_text p.name n)) [
        | inl e ↦
            let twice : has_name p.name t ≡ true =
              ap (λ s. has_name s t) (same_text_eq p.name n e) ∙ has_name-found t i n found in
            absurd (ground (arith, d, twice))
        | inr other ↦ rw other (name_to_id-id_to_name t i n (ground (arith, d)) found)
      ]
]

-- In a table of different numbers, the number found for a name has that name, unless it is -1.
pub id_to_name-name_to_id :
    (t : List NameIdPair) (i : ℕ) (n : CString)
    → ids_differ t ≡ true
    → name_to_id t n ≡ i
    → i ≢ unknown
    → id_to_name t i ≡ some n
unfolding ids_differ id_to_name name_to_id
id_to_name-name_to_id [] i n d h known = absurd (known (sym h))
id_to_name-name_to_id (p ∷ t) i n d h known = elim (Bool-cases (same_text p.name n)) [
  | inl e ↦
      let first : p.id ≡ i = sym (rw e refl) ∙ h in
      rw ((==_iff p.id i).1 first) (ap some (same_text_eq p.name n e))
  | inr ne ↦
      let found : name_to_id t n ≡ i = sym (rw ne refl) ∙ h in
      elim (Bool-cases (p.id == i)) [
        | inl e ↦
            let twice : has_id p.id t ≡ true =
              ap (λ k. has_id k t) ((==_iff p.id i).0 e) ∙ has_id-found t i n found known in
            absurd (ground (arith, d, twice))
        | inr other ↦ rw other (id_to_name-name_to_id t i n (ground (arith, d)) found known)
      ]
]
