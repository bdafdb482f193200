-- ===== src/Header/Names.antt =====
-- Names of headers, compared without case, and the items that have them.
use broncho_mms.Base.{
  [], ◌∷◌, none, some, ℕ, if◌then◌else◌, ◌≡◌, ◌++◌, true, sym, false, subst, ◌==◌, Bool-cases, ap,
  ◌∙◌, inl, inr, refl,
}
use broncho_mms.Header.State.{Items, same_name, type_code, lowered}
use broncho_mms.Memory.{CString}
use broncho_mms.Items.{
  MmsDataType, HeaderItem, type_none, type_long_int, type_string, type_encoded_string, type_time,
  type_data, type_nr,
}
use broncho_mms.Names.Pairs.{same_text}
use broncho_mms.Names.Lookup.{same_text_refl, same_text_eq}

pub same_name_refl : (s : CString) → same_name s s ≡ true
unfolding same_name
same_name_refl s = same_text_refl (lowered s)

pub same_name_sym : (s t : CString) → same_name s t ≡ true → same_name t s ≡ true
unfolding same_name
same_name_sym s t h =
    subst (λ (x : CString). same_text x (lowered s) ≡ true) (same_text_eq (lowered s) (lowered t) h)
      (same_text_refl (lowered s))

-- A name that is the same as another compares like it.
pub same_name_like : (s t u : CString) → same_name s t ≡ true → same_name s u ≡ same_name t u
unfolding same_name
same_name_like s t u h = ap (λ x. same_text x (lowered u)) (same_text_eq (lowered s) (lowered t) h)

pub same_name_like_second : (s t u : CString) → same_name s t ≡ true → same_name u s ≡ same_name u t
unfolding same_name
same_name_like_second s t u h =
    ap (λ x. same_text (lowered u) x) (same_text_eq (lowered s) (lowered t) h)

-- The number of an enumerator determines it.
type_of : ℕ → MmsDataType
type_of n =
    if n == 0
    then type_none
    else if n == 1
    then type_long_int
    else if n == 2
    then type_string
    else if n == 3
    then type_encoded_string
    else if n == 4
    then type_time
    else if n == 5
    then type_data
    else type_nr

type_of_code : (t : MmsDataType) → type_of (type_code t) ≡ t
unfolding type_of
type_of_code type_none = refl
type_of_code type_long_int = refl
type_of_code type_string = refl
type_of_code type_encoded_string = refl
type_of_code type_time = refl
type_of_code type_data = refl
type_of_code type_nr = refl

pub type_code_injective : (t u : MmsDataType) → type_code t ≡ type_code u → t ≡ u
type_code_injective t u e = sym (type_of_code t) ∙ ap type_of e ∙ type_of_code u

-- No item is NULL and none has the name.
abbrev pub Absent : CString → Items → Type 0
Absent name [] = Unit {0}
Absent name (none ∷ items) = ⊥
Absent name (some it ∷ items) = (same_name it.name name ≡ false) × Absent name items

-- No item is NULL and no two have the same name.
abbrev pub Unique : Items → Type 0
Unique [] = Unit {0}
Unique (none ∷ items) = ⊥
Unique (some it ∷ items) = Absent it.name items × Unique items

pub Absent-split :
    (name : CString) (us vs : Items) → Absent name (us ++ vs) → Absent name us × Absent name vs
Absent-split name [] vs h = (tt, h)
Absent-split name (none ∷ us) vs h = absurd h
Absent-split name (some it ∷ us) vs h = let r = Absent-split name us vs h.1 in ((h.0, r.0), r.1)

pub Absent-join :
    (name : CString) (us vs : Items) → Absent name us → Absent name vs → Absent name (us ++ vs)
Absent-join name [] vs h k = k
Absent-join name (none ∷ us) vs h k = absurd h
Absent-join name (some it ∷ us) vs h k = (h.0, Absent-join name us vs h.1 k)

pub Absent-like :
    (s t : CString) (items : Items) → same_name s t ≡ true → Absent s items → Absent t items
Absent-like s t [] e h = tt
Absent-like s t (none ∷ items) e h = absurd h
Absent-like s t (some it ∷ items) e h =
    (sym (same_name_like_second s t it.name e) ∙ h.0, Absent-like s t items e h.1)

-- Items without the one in the middle, or with another of the same name.
pub Unique-without :
    (us : Items) (it : HeaderItem) (vs : Items) → Unique (us ++ (some it ∷ vs)) → Unique (us ++ vs)
Unique-without [] it vs h = h.1
Unique-without (none ∷ us) it vs h = absurd h
Unique-without (some u ∷ us) it vs h =
    let (before, behind) = Absent-split u.name us (some it ∷ vs) h.0 in
    (Absent-join u.name us vs before behind.1, Unique-without us it vs h.1)

pub Unique-instead :
    (us : Items) (it it' : HeaderItem) (vs : Items)
    → it'.name ≡ it.name
    → Unique (us ++ (some it ∷ vs))
    → Unique (us ++ (some it' ∷ vs))
Unique-instead [] it it' vs e h = (subst (λ (n : CString). Absent n vs) (sym e) h.0, h.1)
Unique-instead (none ∷ us) it it' vs e h = absurd h
Unique-instead (some u ∷ us) it it' vs e h =
    let (before, behind) = Absent-split u.name us (some it ∷ vs) h.0 in
    (
      Absent-join u.name us (some it' ∷ vs) before
          (ap (λ n. same_name n u.name) e ∙ behind.0, behind.1),
      Unique-instead us it it' vs e h.1,
    )

pub Unique-append :
    (us : Items) (it : HeaderItem) → Unique us → Absent it.name us → Unique (us ++ (some it ∷ []))
Unique-append [] it h out = (tt, tt)
Unique-append (none ∷ us) it h out = absurd h
Unique-append (some u ∷ us) it h out = (
  Absent-join u.name us (some it ∷ []) h.0 (differs u.name it.name out.0, tt),
  Unique-append us it h.1 out.1,
)
  where
    differs : (s t : CString) → same_name s t ≡ false → same_name t s ≡ false
    differs s t h = elim (Bool-cases (same_name t s)) [
      | inl e ↦ absurd (let both : true ≡ false = sym (same_name_sym t s e) ∙ h in cc)
      | inr e ↦ e
    ]
