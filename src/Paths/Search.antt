-- ===== src/Paths/Search.antt =====
-- The searches of the C library in a string, as positions.
use broncho_mms.Base.{
  [], ◌∷◌, refl, Option, ℕ, some, ◌+◌, ◌≡◌, none, if◌then◌else◌, ◌++◌, length, ◌==◌, ==_iff,
  Option-cases, ap, inl, arith, inr, Bool-cases, sym, ◌∙◌,
}
use broncho_mms.Memory.{CString}

abbrev pub shifted : ℕ → Option ℕ → Option ℕ
shifted n none = none
shifted n (some i) = some (n + i)

-- `strchr`
unfoldable pub strchr : ℕ → CString → Option ℕ
strchr c [] = none
strchr c (d ∷ s) = let rest = strchr c s in if d == c then some 0 else shifted 1 rest

-- `strrchr`
unfoldable pub strrchr : ℕ → CString → Option ℕ
strrchr c [] = none
strrchr c (d ∷ s) = elim (strrchr c s) [
  | some i ↦ some (1 + i)
  | none ↦ if d == c then some 0 else none
]

-- The first result that is not NULL.
abbrev pub or_else : Option ℕ → Option ℕ → Option ℕ
or_else none b = b
or_else (some i) b = some i

pub strchr-append :
    (c : ℕ) (s t : CString)
    → strchr c s ≡ none
    → strchr c (s ++ t) ≡ shifted (length s) (strchr c t)
unfolding strchr
strchr-append c [] t h = elim (Option-cases (strchr c t)) [
  | inl e ↦ rw e refl
  | inr (k, e) ↦ rw e (ap some (omega arith))
]
strchr-append c (d ∷ s) t h = elim (Bool-cases (d == c)) [
  | inl e ↦ absurd (let impossible : some 0 ≡ none = sym (rw e refl) ∙ h in cc)
  | inr ne ↦
      let rest : shifted 1 (strchr c s) ≡ none = sym (rw ne refl) ∙ h in
      elim (Option-cases (strchr c s)) [
        | inr (k, e) ↦ absurd (let impossible : some (1 + k) ≡ none = sym (rw e refl) ∙ rest in cc)
        | inl e ↦
            let later = strchr-append c s t e in
            elim (Option-cases (strchr c t)) [
              | inl none_left ↦
                  let gone : strchr c (s ++ t) ≡ none = later ∙ rw none_left refl in
                  rw (ne, gone) (rw none_left refl)
              | inr (k, at) ↦
                  let found : strchr c (s ++ t) ≡ some (length s + k) = later ∙ rw at refl in
                  rw (ne, found) (rw at (ap some (omega arith)))
            ]
      ]
]

-- The last occurrence is the first one that nothing follows.
pub strrchr-append :
    (c : ℕ) (s t : CString) → strrchr c t ≡ none → strrchr c (s ++ (c ∷ t)) ≡ some (length s)
unfolding strrchr
strrchr-append c [] t h = rw h (rw ((==_iff c c).1 refl) refl)
strrchr-append c (d ∷ s) t h = rw (strrchr-append c s t h) (ap some (omega arith))
