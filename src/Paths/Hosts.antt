-- ===== src/Paths/Hosts.antt =====
-- The host of a URL. The caller's array for it is taken to be large enough.
use broncho_mms.Base.{
  refl, [], ◌∷◌, refl, Option, Bool, take, ℕ, some, drop, ◌==◌, none, if◌then◌else◌, ◌&&◌, ◌+◌,
  false, ltb, length, ◌≡◌, ◌++◌, Bool-cases, ap, length-append, sym, arith, inl, Option-cases, ◌∙◌,
  inr, append_assoc, take-append, le→ltb, drop-append,
}
use broncho_mms.Memory.{CString}
use broncho_mms.Paths.Search.{strchr, or_else, shifted, strchr-append}
use broncho_mms.Paths.Files.{past_mark}

-- `strncmp(s, "://", 3) == 0`
unfoldable pub starts_authority : CString → Bool
starts_authority (a ∷ b ∷ c ∷ s) = (a == b':') && (b == b'/') && (c == b'/')
starts_authority s = false

-- `strstr(url, "://")`
unfoldable pub find_authority : CString → Option ℕ
unfolding starts_authority
find_authority [] = none
find_authority (c ∷ s) =
    let rest = find_authority s in if starts_authority (c ∷ s) then some 0 else shifted 1 rest

unfoldable pub skip_scheme : CString → CString
unfolding find_authority
skip_scheme url = elim (find_authority url) [ some i ↦ drop (i + 3) url | none ↦ url ]

unfoldable pub skip_user : CString → CString
unfolding strchr
skip_user url = elim (strchr b'@' url) [ some i ↦ drop (i + 1) url | none ↦ url ]

unfoldable pub host_length : CString → ℕ
unfolding strchr
host_length url =
    let slash = or_else (strchr b'/' url) (strchr b';' url) in
    let colon = strchr b':' url in
    elim slash [
      | some s ↦ elim colon [ some c ↦ if ltb c s then c else s | none ↦ s ]
      | none ↦ elim colon [ some c ↦ c | none ↦ length url ]
    ]

unfoldable pub get_host_from_url : CString → CString
unfolding skip_scheme skip_user host_length
get_host_from_url url = let rest = skip_user (skip_scheme url) in take (host_length rest) rest

no_authority : (c : ℕ) (s : CString) → (c == b':') ≡ false → starts_authority (c ∷ s) ≡ false
unfolding starts_authority
no_authority c [] h = refl
no_authority c (a ∷ []) h = refl
no_authority c (a ∷ b ∷ s) h = rw h refl

-- Where a text goes on with `://` and its first colon.
abbrev pub authority : CString → CString
authority t = b':' ∷ b'/' ∷ b'/' ∷ t

find_authority-append :
    (s t : CString) → strchr b':' s ≡ none → find_authority (s ++ authority t) ≡ some (length s)
unfolding find_authority strchr starts_authority
find_authority-append [] t h = refl
find_authority-append (c ∷ s) t h = elim (Bool-cases (c == b':')) [
  | inl e ↦ absurd (let impossible : some 0 ≡ none = sym (rw e refl) ∙ h in cc)
  | inr ne ↦
      let rest : shifted 1 (strchr b':' s) ≡ none = sym (rw ne refl) ∙ h in
      elim (Option-cases (strchr b':' s)) [
        | inr (k, e) ↦ absurd (let impossible : some (1 + k) ≡ none = sym (rw e refl) ∙ rest in cc)
        | inl e ↦
            rw (no_authority c (s ++ authority t) ne, find_authority-append s t e)
              (ap some (omega arith))
      ]
]

skip_scheme-append :
    (scheme t : CString) → strchr b':' scheme ≡ none → skip_scheme (scheme ++ authority t) ≡ t
unfolding skip_scheme
skip_scheme-append scheme t h =
    let whole : length (scheme ++ authority []) ≡ length scheme + 3 =
      length-append scheme (authority []) in
    rw (skip_scheme, find_authority-append scheme t h)
      (ap (drop (length scheme + 3)) (sym (append_assoc scheme (authority []) t))
        ∙ drop-append (scheme ++ authority []) t (length scheme + 3) (sym whole))

skip_user-append : (user t : CString) → strchr b'@' user ≡ none → skip_user (user ++ (b'@' ∷ t)) ≡ t
unfolding skip_user strchr
skip_user-append user t h =
    let at : strchr b'@' (user ++ (b'@' ∷ t)) ≡ some (length user + 0) =
      strchr-append b'@' user (b'@' ∷ t) h in
    let end : length user + 0 + 1 ≡ length user + 1 = omega arith in
    rw (skip_user, at) (ap (λ (n : ℕ). drop n (user ++ (b'@' ∷ t))) end ∙ past_mark b'@' user t)

host_length-append :
    (host path : CString)
    → strchr b':' host ≡ none
    → strchr b'/' host ≡ none
    → host_length (host ++ (b'/' ∷ path)) ≡ length host
unfolding host_length strchr
host_length-append host path no_colon no_slash =
    let slash : strchr b'/' (host ++ (b'/' ∷ path)) ≡ some (length host + 0) =
      strchr-append b'/' host (b'/' ∷ path) no_slash in
    let colon = strchr-append b':' host (b'/' ∷ path) no_colon in
    elim (Option-cases (strchr b':' path)) [
      | inl e ↦
          let colon_none : strchr b':' (host ++ (b'/' ∷ path)) ≡ none = colon ∙ rw e refl in
          rw (host_length, slash, colon_none) (omega arith)
      | inr (k, e) ↦
          let far : strchr b':' (host ++ (b'/' ∷ path)) ≡ some (length host + (1 + k)) =
            colon ∙ rw e refl in
          rw (host_length, slash, far)
            (rw (le→ltb (length host + (1 + k)) (length host + 0) (omega arith)) (omega arith))
    ]

-- From scheme://user@host/path, with no colon in the scheme, no at-sign in the user's part and
-- neither colon nor slash in the host, whatever the path, `get_host_from_url` takes the host.
pub get_host_from_url_lem :
    (scheme user host path : CString)
    → strchr b':' scheme ≡ none
    → strchr b'@' user ≡ none
    → strchr b':' host ≡ none
    → strchr b'/' host ≡ none
    → get_host_from_url (scheme ++ authority (user ++ (b'@' ∷ (host ++ (b'/' ∷ path))))) ≡ host
unfolding get_host_from_url
get_host_from_url_lem scheme user host path h₁ h₂ h₃ h₄ =
    let rest = host ++ (b'/' ∷ path) in
    let skipped : skip_user (skip_scheme (scheme ++ authority (user ++ (b'@' ∷ rest)))) ≡ rest =
      ap skip_user (skip_scheme-append scheme (user ++ (b'@' ∷ rest)) h₁)
      ∙ skip_user-append user rest h₂ in
    ap (λ (t : CString). take (host_length t) t) skipped
    ∙ take-append host (b'/' ∷ path) (host_length rest) (host_length-append host path h₃ h₄)
