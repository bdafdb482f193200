-- ===== src/Header/GetSet.antt =====
-- The readers and writers of src/mms_header.c against each other.
use broncho_mms.Base.{
  ◌∷◌, none, some, Option, ◌≡◌, false, ==_iff, arith, ap, subst, ◌∙◌, sym, ℕ, Bool, if◌then◌else◌,
  ◌==◌, and_then, length, ◌<◌, ◌^◌, refl, true,
}
use broncho_mms.Output.State.{MmsResult, result_ok}
use broncho_mms.Memory.{Allocator, IsAllocator, CString, Serves, Block, c_string}
use broncho_mms.Header.State.{
  find_typed, MmsHeader, Items, same_name, find_item, read_item, type_code, header_get_string,
  header_get_time, header_get_encoded_string, header_get_long, relative_token, absolute_token,
  header_get_item_type,
}
use broncho_mms.Header.Names.{Unique}
use broncho_mms.Output.Valid.{most_room, most_data}
use broncho_mms.Items.{
  MmsDataType, HeaderItem, create_item, ItemValue, item_of, header_item_size,
  header_item_string_create, header_item_encoded_string_create, header_item_time_create,
  header_item_long_create, type_long_int, long_int, time, type_time, string, type_string,
  encoded_string, type_encoded_string, type_none,
}
use broncho_mms.Header.Setters.{
  header_set_long, header_set_string, header_set_encoded_string, header_set_time, put_item, stored,
  header_erase, erase_item,
}
use broncho_mms.Header.Laws.{Put, put_item-Put, erase_item-Unique, find_item-is}
use broncho_mms.Memory.Laws.{NoNul}
use broncho_mms.HeaderCodec.Kinds.{item_time, item_long_int, item_string, item_encoded_string}
use broncho_mms.Linked.Calls.{node_size}
use broncho_mms.Paths.Copies.{strdup-Copy, strdup}
use broncho_mms.Output.Encode.{int_positive}
use broncho_mms.Header.Found.{find_first-Absent}

-- The header has its list, no item is NULL, and no two have the same name.
pub record IsHeader (h : MmsHeader) : Type 0 where
  pub list : Items
  pub held : h.items ≡ some list
  pub unique : Unique list

-- The call succeeded, the header is well-formed, and the items of other names are as before.
pub record Stored (m : Option (MmsResult × MmsHeader)) (name : CString) (h : MmsHeader)
    : Type 0 where
  pub after : MmsHeader
  pub runs : m ≡ some (result_ok, after)
  pub well_formed : IsHeader after
  pub others :
      (other : CString)
      → same_name name other ≡ false
      → find_item other after.items ≡ find_item other h.items
  pub same_end : after.unpack_end_at_content_type ≡ h.unpack_end_at_content_type

-- What a reader of the item returns.
reads_found :
    {A : Type 0} (t : MmsDataType) (name : CString) (items : Option Items) (it : HeaderItem)
    (missing : A) (f : ItemValue → Option A)
    → find_item name items ≡ some (some it)
    → it.type ≡ t
    → read_item (find_typed t name items) missing f ≡ f it.value
unfolding find_typed
reads_found t name items it missing f e typed =
    rw (find_typed, e, (==_iff (type_code it.type) (type_code t)).1 (ap type_code typed))

module _ {m : Option (Option Items)} {name : CString} {t : MmsDataType} {Good : ItemValue → Type 0}
    {h : MmsHeader} (w : IsHeader h) (p : Put m name t Good w.list) where
  -- What a reader of the name makes of every good value, it returns after the call.
  Put-Stored :
      {A : Type 0} (missing : A) (f : ItemValue → Option A) (r : Option A)
      → ((v : ItemValue) → Good v → f v ≡ r)
      → (s : Stored (stored h m) name h) × (read_item (find_typed t name s.after.items) missing f
          ≡ r)
  Put-Stored missing f r reads = (
    record {
      after = record h { items = some p.items };
      runs = rw p.runs;
      well_formed = record { list = p.items; held = refl; unique = p.unique };
      others = λ other ne. p.others other ne ∙ ap (find_item other) (sym w.held);
      same_end = refl;
    },
    reads_found t name (some p.items) p.it missing f p.found p.typed ∙ reads p.it.value p.good,
  )

module _ (a : Allocator) (serves : Serves a most_room) (h : MmsHeader) (w : IsHeader h)
    (name : CString) where
  put :
      (t : MmsDataType) (store : HeaderItem → Option HeaderItem)
      (fresh : Option (Option HeaderItem)) (Good : ItemValue → Type 0)
      → ((it : HeaderItem) → (v : ItemValue) × (store it ≡ some (record it { value = v })) × Good v)
      → ((v : ItemValue) × (fresh ≡ some (some (item_of name t v))) × Good v)
      → Put (put_item a t store fresh name h.items) name t Good w.list
  put t store fresh Good stores creates =
      subst (λ (xs : Option Items). Put (put_item a t store fresh name xs) name t Good w.list)
        (sym w.held)
        (put_item-Put a t store fresh name Good ((serves.calloc_some node_size (omega arith)).1)
          stores creates w.list w.unique)

  create_served :
      (t : MmsDataType) (v : ItemValue) → create_item a (some name) t v ≡ some (item_of name t v)
  unfolding create_item
  create_served t v = rw ((serves.calloc_some header_item_size (omega arith)).1)

  -- On a header with its list, in which no item is NULL and no two names are the same, with an
  -- allocator that serves every request up to 3 GiB: after `mms_header_set_long`,
  -- `mms_header_get_long` of the name returns the number; the header is still of that form, and
  -- items of other names are found as before.
  pub get_long-set_long :
      (value : ℕ)
      → (s : Stored (header_set_long a (some name) value h) name h) × (header_get_long name s.after
          ≡ some value)
  unfolding header_set_long header_get_long header_item_long_create
  get_long-set_long value =
      let p =
        put type_long_int (λ it. some (record it { value = long_int value }))
          (some (header_item_long_create a (some name) value)) (λ v. v ≡ long_int value)
          (λ it. (long_int value, refl, refl))
          (long_int value, ap some (create_served type_long_int (long_int value)), refl) in
      Put-Stored w p 0 item_long_int (some value) (λ v e. ap item_long_int e)

  -- On a header with its list, in which no item is NULL and no two names are the same, with an
  -- allocator that serves every request up to 3 GiB: after `mms_header_set_time`,
  -- `mms_header_get_time` of the name returns the time and whether it is relative; the header is
  -- still of that form, and items of other names are found as before.
  pub get_time-set_time :
      (is_relative : Bool) (value : ℕ)
      → (s : Stored (header_set_time a (some name) is_relative value h) name h) × (header_get_time
            name s.after
          ≡ some (value, some is_relative))
  unfolding header_set_time header_get_time header_item_time_create
  get_time-set_time is_relative value =
      let v = time (if is_relative then relative_token else absolute_token) value in
      let p =
        put type_time (λ it. some (record it { value = v }))
          (some (
            header_item_time_create a (some name)
              (if is_relative then relative_token else absolute_token) value))
          (λ x. x ≡ v) (λ it. (v, refl, refl)) (v, ap some (create_served type_time v), refl) in
      Put-Stored w p (0, none) read_time (some (value, some is_relative))
        (λ x e. ap read_time e ∙ ap (λ b. some (value, some b)) (token_back is_relative))
    where
      read_time : ItemValue → Option (ℕ × Option Bool)
      read_time x = and_then (item_time x) λ t. some (t.1, some (t.0 == relative_token))

      token_back :
          (b : Bool) → ((if b then relative_token else absolute_token) == relative_token) ≡ b
      token_back true = refl
      token_back false = refl

  module _ (good : IsAllocator a) where
    -- On a header with its list, in which no item is NULL and no two names are the same, with an
    -- allocator that serves every request up to 3 GiB: after `mms_header_set_string` of a text
    -- without NUL that is not empty and below 1 GiB, `mms_header_get_string` of the name returns
    -- that text; the header is still of that form, and items of other names are found as before.
    pub get_string-set_string :
        (c : ℕ) (value : CString)
        → NoNul (c ∷ value)
        → length (c ∷ value) < most_data
        → (s : Stored (header_set_string a (some name) (some (c ∷ value)) h) name h) × ((p : Block)
            × (header_get_string name s.after ≡ some (some p))
            × (c_string p ≡ some (c ∷ value)))
    unfolding header_set_string header_get_string header_item_string_create
    get_string-set_string c value no_nul small =
        let (q, copied, text) = strdup-Copy a good serves (c ∷ value) no_nul small in
        let Good = λ (v : ItemValue). v ≡ string (some q) in
        let p =
          put type_string
            (λ it.
              and_then (strdup a (some (c ∷ value))) λ s. some (record it { value = string s }))
            (header_item_string_create a (some name) (some (c ∷ value))) Good
            (λ it. (string (some q), rw copied, refl))
            (
              string (some q),
              rw (
                header_item_string_create,
                (serves.calloc_some header_item_size (omega arith)).1,
                copied,
              ),
              refl,
            ) in
        let (s, e) = Put-Stored w p none item_string (some (some q)) (λ x e. ap item_string e) in
        (s, (q, e, text))

    -- On a header with its list, in which no item is NULL and no two names are the same, with an
    -- allocator that serves every request up to 3 GiB: after `mms_header_set_encoded_string` of a
    -- text without NUL that is not empty and below 1 GiB, with a character set in 1 .. 2^31 - 1,
    -- `mms_header_get_encoded_string` of the name returns the character set and that text; the
    -- header is still of that form, and items of other names are found as before.
    pub get_encoded_string-set_encoded_string :
        (c : ℕ) (value : CString) (charset : ℕ)
        → NoNul (c ∷ value)
        → length (c ∷ value) < most_data
        → 0 < charset
        → charset < 2 ^ 31
        → (s : Stored (header_set_encoded_string a (some name) (some (c ∷ value)) charset h) name h)
          × ((p : Block) × (header_get_encoded_string name s.after ≡ some (some (charset, some p)))
              × (c_string p ≡ some (c ∷ value)))
    unfolding header_set_encoded_string header_get_encoded_string header_item_encoded_string_create
    get_encoded_string-set_encoded_string c value charset no_nul small pos few =
        let (q, copied, text) = strdup-Copy a good serves (c ∷ value) no_nul small in
        let positive : int_positive charset ≡ true = ground arith in
        let v = encoded_string charset (some q) in
        let p =
          put type_encoded_string
            (λ it.
              and_then (strdup a (some (c ∷ value)))
                λ s. some (record it { value = encoded_string charset s }))
            (header_item_encoded_string_create a (some name) (some (c ∷ value)) charset)
            (λ x. x ≡ v) (λ it. (v, rw copied, refl))
            (
              v,
              rw (
                header_item_encoded_string_create,
                positive,
                (serves.calloc_some header_item_size (omega arith)).1,
                copied,
              ),
              refl,
            ) in
        let read = λ (x : ItemValue). and_then (item_encoded_string x) λ e. some (some e) in
        let (s, e) = Put-Stored w p none read (some (some (charset, some q))) (λ x e. ap read e) in
        (
          record {
            after = s.after;
            runs = rw (header_set_encoded_string, positive) s.runs;
            well_formed = s.well_formed;
            others = s.others;
            same_end = s.same_end;
          },
          (q, e, text),
        )

module _ (h : MmsHeader) (w : IsHeader h) (name : CString) where
  -- On a header with its list, in which no item is NULL and no two names are the same: after
  -- `mms_header_erase`, `mms_header_get_item_type` of the name returns MMS_TYPE_NONE; the header
  -- is still of that form, and items of other names are found as before.
  pub get_item_type-erase :
      (s : Stored (header_erase (some name) h) name h) × (header_get_item_type name s.after
        ≡ some type_none)
  unfolding header_erase header_get_item_type
  get_item_type-erase =
      let (rest, run, u, out, same) = erase_item-Unique name w.list w.unique in
      (
        record {
          after = record h { items = some rest };
          runs = rw (ap (erase_item name) w.held ∙ run);
          well_formed = record { list = rest; held = refl; unique = u };
          others = λ other ne. same other ne ∙ ap (find_item other) (sym w.held);
          same_end = refl;
        },
        rw (header_get_item_type, find_item-is name rest none (find_first-Absent name rest out)),
      )
