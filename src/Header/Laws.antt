-- ===== src/Header/Laws.antt =====
-- What the setters of src/mms_header.c store, the readers find: the two ways of `put_item`.
use broncho_mms.Base.{
  [], ◌∷◌, some, Option, ◌≡◌, false, ◌++◌, ap, and_then, ◌∙◌, true, Bool-cases, ==_iff, append-nil,
  ◌==◌, inl, inr, sym, subst, refl, ◌⊎◌,
}
use broncho_mms.Header.State.{
  Items, find_item, same_name, header_compare_by_name, find_typed, type_code,
}
use broncho_mms.Memory.{Allocator, CString, Block}
use broncho_mms.Items.{MmsDataType, HeaderItem, ItemValue, item_of}
use broncho_mms.Linked.Spec.{find_first}
use broncho_mms.Header.Found.{
  find_first-skip, find_first-at, change_first-at, remove_first-at, Unique-cases, find_first-Absent,
  remove_first-Absent, Place,
}
use broncho_mms.Linked.Calls.{node_size}
use broncho_mms.Header.Names.{
  Unique, Absent, Unique-append, same_name_refl, Unique-instead, type_code_injective,
  same_name_like, Unique-without, Absent-join,
}
use broncho_mms.Header.Setters.{append_item, put_item, erase_item}
use broncho_mms.Header.Codec.{content_type_last}
use broncho_mms.Names.Pairs.{codes}

-- A setter of `name` ran on `old`: the item of that name has the type and a good value, no two names
-- are the same, and every other name is found as before.
pub record Put (m : Option (Option Items)) (name : CString) (t : MmsDataType)
    (Good : ItemValue → Type 0) (old : Items) : Type 0 where
  pub items : Items
  pub runs : m ≡ some (some items)
  pub unique : Unique items
  pub it : HeaderItem
  pub found : find_item name (some items) ≡ some (some it)
  pub typed : it.type ≡ t
  pub good : Good it.value
  pub others :
      (other : CString)
      → same_name name other ≡ false
      → find_item other (some items) ≡ find_item other (some old)

pub find_item-is :
    (name : CString) (items : Items) (r : Option (Option HeaderItem))
    → find_first (header_compare_by_name name) items ≡ some r
    → find_item name (some items) ≡ some (and_then r λ item. item)
unfolding find_item
find_item-is name items r e = rw e

find_item-skip :
    (other : CString) (us : Items) (it : HeaderItem) (vs : Items)
    → same_name it.name other ≡ false
    → find_item other (some (us ++ (some it ∷ vs))) ≡ find_item other (some (us ++ vs))
unfolding find_item
find_item-skip other us it vs e =
    ap (λ r. and_then r λ r. some (and_then r λ item. item)) (find_first-skip other us it vs e)

module _ (a : Allocator) (t : MmsDataType) (store : HeaderItem → Option HeaderItem)
    (fresh : Option (Option HeaderItem)) (name : CString) (Good : ItemValue → Type 0) {b : Block}
    (served : a.calloc node_size ≡ some b)
    (stores : (it : HeaderItem)
      → (v : ItemValue) × (store it ≡ some (record it { value = v })) × Good v)
    (creates : (v : ItemValue) × (fresh ≡ some (some (item_of name t v))) × Good v) where
  -- The item has the type: it is changed in place.
  changed :
      (us : Items) (it : HeaderItem) (vs : Items)
      → Absent name us
      → same_name it.name name ≡ true
      → it.type ≡ t
      → Unique (us ++ (some it ∷ vs))
      → Put
          (put_item a t store fresh name (some (us ++ (some it ∷ vs))))
          name
          t
          Good
          (us ++ (some it ∷ vs))
  unfolding put_item find_typed
  changed us it vs out named typed u =
      let (v, run, good) = stores it in
      let it' = record it { value = v } in
      let at = find_first-at name us it vs out named in
      record {
        items = us ++ (some it' ∷ vs);
        runs = rw (
          put_item,
          find_item-is name _ _ at,
          (==_iff _ _).1 (ap type_code typed),
          change_first-at name store us it it' vs out named run,
        );
        unique = Unique-instead us it it' vs refl u;
        it = it';
        found = find_item-is name _ _ (find_first-at name us it' vs out named);
        typed = typed;
        good = good;
        others = λ other ne.
            let skip = same_name_like it.name name other named ∙ ne in
            find_item-skip other us it' vs skip ∙ sym (find_item-skip other us it vs skip);
      }

  -- The rest without the name, and a new item behind it.
  appended :
      (old rest : Items)
      → put_item a t store fresh name (some old)
        ≡ (and_then fresh λ item. some (append_item a item (some rest)))
      → Unique rest
      → Absent name rest
      → ((other : CString)
          → same_name name other ≡ false
          → find_item other (some rest) ≡ find_item other (some old))
      → Put (put_item a t store fresh name (some old)) name t Good old
  unfolding append_item
  appended old rest run u out same =
      let (v, made, good) = creates in
      let it' = item_of name t v in
      record {
        items = rest ++ (some it' ∷ []);
        runs = run ∙ rw (made, append_item, served);
        unique = Unique-append rest it' u out;
        it = it';
        found = find_item-is name _ _ (find_first-at name rest it' [] out (same_name_refl name));
        typed = refl;
        good = good;
        others = λ other ne.
            find_item-skip other rest it' [] ne
            ∙ ap (λ xs. find_item other (some xs)) (append-nil rest)
            ∙ same other ne;
      }

  -- On items of different names, with memory for a node.
  pub put_item-Put :
      (items : Items)
      → Unique items
      → Put (put_item a t store fresh name (some items)) name t Good items
  unfolding put_item find_typed erase_item
  put_item-Put items u = elim (Unique-cases name items u) [
    | inl out ↦
        appended items items
          (rw (
            put_item,
            find_item-is name _ _ (find_first-Absent name items out),
            remove_first-Absent name items out,
          ))
          u out (λ other ne. refl)
    | inr p ↦
        subst (λ (xs : Items). Put (put_item a t store fresh name (some xs)) name t Good xs)
          (sym p.stands)
          (at_place p.before p.it p.behind p.not_before p.not_behind p.named
            (subst (λ (xs : Items). Unique xs) p.stands u))
  ]
    where
      at_place :
          (us : Items) (it : HeaderItem) (vs : Items)
          → Absent name us
          → Absent name vs
          → same_name it.name name ≡ true
          → Unique (us ++ (some it ∷ vs))
          → Put
              (put_item a t store fresh name (some (us ++ (some it ∷ vs))))
              name
              t
              Good
              (us ++ (some it ∷ vs))
      at_place us it vs out out' named u = elim (Bool-cases (type_code it.type == type_code t)) [
        | inl e ↦ changed us it vs out named (type_code_injective it.type t ((==_iff _ _).0 e)) u
        | inr ne ↦
            appended (us ++ (some it ∷ vs)) (us ++ vs)
              (rw (
                put_item,
                find_item-is name _ _ (find_first-at name us it vs out named),
                ne,
                remove_first-at name us it vs out named,
              ))
              (Unique-without us it vs u) (Absent-join name us vs out out')
              (λ other k.
                sym (find_item-skip other us it vs (same_name_like it.name name other named ∙ k)))
      ]

-- What is left after an erasure.
pub erase_item-Unique :
    (name : CString) (items : Items)
    → Unique items
    → (rest : Items) × (erase_item name (some items) ≡ some (some rest))
      × Unique rest
      × Absent name rest
      × ((other : CString)
          → same_name name other ≡ false
          → find_item other (some rest) ≡ find_item other (some items))
unfolding erase_item
erase_item-Unique name items u = elim (Unique-cases name items u) [
  | inl out ↦ (items, rw (erase_item, remove_first-Absent name items out), u, out, λ other ne. refl)
  | inr p ↦
      let whole = subst (λ (xs : Items). Unique xs) p.stands u in
      (
        p.before ++ p.behind,
        ap (erase_item name) (ap some p.stands)
            ∙ rw (erase_item, remove_first-at name p.before p.it p.behind p.not_before p.named),
        Unique-without p.before p.it p.behind whole,
        Absent-join name p.before p.behind p.not_before p.not_behind,
        λ other ne.
            sym (
              find_item-skip other p.before p.it p.behind
                (same_name_like p.it.name name other p.named ∙ ne))
            ∙ ap (λ xs. find_item other (some xs)) (sym p.stands),
      )
]

-- The items stay as they are where none is Content-Type, and else that one goes behind all others.
pub content_type_last-Unique :
    (a : Allocator) {b : Block} (items : Items)
    → a.calloc node_size ≡ some b
    → Unique items
    → (Absent (codes "Content-Type") items × (content_type_last a (some items) ≡ some (some items)))
      ⊎ ((p : Place (codes "Content-Type") items) × (content_type_last a (some items)
            ≡ some (some ((p.before ++ p.behind) ++ (some p.it ∷ [])))))
unfolding content_type_last append_item
content_type_last-Unique a items served u = elim (Unique-cases (codes "Content-Type") items u) [
  | inl out ↦
      inl (out, rw (content_type_last, remove_first-Absent (codes "Content-Type") items out))
  | inr p ↦ inr (
    p,
    ap (content_type_last a) (ap some p.stands)
        ∙ rw (
          content_type_last,
          remove_first-at (codes "Content-Type") p.before p.it p.behind p.not_before p.named,
          append_item,
          served,
        ),
  )
]
