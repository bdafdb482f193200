-- ===== src/Linked/Removal.antt =====
-- `mms_list_remove` and `mms_list_erase` of src/mms_list.c, on the data. The node found is taken
-- out of the run: first the nodes before it are linked past it, then those behind it, then it is
-- freed.
use broncho_mms.Base.{
  [], none, some, ◌∷◌, Option, ◌≡◌, ℕ, List, length, ◌++◌, ap, sym, append-nil, ◌∙◌, subst, refl,
  ◌≤◌, arith, length-append,
}
use broncho_mms.Linked.Calls.{MmsList, unlink_before, unlink_after, unlink}
use broncho_mms.Linked.Segments.{
  Distinct, Seg, first, last, linked, Distinct-split, Seg-relink_last, Apart-last, Apart-rest,
  Seg-relink_first, Seg-frame, Apart-first, last-append, NotIn, Seg-append, Distinct-join,
}
use broncho_mms.Linked.Holds.{last_ne_null, place_ne_null, Holds}
use broncho_mms.Linked.Nodes.{set_node, length-set_node}

module _ {D : Type 0} where
  -- The nodes before and behind the one to be removed.
  record Sides (l : MmsList D) (qs : List ℕ) (ys : List D) (b : ℕ) (ps : List ℕ) (xs : List D)
      : Type 0 where
    front : Seg l.nodes 0 qs ys (first ps 0)
    back : Seg l.nodes b ps xs 0
    head_is : l.head ≡ first (qs ++ ps) 0

  -- A stage of the removal: it succeeds and keeps the size of memory and what was destroyed.
  record Stage (m : Option (MmsList D)) (l : MmsList D) : Type 0 where
    after : MmsList D
    runs : m ≡ some after
    size : length after.nodes ≡ length l.nodes
    same : after.destroyed ≡ l.destroyed

  module _ (l : MmsList D) (p : ℕ) (ps : List ℕ) (x : D) (xs : List D) where
    cut_before :
        (qs : List ℕ) (ys : List D)
        → Seg l.nodes 0 qs ys p
        → Seg l.nodes (last 0 qs) (p ∷ ps) (x ∷ xs) 0
        → Distinct (qs ++ (p ∷ ps))
        → l.head ≡ first (qs ++ (p ∷ ps)) 0
        → (s : Stage (unlink_before (linked (last 0 qs) (first ps 0) x) l) l) × Sides s.after qs ys
            p ps xs
          × (s.after.tail ≡ l.tail)
    unfolding unlink_before
    cut_before [] [] front back d head_is = (
      record { after = record l { head = first ps 0 }; runs = refl; size = refl; same = refl },
      record { front = tt; back = back.1; head_is = refl },
      refl,
    )
    cut_before [] (y ∷ ys) front back d head_is = absurd front
    cut_before (q ∷ qs) ys front back d head_is =
        let (dq, (dp, apart)) = Distinct-split (q ∷ qs) (p ∷ ps) d in
        let (nodes₁, run, seg₁, (n, e)) =
          Seg-relink_last l.nodes 0 q qs ys p (first ps 0) dq front in
        let out = Apart-last q qs ps (Apart-rest (q ∷ qs) p ps apart) in
        (
          record {
            after = record l { nodes = nodes₁ };
            runs = rw (unlink_before, last_ne_null l.nodes 0 q qs ys p front, run);
            size = ap length e ∙ length-set_node (last q qs) n l.nodes;
            same = refl;
          },
          record {
            front = seg₁;
            back =
                subst (λ t. Seg t p ps xs 0) (sym e)
                  (Seg-frame l.nodes (last q qs) n p ps xs 0 out back.1);
            head_is = head_is;
          },
          refl,
        )

    cut_behind :
        (l₁ : MmsList D) (qs rs : List ℕ) (ys us : List D)
        → Sides l₁ qs ys p rs us
        → Distinct (qs ++ rs)
        → l₁.tail ≡ last p rs
        → (s : Stage (unlink_after (linked (last 0 qs) (first rs 0) x) l₁) l₁) × Sides s.after qs ys
            (last 0 qs)
            rs
            us
          × (s.after.tail ≡ last 0 (qs ++ rs))
    unfolding unlink_after
    cut_behind l₁ qs [] ys [] c d tail_is = (
      record { after = record l₁ { tail = last 0 qs }; runs = refl; size = refl; same = refl },
      record { front = c.front; back = tt; head_is = c.head_is },
      ap (last 0) (sym (append-nil qs)),
    )
    cut_behind l₁ qs [] ys (u ∷ us) c d tail_is = absurd c.back
    cut_behind l₁ qs (r ∷ rs) ys [] c d tail_is = absurd c.back
    cut_behind l₁ qs (r ∷ rs) ys (u ∷ us) c d tail_is =
        let (dq, (dr, apart)) = Distinct-split qs (r ∷ rs) d in
        let (run, seg₂) = Seg-relink_first l₁.nodes p (last 0 qs) r rs u us 0 dr c.back in
        let n = some (linked (last 0 qs) (first rs 0) u) in
        (
          record {
            after = record l₁ { nodes = set_node r n l₁.nodes };
            runs = rw (unlink_after, place_ne_null l₁.nodes r c.back.0, run);
            size = length-set_node r n l₁.nodes;
            same = refl;
          },
          record {
            front = Seg-frame l₁.nodes r n 0 qs ys r (Apart-first qs r rs apart) c.front;
            back = seg₂;
            head_is = c.head_is;
          },
          tail_is ∙ sym (last-append 0 qs r rs),
        )

    free_node :
        (l₂ : MmsList D) (qs : List ℕ) (ys : List D)
        → Sides l₂ qs ys (last 0 qs) ps xs
        → l₂.tail ≡ last 0 (qs ++ ps)
        → Distinct (qs ++ ps)
        → NotIn p qs
        → NotIn p ps
        → length (qs ++ ps) ≤ length l₂.nodes
        → Holds (record l₂ { nodes = set_node p none l₂.nodes }) (ys ++ xs)
    free_node l₂ qs ys c tail_is d out out' few = record {
      places = qs ++ ps;
      seg =
          Seg-append (set_node p none l₂.nodes) 0 qs ps ys xs 0
            (Seg-frame l₂.nodes p none 0 qs ys (first ps 0) out c.front)
            (Seg-frame l₂.nodes p none (last 0 qs) ps xs 0 out' c.back);
      head_is = c.head_is;
      tail_is = tail_is;
      distinct = d;
      few = omega (arith, few, length-set_node p none l₂.nodes);
    }

    -- The list without the node, and what it destroyed so far.
    pub unlink-Holds :
        (qs : List ℕ) (ys : List D)
        → Seg l.nodes 0 qs ys p
        → Seg l.nodes (last 0 qs) (p ∷ ps) (x ∷ xs) 0
        → Distinct (qs ++ (p ∷ ps))
        → l.head ≡ first (qs ++ (p ∷ ps)) 0
        → l.tail ≡ last p ps
        → length (qs ++ (p ∷ ps)) ≤ length l.nodes
        → (l' : MmsList D) × (unlink p (linked (last 0 qs) (first ps 0) x) l ≡ some l')
          × Holds l' (ys ++ xs)
          × (l'.destroyed ≡ l.destroyed)
    unfolding unlink
    unlink-Holds qs ys front back d head_is tail_is few =
        let (dq, (dp, apart)) = Distinct-split qs (p ∷ ps) d in
        let rest = Distinct-join qs ps dq dp.1 (Apart-rest qs p ps apart) in
        let (s₁, c₁, t₁) = cut_before qs ys front back d head_is in
        let (s₂, c₂, t₂) = cut_behind s₁.after qs ps ys xs c₁ rest (t₁ ∙ tail_is) in
        let size₁ = s₁.size in
        let size₂ = s₂.size in
        (
          record s₂.after { nodes = set_node p none s₂.after.nodes },
          rw (unlink, s₁.runs, s₂.runs),
          free_node s₂.after qs ys c₂ t₂ rest (Apart-first qs p ps apart) dp.0
              (omega (arith, few, size₁, size₂, length-append qs (p ∷ ps), length-append qs ps)),
          s₂.same ∙ s₁.same,
        )
