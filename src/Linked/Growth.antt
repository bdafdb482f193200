-- ===== src/Linked/Growth.antt =====
-- `mms_list_create`, `mms_list_prepend` and `mms_list_append` of src/mms_list.c, on the data.
use broncho_mms.Base.{
  [], some, suc, ◌∷◌, length, ◌≡◌, length-append, ◌∙◌, arith, ℕ, List, refl, ◌≤◌, ◌++◌, ap, sym,
}
use broncho_mms.Memory.{Allocator, Block}
use broncho_mms.Linked.Calls.{
  list_create, MmsList, link_last, new_node, node_size, new_address, list_append, list_prepend,
  link_first,
}
use broncho_mms.Linked.Nodes.{
  node_at-new, node_at, node_at-set_other, set_node, change-runs, node_at-set_self, length-set_node,
}
use broncho_mms.Linked.Holds.{Holds, Leaves, last_ne_null, place_ne_null}
use broncho_mms.Linked.Segments.{
  Seg, last, Distinct, Seg-new, Seg-relink_last, Seg-grow, linked, NotIn-last, first, Seg-append,
  Seg-frame, last-append, Distinct-join, NotIn-Apart, Seg-relink_first,
}
use broncho_mms.Output.State.{result_ok}

module _ {D : Type 0} (a : Allocator) where
  pub list_create-Holds :
      {b : Block}
      → a.calloc node_size ≡ some b
      → (l : MmsList D) × (list_create a ≡ some l) × Holds l []
  unfolding list_create
  list_create-Holds served = (
    record { nodes = []; head = 0; tail = 0; destroyed = [] },
    rw served,
    record {
      places = [];
      seg = tt;
      head_is = refl;
      tail_is = refl;
      distinct = tt;
      few = omega arith;
    },
  )

  module _ (x : D) (l : MmsList D) where
    room : length (new_node x l.nodes) ≡ suc (length l.nodes)
    room = length-append l.nodes _ ∙ omega arith

    only_node :
        l.tail ≡ 0
        → Leaves (link_last (new_address l.nodes) (new_node x l.nodes) l) result_ok (x ∷ [])
    unfolding link_last
    only_node e =
        let p = new_address l.nodes in
        let l' = record l { nodes = new_node x l.nodes; head = p; tail = p } in
        record {
          after = l';
          runs = simp e;
          holds = record {
            places = p ∷ [];
            seg = (node_at-new l.nodes _, tt);
            head_is = refl;
            tail_is = refl;
            distinct = (tt, tt);
            few = omega (arith, room);
          };
        }

    behind :
        (p : ℕ) (ps : List ℕ) (xs : List D)
        → Seg l.nodes 0 (p ∷ ps) xs 0
        → l.head ≡ p
        → l.tail ≡ last p ps
        → Distinct (p ∷ ps)
        → length (p ∷ ps) ≤ length l.nodes
        → Leaves (link_last (new_address l.nodes) (new_node x l.nodes) l) result_ok (xs ++ (x ∷ []))
    unfolding link_last
    behind p ps xs seg head_is tail_is d few =
        let q = new_address l.nodes in
        let out = Seg-new l.nodes 0 (p ∷ ps) xs 0 seg in
        let (nodes₁, run, seg₁, (n, e)) =
          Seg-relink_last (new_node x l.nodes) 0 p ps xs 0 q d
            (Seg-grow l.nodes _ 0 (p ∷ ps) xs 0 seg) in
        let at_q : node_at nodes₁ q ≡ some (linked 0 0 x) =
          ap (λ t. node_at t q) e
          ∙ node_at-set_other (new_node x l.nodes) (last p ps) q n
              (λ k. NotIn-last q p ps out (sym k))
          ∙ node_at-new l.nodes _ in
        let nodes₂ = set_node q (some (linked (last p ps) 0 x)) nodes₁ in
        record {
          after = record l { nodes = nodes₂; tail = q };
          runs = rw (
            link_last,
            tail_is,
            last_ne_null l.nodes 0 p ps xs 0 seg,
            run,
            change-runs nodes₁ q (λ m. record m { prev = last p ps }) at_q,
          );
          holds = record {
            places = (p ∷ ps) ++ (q ∷ []);
            seg =
                Seg-append nodes₂ 0 (p ∷ ps) (q ∷ []) xs (x ∷ []) 0
                  (Seg-frame nodes₁ q _ 0 (p ∷ ps) xs q out seg₁)
                  (node_at-set_self nodes₁ q _ at_q, tt);
            head_is = head_is;
            tail_is = sym (last-append 0 (p ∷ ps) q []);
            distinct = Distinct-join (p ∷ ps) (q ∷ []) d (tt, tt) (NotIn-Apart q (p ∷ ps) out);
            few = omega (
              arith,
              few,
              room,
              length-append ps (q ∷ []),
              length-set_node q (some (linked (last p ps) 0 x)) nodes₁,
              ap length e,
              length-set_node (last p ps) n (new_node x l.nodes),
            );
          };
        }

    append-places :
        (ps : List ℕ) (xs : List D)
        → Seg l.nodes 0 ps xs 0
        → l.head ≡ first ps 0
        → l.tail ≡ last 0 ps
        → Distinct ps
        → length ps ≤ length l.nodes
        → Leaves (link_last (new_address l.nodes) (new_node x l.nodes) l) result_ok (xs ++ (x ∷ []))
    append-places [] [] seg h e d few = only_node e
    append-places [] (y ∷ xs) seg h e d few = absurd seg
    append-places (p ∷ ps) xs seg h e d few = behind p ps xs seg h e d few

    -- On a list in memory that holds some data, with memory for a node, `mms_list_append` returns
    -- MMS_RESULT_OK and a list that holds the datum behind them.
    pub list_append-Holds :
        {b : Block} {xs : List D}
        → a.calloc node_size ≡ some b
        → Holds l xs
        → Leaves (list_append a x l) result_ok (xs ++ (x ∷ []))
    unfolding list_append link_last
    list_append-Holds {b} {xs} served h =
        let r = append-places h.places xs h.seg h.head_is h.tail_is h.distinct h.few in
        record { after = r.after; runs = rw (list_append, served) r.runs; holds = r.holds }

    -- The list had no node: both ends are the new one.
    only_first :
        l.head ≡ 0
        → Leaves (link_first (new_address l.nodes) (new_node x l.nodes) l) result_ok (x ∷ [])
    unfolding link_first
    only_first e =
        let p = new_address l.nodes in
        let l' = record l { nodes = new_node x l.nodes; head = p; tail = p } in
        record {
          after = l';
          runs = simp e;
          holds = record {
            places = p ∷ [];
            seg = (node_at-new l.nodes _, tt);
            head_is = refl;
            tail_is = refl;
            distinct = (tt, tt);
            few = omega (arith, room);
          };
        }

    in_front :
        (p : ℕ) (ps : List ℕ) (y : D) (xs : List D)
        → Seg l.nodes 0 (p ∷ ps) (y ∷ xs) 0
        → l.head ≡ p
        → l.tail ≡ last p ps
        → Distinct (p ∷ ps)
        → length (p ∷ ps) ≤ length l.nodes
        → Leaves (link_first (new_address l.nodes) (new_node x l.nodes) l) result_ok (x ∷ y ∷ xs)
    unfolding link_first
    in_front p ps y xs seg head_is tail_is d few =
        let q = new_address l.nodes in
        let out = Seg-new l.nodes 0 (p ∷ ps) (y ∷ xs) 0 seg in
        let nodes₁ = set_node q (some (linked 0 p x)) (new_node x l.nodes) in
        let n₂ = some (linked q (first ps 0) y) in
        let (run, seg₂) = Seg-relink_first nodes₁ 0 q p ps y xs 0 d (
          Seg-frame (new_node x l.nodes) q _ 0 (p ∷ ps) (y ∷ xs) 0 out
            (Seg-grow l.nodes _ 0 (p ∷ ps) (y ∷ xs) 0 seg)) in
        record {
          after = record l { nodes = set_node p n₂ nodes₁; head = q };
          runs = rw (
            link_first,
            head_is,
            place_ne_null l.nodes p seg.0,
            change-runs (new_node x l.nodes) q (λ m. record m { next = p }) (node_at-new l.nodes _),
            run,
          );
          holds = record {
            places = q ∷ p ∷ ps;
            seg = (
              node_at-set_other nodes₁ p q n₂ (λ k. out.0 (sym k))
                  ∙ node_at-set_self (new_node x l.nodes) q _ (node_at-new l.nodes _),
              seg₂,
            );
            head_is = refl;
            tail_is = tail_is;
            distinct = (out, d);
            few = omega (
              arith,
              few,
              room,
              length-set_node q (some (linked 0 p x)) (new_node x l.nodes),
              length-set_node p n₂ nodes₁,
            );
          };
        }

    prepend-places :
        (ps : List ℕ) (xs : List D)
        → Seg l.nodes 0 ps xs 0
        → l.head ≡ first ps 0
        → l.tail ≡ last 0 ps
        → Distinct ps
        → length ps ≤ length l.nodes
        → Leaves (link_first (new_address l.nodes) (new_node x l.nodes) l) result_ok (x ∷ xs)
    prepend-places [] [] seg h e d few = only_first h
    prepend-places [] (y ∷ xs) seg h e d few = absurd seg
    prepend-places (p ∷ ps) [] seg h e d few = absurd seg
    prepend-places (p ∷ ps) (y ∷ xs) seg h e d few = in_front p ps y xs seg h e d few

    -- On a list in memory that holds some data, with memory for a node, `mms_list_prepend` returns
    -- MMS_RESULT_OK and a list that holds the datum before them.
    pub list_prepend-Holds :
        {b : Block} {xs : List D}
        → a.calloc node_size ≡ some b
        → Holds l xs
        → Leaves (list_prepend a x l) result_ok (x ∷ xs)
    unfolding list_prepend link_first
    list_prepend-Holds {b} {xs} served h =
        let r = prepend-places h.places xs h.seg h.head_is h.tail_is h.distinct h.few in
        record { after = r.after; runs = rw (list_prepend, served) r.runs; holds = r.holds }
