-- ===== src/Linked/Holds.antt =====
-- What a list in memory holds: the data in the order of its nodes.
use broncho_mms.Linked.Calls.{MmsList}
use broncho_mms.Linked.Nodes.{Nodes, ListNode, node_at, node_at_null}
use broncho_mms.Base.{
  ◌∷◌, [], Option, List, ℕ, ◌≡◌, some, ◌==◌, false, length, ◌≤◌, sym, none, ◌∙◌, suc, zero, arith,
  ◌∷◌, [],
}
use broncho_mms.Linked.Segments.{Seg, first, last, Distinct}

pub record Holds {D : Type 0} (l : MmsList D) (xs : List D) : Type 0 where
  pub places : List ℕ
  pub seg : Seg l.nodes 0 places xs 0
  pub head_is : l.head ≡ first places 0
  pub tail_is : l.tail ≡ last 0 places
  pub distinct : Distinct places
  pub few : length places ≤ length l.nodes

-- The outcome of a call that may have run into undefined behaviour: it returned `r`, and the list
-- holds `xs` now.
pub record Leaves {D : Type 0} {R : Type 0} (m : Option (R × MmsList D)) (r : R) (xs : List D)
    : Type 0 where
  pub after : MmsList D
  pub runs : m ≡ some (r, after)
  pub holds : Holds after xs

null_none : {A : Type 0} {a : A} → none ≡ some a → ⊥
null_none h = cc

-- A node of a run is not at NULL.
pub place_ne_null :
    {D : Type 0} (nodes : Nodes D) (p : ℕ) {n : ListNode D}
    → node_at nodes p ≡ some n
    → (p == 0) ≡ false
place_ne_null nodes zero h = absurd (null_none (sym (node_at_null nodes) ∙ h))
place_ne_null nodes (suc p) h = ground arith

pub last_ne_null :
    {D : Type 0} (nodes : Nodes D) (b p : ℕ) (ps : List ℕ) (xs : List D) (after : ℕ)
    → Seg nodes b (p ∷ ps) xs after
    → (last p ps == 0) ≡ false
last_ne_null nodes b p ps [] after h = absurd h
last_ne_null nodes b p [] (x ∷ xs) after h = place_ne_null nodes p h.0
last_ne_null nodes b p (q ∷ ps) (x ∷ xs) after h = last_ne_null nodes p q ps xs after h.1
