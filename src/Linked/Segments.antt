-- ===== src/Linked/Segments.antt =====
-- Runs of linked nodes, and what writes to single nodes do to them.
use broncho_mms.Base.{
  some, [], ◌∷◌, suc, refl, ℕ, List, ◌≢◌, sym, ◌++◌, ◌≡◌, Option, length, ◌∙◌, ap, arith,
}
use broncho_mms.Linked.Nodes.{
  ListNode, change, Nodes, node_at, set_node, node_at-set_other, node_at-append, node_at-set_self,
  node_at-beyond,
}

-- The address that follows a run, and the one that ends it.
abbrev pub first : List ℕ → ℕ → ℕ
first [] after = after
first (p ∷ ps) after = p

abbrev pub last : ℕ → List ℕ → ℕ
last before [] = before
last before (p ∷ ps) = last p ps

abbrev pub NotIn : ℕ → List ℕ → Type 0
NotIn q [] = Unit {0}
NotIn q (p ∷ ps) = (q ≢ p) × NotIn q ps

abbrev pub Distinct : List ℕ → Type 0
Distinct [] = Unit {0}
Distinct (p ∷ ps) = NotIn p ps × Distinct ps

abbrev pub Apart : List ℕ → List ℕ → Type 0
Apart [] qs = Unit {0}
Apart (p ∷ ps) qs = NotIn p qs × Apart ps qs

pub NotIn-append : (p : ℕ) (ps qs : List ℕ) → NotIn p (ps ++ qs) → NotIn p ps × NotIn p qs
NotIn-append p [] qs h = (tt, h)
NotIn-append p (q ∷ ps) qs h = let r = NotIn-append p ps qs h.1 in ((h.0, r.0), r.1)

pub NotIn-join : (p : ℕ) (ps qs : List ℕ) → NotIn p ps → NotIn p qs → NotIn p (ps ++ qs)
NotIn-join p [] qs h k = k
NotIn-join p (q ∷ ps) qs h k = (h.0, NotIn-join p ps qs h.1 k)

pub Distinct-split :
    (ps qs : List ℕ) → Distinct (ps ++ qs) → Distinct ps × (Distinct qs × Apart ps qs)
Distinct-split [] qs d = (tt, (d, tt))
Distinct-split (p ∷ ps) qs d =
    let r = Distinct-split ps qs d.1 in
    let n = NotIn-append p ps qs d.0 in ((n.0, r.0), (r.1.0, (n.1, r.1.1)))

pub Distinct-join : (ps qs : List ℕ) → Distinct ps → Distinct qs → Apart ps qs → Distinct (ps ++ qs)
Distinct-join [] qs d e f = e
Distinct-join (p ∷ ps) qs d e f = (NotIn-join p ps qs d.0 f.0, Distinct-join ps qs d.1 e f.1)

-- One run apart from another, without the other's first address.
pub Apart-rest : (ps : List ℕ) (q : ℕ) (qs : List ℕ) → Apart ps (q ∷ qs) → Apart ps qs
Apart-rest [] q qs h = tt
Apart-rest (p ∷ ps) q qs h = (h.0.1, Apart-rest ps q qs h.1)

pub Apart-first : (ps : List ℕ) (q : ℕ) (qs : List ℕ) → Apart ps (q ∷ qs) → NotIn q ps
Apart-first [] q qs h = tt
Apart-first (p ∷ ps) q qs h = (λ e. h.0.0 (sym e), Apart-first ps q qs h.1)

pub Apart-last : (p : ℕ) (ps qs : List ℕ) → Apart (p ∷ ps) qs → NotIn (last p ps) qs
Apart-last p [] qs h = h.0
Apart-last p (q ∷ ps) qs h = Apart-last q ps qs h.1

pub NotIn-Apart : (q : ℕ) (ps : List ℕ) → NotIn q ps → Apart ps (q ∷ [])
NotIn-Apart q [] h = tt
NotIn-Apart q (p ∷ ps) h = ((λ e. h.0 (sym e), tt), NotIn-Apart q ps h.1)

pub NotIn-last : (q p : ℕ) (ps : List ℕ) → NotIn q (p ∷ ps) → q ≢ last p ps
NotIn-last q p [] h = h.0
NotIn-last q p (r ∷ ps) h = NotIn-last q r ps h.1

pub last-append : (b : ℕ) (ps : List ℕ) (q : ℕ) (qs : List ℕ) → last b (ps ++ (q ∷ qs)) ≡ last q qs
last-append b [] q qs = refl
last-append b (p ∷ ps) q qs = last-append p ps q qs

pub first-append : (ps qs : List ℕ) (after : ℕ) → first (ps ++ qs) after ≡ first ps (first qs after)
first-append [] qs after = refl
first-append (p ∷ ps) qs after = refl

module _ {D : Type 0} where
  abbrev pub linked : ℕ → ℕ → D → ListNode D
  linked before after x = record { prev = before; next = after; datum = x }

  -- The nodes at `ps` hold the data `xs` and are linked both ways, from behind `before` to `after`.
  abbrev pub Seg : Nodes D → ℕ → List ℕ → List D → ℕ → Type 0
  Seg nodes before [] [] after = Unit {0}
  Seg nodes before [] (x ∷ xs) after = ⊥
  Seg nodes before (p ∷ ps) [] after = ⊥
  Seg nodes before (p ∷ ps) (x ∷ xs) after =
      (node_at nodes p ≡ some (linked before (first ps after) x)) × Seg nodes p ps xs after

  pub Seg-length :
      (nodes : Nodes D) (b : ℕ) (ps : List ℕ) (xs : List D) (after : ℕ)
      → Seg nodes b ps xs after
      → length ps ≡ length xs
  Seg-length nodes b [] [] after h = refl
  Seg-length nodes b [] (x ∷ xs) after h = absurd h
  Seg-length nodes b (p ∷ ps) [] after h = absurd h
  Seg-length nodes b (p ∷ ps) (x ∷ xs) after h = ap suc (Seg-length nodes p ps xs after h.1)

  -- A write to another node leaves the run.
  pub Seg-frame :
      (nodes : Nodes D) (q : ℕ) (n : Option (ListNode D)) (b : ℕ) (ps : List ℕ) (xs : List D)
      (after : ℕ)
      → NotIn q ps
      → Seg nodes b ps xs after
      → Seg (set_node q n nodes) b ps xs after
  Seg-frame nodes q n b [] [] after out h = tt
  Seg-frame nodes q n b [] (x ∷ xs) after out h = absurd h
  Seg-frame nodes q n b (p ∷ ps) [] after out h = absurd h
  Seg-frame nodes q n b (p ∷ ps) (x ∷ xs) after out h =
      (node_at-set_other nodes q p n out.0 ∙ h.0, Seg-frame nodes q n p ps xs after out.1 h.1)

  -- So does a new node.
  pub Seg-grow :
      (nodes : Nodes D) (n : Option (ListNode D)) (b : ℕ) (ps : List ℕ) (xs : List D) (after : ℕ)
      → Seg nodes b ps xs after
      → Seg (nodes ++ (n ∷ [])) b ps xs after
  Seg-grow nodes n b [] [] after h = tt
  Seg-grow nodes n b [] (x ∷ xs) after h = absurd h
  Seg-grow nodes n b (p ∷ ps) [] after h = absurd h
  Seg-grow nodes n b (p ∷ ps) (x ∷ xs) after h =
      (node_at-append nodes p n h.0, Seg-grow nodes n p ps xs after h.1)

  -- No run has a new address in it.
  pub Seg-new :
      (nodes : Nodes D) (b : ℕ) (ps : List ℕ) (xs : List D) (after : ℕ)
      → Seg nodes b ps xs after
      → NotIn (suc (length nodes)) ps
  Seg-new nodes b [] [] after h = tt
  Seg-new nodes b [] (x ∷ xs) after h = absurd h
  Seg-new nodes b (p ∷ ps) [] after h = absurd h
  Seg-new nodes b (p ∷ ps) (x ∷ xs) after h =
      (λ e. absurd (omega (arith, e, node_at-beyond nodes p h.0)), Seg-new nodes p ps xs after h.1)

  pub Seg-append :
      (nodes : Nodes D) (b : ℕ) (ps qs : List ℕ) (xs ys : List D) (after : ℕ)
      → Seg nodes b ps xs (first qs after)
      → Seg nodes (last b ps) qs ys after
      → Seg nodes b (ps ++ qs) (xs ++ ys) after
  Seg-append nodes b [] qs [] ys after h k = k
  Seg-append nodes b [] qs (x ∷ xs) ys after h k = absurd h
  Seg-append nodes b (p ∷ ps) qs [] ys after h k = absurd h
  Seg-append nodes b (p ∷ ps) qs (x ∷ xs) ys after h k = (
    h.0 ∙ ap (λ t. some (linked b t x)) (sym (first-append ps qs after)),
    Seg-append nodes p ps qs xs ys after h.1 k,
  )

  pub Seg-split :
      (nodes : Nodes D) (b : ℕ) (ps qs : List ℕ) (xs ys : List D) (after : ℕ)
      → length ps ≡ length xs
      → Seg nodes b (ps ++ qs) (xs ++ ys) after
      → Seg nodes b ps xs (first qs after) × Seg nodes (last b ps) qs ys after
  Seg-split nodes b [] qs [] ys after e h = (tt, h)
  Seg-split nodes b [] qs (x ∷ xs) ys after e h = absurd (omega (arith, e))
  Seg-split nodes b (p ∷ ps) qs [] ys after e h = absurd (omega (arith, e))
  Seg-split nodes b (p ∷ ps) qs (x ∷ xs) ys after e h =
      let r = Seg-split nodes p ps qs xs ys after (omega (arith, e)) h.1 in
      ((h.0 ∙ ap (λ t. some (linked b t x)) (first-append ps qs after), r.0), r.1)

  -- The last node of a run can be linked to another address.
  pub Seg-relink_last :
      (nodes : Nodes D) (b p : ℕ) (ps : List ℕ) (xs : List D) (after after' : ℕ)
      → Distinct (p ∷ ps)
      → Seg nodes b (p ∷ ps) xs after
      → (nodes' : Nodes D) × (change (last p ps) (λ n. record n { next = after' }) nodes
          ≡ some nodes')
        × Seg nodes' b (p ∷ ps) xs after'
        × ((n : Option (ListNode D)) × (nodes' ≡ set_node (last p ps) n nodes))
  unfolding change
  Seg-relink_last nodes b p ps [] after after' d h = absurd h
  Seg-relink_last nodes b p [] (x ∷ []) after after' d h =
      let n : Option (ListNode D) = some (linked b after' x) in
      (set_node p n nodes, rw h.0, (node_at-set_self nodes p n h.0, tt), (n, refl))
  Seg-relink_last nodes b p [] (x ∷ y ∷ xs) after after' d h = absurd h.1
  Seg-relink_last nodes b p (q ∷ qs) (x ∷ xs) after after' d h =
      let (nodes', run, seg, (n, e)) = Seg-relink_last nodes p q qs xs after after' d.1 h.1 in
      (
        nodes',
        run,
        (
          ap (λ t. node_at t p) e
              ∙ node_at-set_other nodes (last q qs) p n (λ k. NotIn-last p q qs d.0 (sym k))
              ∙ h.0,
          seg,
        ),
        (n, e),
      )

  -- The first node of a run can be linked back to another address.
  pub Seg-relink_first :
      (nodes : Nodes D) (b b' p : ℕ) (ps : List ℕ) (x : D) (xs : List D) (after : ℕ)
      → Distinct (p ∷ ps)
      → Seg nodes b (p ∷ ps) (x ∷ xs) after
      → (change p (λ n. record n { prev = b' }) nodes
          ≡ some (set_node p (some (linked b' (first ps after) x)) nodes))
        × Seg (set_node p (some (linked b' (first ps after) x)) nodes) b' (p ∷ ps) (x ∷ xs) after
  unfolding change
  Seg-relink_first nodes b b' p ps x xs after d h =
      let n : Option (ListNode D) = some (linked b' (first ps after) x) in
      (rw h.0, (node_at-set_self nodes p n h.0, Seg-frame nodes p n p ps xs after d.0 h.1))
