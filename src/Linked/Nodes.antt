-- ===== src/Linked/Nodes.antt =====
-- Nodes in memory: an address is 0 for NULL, or one more than an index. A node that was freed is
-- `none`, and an access to it is undefined.
use broncho_mms.Base.{
  none, some, [], ◌∷◌, zero, suc, refl, Option, ℕ, ◌≡◌, List, ◌≢◌, and_then, ◌++◌, ◌≤◌, length, ap,
  arith,
}

pub record ListNode (D : Type 0) : Type 0 where
  pub prev : ℕ
  pub next : ℕ
  pub datum : D

abbrev pub Nodes : Type 0 → Type 0
Nodes D = List (Option (ListNode D))

module _ {D : Type 0} where
  abbrev pub node_at : Nodes D → ℕ → Option (ListNode D)
  node_at [] p = none
  node_at (n ∷ nodes) zero = none
  node_at (n ∷ nodes) (suc zero) = n
  node_at (n ∷ nodes) (suc (suc p)) = node_at nodes (suc p)

  abbrev pub set_node : ℕ → Option (ListNode D) → Nodes D → Nodes D
  set_node p n [] = []
  set_node zero n (m ∷ nodes) = m ∷ nodes
  set_node (suc zero) n (m ∷ nodes) = n ∷ nodes
  set_node (suc (suc p)) n (m ∷ nodes) = m ∷ set_node (suc p) n nodes

  -- `p->field = ...`
  unfoldable pub change : ℕ → (ListNode D → ListNode D) → Nodes D → Option (Nodes D)
  change p f nodes = and_then (node_at nodes p) λ n. some (set_node p (some (f n)) nodes)

  pub node_at-set_self :
      (nodes : Nodes D) (p : ℕ) {m : ListNode D} (n : Option (ListNode D))
      → node_at nodes p ≡ some m
      → node_at (set_node p n nodes) p ≡ n
  node_at-set_self [] p n h = absurd (cc)
  node_at-set_self (m ∷ nodes) zero n h = absurd (cc)
  node_at-set_self (m ∷ nodes) (suc zero) n h = refl
  node_at-set_self (m ∷ nodes) (suc (suc p)) n h = node_at-set_self nodes (suc p) n h

  pub node_at-set_other :
      (nodes : Nodes D) (p q : ℕ) (n : Option (ListNode D))
      → p ≢ q
      → node_at (set_node p n nodes) q ≡ node_at nodes q
  node_at-set_other [] p q n ne = refl
  node_at-set_other (m ∷ nodes) zero q n ne = refl
  node_at-set_other (m ∷ nodes) (suc zero) zero n ne = refl
  node_at-set_other (m ∷ nodes) (suc zero) (suc zero) n ne = absurd (ne refl)
  node_at-set_other (m ∷ nodes) (suc zero) (suc (suc q)) n ne = refl
  node_at-set_other (m ∷ nodes) (suc (suc p)) zero n ne = refl
  node_at-set_other (m ∷ nodes) (suc (suc p)) (suc zero) n ne = refl
  node_at-set_other (m ∷ nodes) (suc (suc p)) (suc (suc q)) n ne =
      node_at-set_other nodes (suc p) (suc q) n (λ e. ne (ap suc e))

  -- A new node is behind all others.
  pub node_at-append :
      (nodes : Nodes D) (p : ℕ) {m : ListNode D} (n : Option (ListNode D))
      → node_at nodes p ≡ some m
      → node_at (nodes ++ (n ∷ [])) p ≡ some m
  node_at-append [] p n h = absurd (cc)
  node_at-append (m ∷ nodes) zero n h = absurd (cc)
  node_at-append (m ∷ nodes) (suc zero) n h = h
  node_at-append (m ∷ nodes) (suc (suc p)) n h = node_at-append nodes (suc p) n h

  pub node_at-new :
      (nodes : Nodes D) (n : Option (ListNode D))
      → node_at (nodes ++ (n ∷ [])) (suc (length nodes)) ≡ n
  node_at-new [] n = refl
  node_at-new (m ∷ nodes) n = node_at-new nodes n

  pub node_at-beyond :
      (nodes : Nodes D) (p : ℕ) {m : ListNode D} → node_at nodes p ≡ some m → p ≤ length nodes
  node_at-beyond [] p h = absurd (cc)
  node_at-beyond (m ∷ nodes) zero h = absurd (cc)
  node_at-beyond (m ∷ nodes) (suc zero) h = omega arith
  node_at-beyond (m ∷ nodes) (suc (suc p)) h = omega (arith, node_at-beyond nodes (suc p) h)

  pub node_at_null : (nodes : Nodes D) → node_at nodes 0 ≡ none
  node_at_null [] = refl
  node_at_null (m ∷ nodes) = refl

  pub length-set_node :
      (p : ℕ) (n : Option (ListNode D)) (nodes : Nodes D)
      → length (set_node p n nodes) ≡ length nodes
  length-set_node p n [] = refl
  length-set_node zero n (m ∷ nodes) = refl
  length-set_node (suc zero) n (m ∷ nodes) = refl
  length-set_node (suc (suc p)) n (m ∷ nodes) = ap suc (length-set_node (suc p) n nodes)

  pub change-runs :
      (nodes : Nodes D) (p : ℕ) (f : ListNode D → ListNode D) {m : ListNode D}
      → node_at nodes p ≡ some m
      → change p f nodes ≡ some (set_node p (some (f m)) nodes)
  unfolding change
  change-runs nodes p f h = rw h
