-- ===== src/Linked/Calls.antt =====
-- The calls of src/mms_list.c, on the nodes and the two ends. The handle is a live object.
use broncho_mms.Base.{
  none, some, true, false, [], ◌∷◌, zero, suc, Option, ℕ, length, ◌==◌, Bool, if◌then◌else◌,
  and_then, ◌+◌, List, ◌-◌, ◌++◌,
}
use broncho_mms.Linked.Nodes.{change, node_at, ListNode, Nodes, set_node}
use broncho_mms.Memory.{Allocator}
use broncho_mms.Output.State.{MmsResult, result_fail, result_ok}

-- The list, and the data that its `destroy` function was called with, the latest first.
pub record MmsList (D : Type 0) : Type 0 where
  pub nodes : Nodes D
  pub head : ℕ
  pub tail : ℕ
  pub destroyed : List D

-- `sizeof(MmsList)` and `sizeof(ListNode)`: three words.
abbrev pub node_size : ℕ
node_size = 12

module _ {D : Type 0} where
  unfoldable pub list_create : Allocator → Option (MmsList D)
  list_create a =
      and_then (a.calloc node_size)
        λ _. some (record { nodes = []; head = 0; tail = 0; destroyed = [] })

  -- A new node at the end of memory, cleared but for its datum.
  abbrev pub new_node : D → Nodes D → Nodes D
  new_node x nodes = nodes ++ (some (record { prev = 0; next = 0; datum = x }) ∷ [])

  abbrev pub new_address : Nodes D → ℕ
  new_address nodes = suc (length nodes)

  unfoldable pub link_first : ℕ → Nodes D → MmsList D → Option (MmsResult × MmsList D)
  unfolding change
  link_first p nodes l =
      if l.head == 0
      then some (result_ok, record l { nodes = nodes; head = p; tail = p })
      else (and_then (change p (λ n. record n { next = l.head }) nodes) λ nodes₁.
          and_then (change l.head (λ n. record n { prev = p }) nodes₁)
            λ nodes₂. some (result_ok, record l { nodes = nodes₂; head = p }))

  unfoldable pub list_prepend : Allocator → D → MmsList D → Option (MmsResult × MmsList D)
  unfolding link_first
  list_prepend a x l = elim (a.calloc node_size) [
    | none ↦ some (result_fail, l)
    | some _ ↦ link_first (new_address l.nodes) (new_node x l.nodes) l
  ]

  unfoldable pub link_last : ℕ → Nodes D → MmsList D → Option (MmsResult × MmsList D)
  unfolding change
  link_last p nodes l =
      if l.tail == 0
      then some (result_ok, record l { nodes = nodes; head = p; tail = p })
      else (and_then (change l.tail (λ n. record n { next = p }) nodes) λ nodes₁.
          and_then (change p (λ n. record n { prev = l.tail }) nodes₁)
            λ nodes₂. some (result_ok, record l { nodes = nodes₂; tail = p }))

  unfoldable pub list_append : Allocator → D → MmsList D → Option (MmsResult × MmsList D)
  unfolding link_last
  list_append a x l = elim (a.calloc node_size) [
    | none ↦ some (result_fail, l)
    | some _ ↦ link_last (new_address l.nodes) (new_node x l.nodes) l
  ]

  -- The neighbours of `iter` and the ends are linked past it, and it is freed.
  unfoldable pub unlink_before : ListNode D → MmsList D → Option (MmsList D)
  unfolding change
  unlink_before n l =
      if n.prev == 0
      then some (record l { head = n.next })
      else (and_then (change n.prev (λ m. record m { next = n.next }) l.nodes)
          λ nodes. some (record l { nodes = nodes }))

  unfoldable pub unlink_after : ListNode D → MmsList D → Option (MmsList D)
  unfolding change
  unlink_after n l =
      if n.next == 0
      then some (record l { tail = n.prev })
      else (and_then (change n.next (λ m. record m { prev = n.prev }) l.nodes)
          λ nodes. some (record l { nodes = nodes }))

  unfoldable pub unlink : ℕ → ListNode D → MmsList D → Option (MmsList D)
  unfolding unlink_before unlink_after
  unlink p n l =
      and_then (unlink_before n l) λ l₁.
        and_then (unlink_after n l₁) λ l₂. some (record l₂ { nodes = set_node p none l₂.nodes })

  module _ (matches : D → Option Bool) where
    -- The loop on fuel. Where `keep` is false, no `ret_data` is given and the datum is destroyed.
    unfoldable pub remove_from :
        ℕ → Bool → ℕ → MmsList D → Option ((MmsResult × Option D) × MmsList D)
    unfolding unlink
    remove_from zero keep iter l = none
    remove_from (suc fuel) keep iter l = elim (iter == 0) [
      | true ↦ some ((result_fail, none), l)
      | false ↦ and_then (node_at l.nodes iter) λ n. and_then (matches n.datum) λ b. elim b [
        | true ↦
            let l₁ = if keep then l else record l { destroyed = n.datum ∷ l.destroyed } in
            and_then (unlink iter n l₁) λ l₂. some ((result_ok, some n.datum), l₂)
        | false ↦ elim (iter == l.tail) [
          | true ↦ some ((result_fail, none), l)
          | false ↦ remove_from fuel keep n.next l
        ]
      ]
    ]

    -- No list has more nodes than memory.
    unfoldable pub list_remove : MmsList D → Option ((MmsResult × Option D) × MmsList D)
    unfolding remove_from
    list_remove l = remove_from (suc (length l.nodes)) true l.head l

    unfoldable pub list_erase : MmsList D → Option (MmsResult × MmsList D)
    unfolding remove_from
    list_erase l =
        and_then (remove_from (suc (length l.nodes)) false l.head l) λ r. some (r.0.0, r.1)

    unfoldable pub find_from : ℕ → ℕ → MmsList D → Option (Option D)
    find_from zero iter l = none
    find_from (suc fuel) iter l = elim (iter == 0) [
      | true ↦ some none
      | false ↦ and_then (node_at l.nodes iter) λ n. and_then (matches n.datum) λ b. elim b [
        | true ↦ some (some n.datum)
        | false ↦ elim (iter == l.tail) [ true ↦ some none | false ↦ find_from fuel n.next l ]
      ]
    ]

    unfoldable pub list_find : MmsList D → Option (Option D)
    unfolding find_from
    list_find l = find_from (suc (length l.nodes)) l.head l

  unfoldable pub length_from : ℕ → ℕ → ℕ → MmsList D → Option ℕ
  length_from zero count iter l = none
  length_from (suc fuel) count iter l = elim (iter == 0) [
    | true ↦ some count
    | false ↦ elim (iter == l.tail) [
      | true ↦ some (count + 1)
      | false ↦ and_then (node_at l.nodes iter) λ n. length_from fuel (count + 1) n.next l
    ]
  ]

  unfoldable pub list_length : MmsList D → Option ℕ
  unfolding length_from
  list_length l = length_from (suc (length l.nodes)) 0 l.head l

  unfoldable pub nth_from : ℕ → ℕ → ℕ → MmsList D → Option (Option D)
  nth_from zero left iter l = none
  nth_from (suc fuel) left iter l = elim (iter == 0) [
    | true ↦ some none
    | false ↦ and_then (node_at l.nodes iter) λ n. elim (left == 0) [
      | true ↦ some (some n.datum)
      | false ↦ elim (iter == l.tail) [
        | true ↦ some none
        | false ↦ nth_from fuel (left - 1) n.next l
      ]
    ]
  ]

  unfoldable pub list_nth : ℕ → MmsList D → Option (Option D)
  unfolding nth_from
  list_nth index l = nth_from (suc (length l.nodes)) index l.head l

  unfoldable pub list_first : MmsList D → Option (Option D)
  list_first l =
      if l.head == 0 then some none else and_then (node_at l.nodes l.head) λ n. some (some n.datum)

  unfoldable pub list_last : MmsList D → Option (Option D)
  list_last l =
      if l.tail == 0 then some none else and_then (node_at l.nodes l.tail) λ n. some (some n.datum)

  module _ {S : Type 0} (visit : D → S → Option (MmsResult × S)) where
    -- The visitor changes the state `S` of the caller; it leaves the list alone.
    unfoldable pub foreach_from : ℕ → ℕ → MmsList D → S → Option S
    foreach_from zero iter l s = none
    foreach_from (suc fuel) iter l s = elim (iter == 0) [
      | true ↦ some s
      | false ↦ and_then (node_at l.nodes iter) λ n. and_then (visit n.datum s) λ r. elim r.0 [
        | result_ok ↦ elim (iter == l.tail) [
          | true ↦ some r.1
          | false ↦ foreach_from fuel n.next l r.1
        ]
        | _ ↦ some r.1
      ]
    ]

    unfoldable pub list_foreach : MmsList D → S → Option S
    unfolding foreach_from
    list_foreach l s = foreach_from (suc (length l.nodes)) l.head l s

  -- `while(head != NULL)`: every node is destroyed and freed, from the head.
  unfoldable pub destroy_from : ℕ → MmsList D → Option (MmsList D)
  destroy_from zero l = none
  destroy_from (suc fuel) l = elim (l.head == 0) [
    | true ↦ some (record l { head = 0; tail = 0 })
    | false ↦ and_then (node_at l.nodes l.head) λ n. destroy_from fuel (record l {
      head = n.next;
      destroyed = n.datum ∷ l.destroyed;
      nodes = set_node l.head none l.nodes;
    })
  ]

  unfoldable pub list_destroy : MmsList D → Option (MmsList D)
  unfolding destroy_from
  list_destroy l = destroy_from (suc (length l.nodes)) l
