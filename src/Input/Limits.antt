-- ===== src/Input/Limits.antt =====
-- The stack of limits of the input buffer: `pop_limit` takes back what `push_limit` did.
use broncho_mms.Base.{
  ℕ, ◌+◌, ◌-◌, ◌≤◌, ◌<◌, ◌≡◌, ap, ◌∙◌, ◌⊎◌, inl, inr, some, arith, length, [], ◌∷◌, List, get_elem?,
  ltb, le→leb, true, lt→ltb, le→ltb, sym, take,
}
use broncho_mms.Memory.Laws.{
  written, length-written, get_elem?-written_at, store_at_inside, get_elem?-written_before,
  take-written_before,
}
use broncho_mms.Output.State.{result_ok}
use broncho_mms.Input.State.{
  InputBuffer, input_buffer_pop_limit, max_limits, input_buffer_push_limit, uncover_limit,
}

-- The limit in force is the topmost one pushed, or else the length of the message.
pub record IsLimited (i : InputBuffer) : Type 0 where
  pub few : i.limit_nr ≤ max_limits
  pub slots : length i.limits ≡ 9
  pub bound : i.limit ≤ i.length
  pub top :
      (i.limit_nr ≡ 0) × (i.limit ≡ i.length)
      ⊎ (0 < i.limit_nr) × (get_elem? i.limits (i.limit_nr - 1) ≡ some i.limit)

abbrev pub pushed : InputBuffer → ℕ → InputBuffer
pushed i limit = record i {
  limit = limit;
  limits = written i.limits i.limit_nr (limit ∷ []);
  limit_nr = i.limit_nr + 1;
}

module _ (i : InputBuffer) (l : IsLimited i) (limit : ℕ) (fits : limit ≤ i.length)
    (free : i.limit_nr < max_limits) where
  pub push_limit-pushed : input_buffer_push_limit limit i ≡ some (result_ok, pushed i limit)
  unfolding input_buffer_push_limit
  push_limit-pushed = rw (
    le→leb limit i.length fits,
    lt→ltb i.limit_nr max_limits free,
    store_at_inside i.limits i.limit_nr limit (omega (arith, l.slots)),
  )

  pub pushed-IsLimited : IsLimited (pushed i limit)
  pushed-IsLimited =
      let e : i.limit_nr + 1 - 1 ≡ i.limit_nr = omega arith in
      record {
        few = omega arith;
        slots = length-written i.limits i.limit_nr (limit ∷ []) (omega (arith, l.slots)) ∙ l.slots;
        bound = fits;
        top = inr (
          omega arith,
          ap (get_elem? (written i.limits i.limit_nr (limit ∷ []))) e
              ∙ get_elem?-written_at i.limits i.limit_nr limit (omega (arith, l.slots)),
        );
      }

-- The first `nr` slots of two arrays are the same.
abbrev pub SameBelow : ℕ → List ℕ → List ℕ → Type 0
SameBelow nr old new = take nr new ≡ take nr old

-- The pop restores the limit and the count of limits, and leaves the rest; the slots of the limits
-- that are pushed are as they were.
abbrev pub Popped : InputBuffer → ℕ → InputBuffer → Type 0
Popped i offset j =
    (limits : List ℕ) × (input_buffer_pop_limit j
      ≡ some (result_ok, record i { offset = offset; limits = limits }))
    × IsLimited (record i { offset = offset; limits = limits })
    × SameBelow i.limit_nr i.limits limits

-- The pop, from the state that the push leaves.
pub pop_limit-pushed :
    (i : InputBuffer) (limit offset : ℕ)
    → IsLimited i
    → limit ≤ i.length
    → i.limit_nr < max_limits
    → Popped i offset (record (pushed i limit) { offset = offset })
unfolding input_buffer_pop_limit uncover_limit
pop_limit-pushed i limit offset l fits free =
    let e : i.limit_nr + 1 - 1 ≡ i.limit_nr = omega arith in
    let some_pushed : ltb 0 (i.limit_nr + 1) ≡ true = lt→ltb 0 (i.limit_nr + 1) (omega arith) in
    let slots = written i.limits i.limit_nr (limit ∷ []) in
    let size : length slots ≡ 9 =
      length-written i.limits i.limit_nr (limit ∷ []) (omega (arith, l.slots)) ∙ l.slots in
    let same : SameBelow i.limit_nr i.limits slots =
      take-written_before i.limits i.limit_nr i.limit_nr (limit ∷ []) (omega arith)
        (omega (arith, l.slots)) in
    elim l.top [
      | inl (empty, all) ↦ (
        slots,
        rw (some_pushed, e, le→ltb 0 i.limit_nr (omega arith))
            (ap (λ t. some (result_ok, record i { offset = offset; limit = t; limits = slots }))
              (sym all)),
        record { few = l.few; slots = size; bound = l.bound; top = inl (empty, all) },
        same,
      )
      | inr (more, under) ↦
          let below : get_elem? slots (i.limit_nr - 1) ≡ some i.limit =
            get_elem?-written_before i.limits (i.limit_nr - 1) i.limit_nr (limit ∷ []) (omega arith)
              (omega (arith, l.slots))
            ∙ under in
          let cleared = written slots i.limit_nr (0 ∷ []) in
          (
            cleared,
            rw (
              some_pushed,
              e,
              lt→ltb 0 i.limit_nr more,
              below,
              store_at_inside slots i.limit_nr 0 (omega (arith, size, l.few)),
            ),
            record {
              few = l.few;
              slots = length-written slots i.limit_nr (0 ∷ []) (omega (arith, size)) ∙ size;
              bound = l.bound;
              top = inr (
                more,
                get_elem?-written_before slots (i.limit_nr - 1) i.limit_nr (0 ∷ []) (omega arith)
                      (omega (arith, size))
                    ∙ below,
              );
            },
            take-written_before slots i.limit_nr i.limit_nr (0 ∷ []) (omega arith)
                  (omega (arith, size))
                ∙ same,
          )
    ]

-- Where the limits are in order, fewer than eight are pushed and the new one is at most the
-- message's length, `push_limit` succeeds, makes it the limit in force and the number of limits
-- one more, and leaves the limits in order; `pop_limit` after that, the cursor having moved,
-- succeeds, restores the limit and their number, and leaves the limits in order. Of the array of
-- limits both keep the slots of the limits pushed before; the rest of the state stays.
pub pop_limit-push_limit :
    (i : InputBuffer) (limit offset : ℕ)
    → IsLimited i
    → limit ≤ i.length
    → i.limit_nr < max_limits
    → (limits : List ℕ) × (input_buffer_push_limit limit i
        ≡ some (result_ok, record i { limit = limit; limits = limits; limit_nr = i.limit_nr + 1 }))
      × IsLimited (record i { limit = limit; limits = limits; limit_nr = i.limit_nr + 1 })
      × SameBelow i.limit_nr i.limits limits
      × Popped i offset
          (record i { offset = offset; limit = limit; limits = limits; limit_nr = i.limit_nr + 1 })
pop_limit-push_limit i limit offset l fits free = (
  written i.limits i.limit_nr (limit ∷ []),
  push_limit-pushed i l limit fits free,
  pushed-IsLimited i l limit fits free,
  take-written_before i.limits i.limit_nr i.limit_nr (limit ∷ []) (omega arith)
      (omega (arith, l.slots)),
  pop_limit-pushed i limit offset l fits free,
)
