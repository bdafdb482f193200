-- ===== src/Tests/Given.antt =====
-- An allocator that hands out cleared memory, and small buffers.
use broncho_mms.Base.{
  refl, [], ◌∷◌, some, ℕ, List, length, ◌≡◌, ◌<◌, ◌^◌, replicate, arith, ◌++◌, sym, take, ◌≤◌, inl,
  ◌+◌, ◌-◌, ap, ◌∙◌, length-append, lt-cases, length-replicate, take-append_le, length-take,
  take-take, inr, take_all,
}
use broncho_mms.Memory.{Allocator, Serves, IsAllocator, Block}
use broncho_mms.Input.Total.{IsInside}
use broncho_mms.Output.Valid.{IsValid, contents}
use broncho_mms.Input.Limits.{IsLimited}
use broncho_mms.Output.State.{OutputBuffer}
use broncho_mms.Input.State.{InputBuffer}
use broncho_mms.Output.Log.{Implements}

abbrev pub supply : Allocator
supply = record {
  malloc = λ n. some (replicate n 0);
  calloc = λ n. some (replicate n 0);
  realloc = λ old n. some (take n old ++ replicate (n - length old) 0);
}

some_inj : {A : Type 0} {x y : A} → some x ≡ some y → x ≡ y
some_inj e = cc

realloc_length : (old : Block) (n : ℕ) → length (take n old ++ replicate (n - length old) 0) ≡ n
realloc_length old n =
    let whole = length-append (take n old) (replicate (n - length old) 0) in
    let fill = length-replicate {A = ℕ} (n - length old) 0 in
    elim (lt-cases n (length old)) [
      | inl cut ↦ omega (arith, whole, fill, length-take n old (omega arith))
      | inr grown ↦ omega (arith, whole, fill, ap length (take_all n old grown))
    ]

realloc_prefix :
    (old : Block) (n k : ℕ)
    → k ≤ length old
    → k ≤ n
    → take k (take n old ++ replicate (n - length old) 0) ≡ take k old
realloc_prefix old n k inside le = elim (lt-cases n (length old)) [
  | inl cut ↦
      take-append_le k (take n old) (replicate (n - length old) 0)
        (omega (arith, length-take n old (omega arith)))
      ∙ take-take k n old le
  | inr grown ↦
      take-append_le k (take n old) (replicate (n - length old) 0)
        (omega (arith, ap length (take_all n old grown)))
      ∙ take-take k n old le
]

pub supply-IsAllocator : IsAllocator supply
supply-IsAllocator = record {
  malloc_size = λ n b e. sym (ap length (some_inj e)) ∙ length-replicate n 0;
  realloc_size = λ old n b e. sym (ap length (some_inj e)) ∙ realloc_length old n;
  realloc_keeps =
      λ old n k b e inside le. sym (ap (take k) (some_inj e)) ∙ realloc_prefix old n k inside le;
}

pub supply-Serves : (most : ℕ) → Serves supply most
supply-Serves most = record {
  malloc_some = λ n h. (replicate n 0, refl);
  calloc_some = λ n h. (replicate n 0, refl);
  realloc_some = λ old n h. (take n old ++ replicate (n - length old) 0, refl);
}

-- A buffer with `bytes` in it and `room` bytes behind them.
abbrev pub buffer_of : List ℕ → ℕ → OutputBuffer
buffer_of bytes room = record {
  buffer = some (bytes ++ replicate room 0);
  data_length = length bytes;
  length = length bytes + room;
  transaction_begin = 0;
  transactions = replicate 9 0;
  transaction_nr = 0;
}

-- Two bytes of data and no room but for the NUL and one byte.
abbrev pub nearly_full : OutputBuffer
nearly_full = buffer_of (65 ∷ 66 ∷ []) 2

pub nearly_full-IsValid : IsValid nearly_full
nearly_full-IsValid = record {
  block = 65 ∷ 66 ∷ 0 ∷ 0 ∷ [];
  held = refl;
  room = refl;
  spare = omega arith;
  small = omega arith;
}

pub nearly_full-Implements : Implements nearly_full (record { bytes = 65 ∷ 66 ∷ []; marks = [] })
unfolding contents
nearly_full-Implements = record {
  valid = nearly_full-IsValid;
  holds = refl;
  nested = tt;
  stack = tt;
  current = refl;
  slots = refl;
  few = omega arith;
}

-- A received message with the cursor at `offset`.
abbrev pub message : List ℕ → ℕ → InputBuffer
message bytes offset = record {
  buffer = bytes;
  offset = offset;
  limit = length bytes;
  length = length bytes;
  limits = replicate 9 0;
  limit_nr = 0;
}

pub message-IsLimited : (bytes : List ℕ) (offset : ℕ) → IsLimited (message bytes offset)
message-IsLimited bytes offset = record {
  few = omega arith;
  slots = refl;
  bound = omega arith;
  top = inl (refl, refl);
}

pub message-IsInside :
    (bytes : List ℕ) (offset : ℕ) → length bytes < 2 ^ 32 → IsInside (message bytes offset)
message-IsInside bytes offset h = record { inside = omega arith; small = h }
