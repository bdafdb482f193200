-- ===== src/Output/Leave.antt =====
-- `commit` and `rollback` of the output buffer implement those of the log.
use broncho_mms.Base.{
  ℕ, suc, ◌-◌, ◌<◌, ◌≡◌, refl, sym, ap, ◌∙◌, some, List, [], ◌∷◌, arith, length, take, subst,
  le→ltb, lt→ltb, take-take,
}
use broncho_mms.Output.State.{OutputBuffer, result_ok}
use broncho_mms.Output.Valid.{contents, bytes_of}
use broncho_mms.Output.Log.{Log, Implements, Steps, Slots, Slots-nr, Slots-write}
use broncho_mms.Output.Transactions.{
  leave_transaction, uncover_mark, output_buffer_transaction_commit,
  output_buffer_transaction_rollback, output_buffer_transaction_end,
}
use broncho_mms.Memory.Laws.{written, store_at_inside, length-written}

-- The stack by the count of its marks.
counted-Slots :
    {o : OutputBuffer} {g : Log} → Implements o g → Slots o.transactions (length g.marks) g.marks
counted-Slots {o} {g} h =
    subst (λ (t : ℕ). Slots o.transactions t g.marks)
      (Slots-nr o.transactions o.transaction_nr g.marks h.stack) h.stack

abbrev log : List ℕ → List ℕ → Log
log xs ms = record { bytes = xs; marks = ms }

leave-Steps :
    (o : OutputBuffer) (xs : List ℕ) (m : ℕ) (ms : List ℕ)
    → Implements o (log xs (m ∷ ms))
    → Steps leave_transaction o (log xs ms)
unfolding leave_transaction uncover_mark contents
leave-Steps o xs m [] h =
    let nr : o.transaction_nr ≡ 1 = Slots-nr o.transactions o.transaction_nr (m ∷ []) h.stack in
    let one : o.transaction_nr - 1 ≡ 0 = omega arith in
    record {
      after = record o { transaction_begin = 0; transaction_nr = 0 };
      runs =
          rw (le→ltb 0 (o.transaction_nr - 1) (omega arith)) (
            ap (λ t. some (result_ok, record o { transaction_begin = 0; transaction_nr = t })) one);
      implements = record {
        valid = record {
          block = h.valid.block;
          held = h.valid.held;
          room = h.valid.room;
          spare = h.valid.spare;
          small = h.valid.small;
        };
        holds = h.holds;
        nested = tt;
        stack = tt;
        current = refl;
        slots = h.slots;
        few = omega arith;
      };
    }
leave-Steps o xs m (k ∷ ms) h =
    let n : ℕ = length ms in
    let nr : o.transaction_nr ≡ suc (suc n) =
      Slots-nr o.transactions o.transaction_nr (m ∷ k ∷ ms) h.stack in
    let stack : Slots o.transactions (suc (suc n)) (m ∷ k ∷ ms) = counted-Slots h in
    let inside : suc n < length o.transactions = omega (arith, h.few, h.slots) in
    let slots = written o.transactions (suc n) (0 ∷ []) in
    let one : o.transaction_nr - 1 ≡ suc n = omega arith in
    let two : suc n - 1 ≡ n = omega arith in
    let below : Slots slots (suc n) (k ∷ ms) =
      Slots-write o.transactions (suc n) (suc n) 0 (k ∷ ms) (omega arith) inside stack.1 in
    record {
      after = record o { transaction_begin = k; transactions = slots; transaction_nr = suc n };
      runs = rw (
        one,
        lt→ltb 0 (suc n) (omega arith),
        store_at_inside o.transactions (suc n) 0 inside,
        two,
        below.0,
      );
      implements = record {
        valid = record {
          block = h.valid.block;
          held = h.valid.held;
          room = h.valid.room;
          spare = h.valid.spare;
          small = h.valid.small;
        };
        holds = h.holds;
        nested = (omega (arith, h.nested.0, h.nested.1), h.nested.1.1);
        stack = below;
        current = refl;
        slots = length-written o.transactions (suc n) (0 ∷ []) (omega arith) ∙ h.slots;
        few = omega (arith, nr, h.few);
      };
    }

pub commit-Steps :
    (o : OutputBuffer) (xs : List ℕ) (m : ℕ) (ms : List ℕ)
    → Implements o (log xs (m ∷ ms))
    → Steps output_buffer_transaction_commit o (log xs ms)
unfolding output_buffer_transaction_commit output_buffer_transaction_end
commit-Steps o xs m ms h =
    let nr = Slots-nr o.transactions o.transaction_nr (m ∷ ms) h.stack in
    let step = leave-Steps o xs m ms h in
    record {
      after = step.after;
      runs = rw (lt→ltb 0 o.transaction_nr (omega (arith, nr))) step.runs;
      implements = step.implements;
    }

-- The buffer cut back to its innermost mark, before the mark is dropped.
cut-Implements :
    (o : OutputBuffer) (xs : List ℕ) (m : ℕ) (ms : List ℕ)
    → Implements o (log xs (m ∷ ms))
    → Implements (record o { data_length = o.transaction_begin }) (log (take m xs) (m ∷ ms))
unfolding contents
cut-Implements o xs m ms h =
    let whole : take o.data_length h.valid.block ≡ xs =
      sym (ap (λ b. bytes_of b o.data_length) h.valid.held) ∙ h.holds in
    record {
      valid = record {
        block = h.valid.block;
        held = h.valid.held;
        room = h.valid.room;
        spare = omega (arith, h.current, h.nested.0, h.valid.spare);
        small = h.valid.small;
      };
      holds =
          ap (λ b. bytes_of b o.transaction_begin) h.valid.held
          ∙ ap (λ t. take t h.valid.block) h.current
          ∙ sym (take-take m o.data_length h.valid.block h.nested.0)
          ∙ ap (take m) whole;
      nested = (omega (arith, h.current), h.nested.1);
      stack = h.stack;
      current = h.current;
      slots = h.slots;
      few = h.few;
    }

pub rollback-Steps :
    (o : OutputBuffer) (xs : List ℕ) (m : ℕ) (ms : List ℕ)
    → Implements o (log xs (m ∷ ms))
    → Steps output_buffer_transaction_rollback o (log (take m xs) ms)
unfolding output_buffer_transaction_rollback output_buffer_transaction_end
rollback-Steps o xs m ms h =
    let nr = Slots-nr o.transactions o.transaction_nr (m ∷ ms) h.stack in
    let step =
      leave-Steps (record o { data_length = o.transaction_begin }) (take m xs) m ms
        (cut-Implements o xs m ms h) in
    record {
      after = step.after;
      runs = rw (lt→ltb 0 o.transaction_nr (omega (arith, nr))) step.runs;
      implements = step.implements;
    }
