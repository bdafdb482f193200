-- ===== src/Output/Log.antt =====
-- What the transactions of the output buffer promise: a log of bytes with marks to which it can be
-- cut back. The calls of src/mms_output_buffer.c implement it.
use broncho_mms.Base.{
  ℕ, zero, suc, ◌≤◌, ◌<◌, ◌≡◌, refl, sym, ap, ◌∙◌, some, List, [], ◌∷◌, ◌++◌, arith, length, take,
  get_elem?, drop, subst, lt→ltb,
}
use broncho_mms.Output.State.{OutputBuffer, Out, MmsResult, result_ok, max_transactions}
use broncho_mms.Output.Valid.{IsValid, contents, Appended, length-contents}
use broncho_mms.Output.Transactions.{output_buffer_transaction_begin, push_mark}
use broncho_mms.Memory.Laws.{
  written, get_elem?-written_before, store_at_inside, get_elem?-written_at, length-written,
}

-- The marks stand innermost first.
pub record Log : Type 0 where
  pub bytes : List ℕ
  pub marks : List ℕ

abbrev pub log_append : List ℕ → Log → Log
log_append xs g = record g { bytes = g.bytes ++ xs }

abbrev pub log_begin : Log → Log
log_begin g = record g { marks = length g.bytes ∷ g.marks }

abbrev pub log_commit : Log → Log
log_commit g = record g { marks = drop 1 g.marks }

abbrev pub cut_to : List ℕ → List ℕ → List ℕ
cut_to [] xs = xs
cut_to (m ∷ ms) xs = take m xs

abbrev pub log_rollback : Log → Log
log_rollback g = record { bytes = cut_to g.marks g.bytes; marks = drop 1 g.marks }

-- The first `nr` slots hold the marks, outermost first.
abbrev pub Slots : List ℕ → ℕ → List ℕ → Type 0
Slots slots zero [] = Unit {0}
Slots slots zero (m ∷ ms) = ⊥
Slots slots (suc n) [] = ⊥
Slots slots (suc n) (m ∷ ms) = (get_elem? slots n ≡ some m) × Slots slots n ms

-- No mark lies behind the one inside it, nor behind `n`.
abbrev pub Nested : ℕ → List ℕ → Type 0
Nested n [] = Unit {0}
Nested n (m ∷ ms) = (m ≤ n) × Nested m ms

abbrev pub innermost : List ℕ → ℕ
innermost [] = 0
innermost (m ∷ ms) = m

-- The buffer implements the log.
pub record Implements (o : OutputBuffer) (g : Log) : Type 0 where
  pub valid : IsValid o
  pub holds : contents o ≡ g.bytes
  pub nested : Nested o.data_length g.marks
  pub stack : Slots o.transactions o.transaction_nr g.marks
  pub current : o.transaction_begin ≡ innermost g.marks
  pub slots : length o.transactions ≡ 9
  pub few : o.transaction_nr ≤ max_transactions

pub Nested-mono : {m n : ℕ} (ms : List ℕ) → m ≤ n → Nested m ms → Nested n ms
Nested-mono [] le h = tt
Nested-mono (k ∷ ms) le h = (omega (arith, h.0), h.1)

pub Slots-nr : (slots : List ℕ) (n : ℕ) (ms : List ℕ) → Slots slots n ms → n ≡ length ms
Slots-nr slots zero [] h = refl
Slots-nr slots zero (m ∷ ms) h = absurd h
Slots-nr slots (suc n) [] h = absurd h
Slots-nr slots (suc n) (m ∷ ms) h = ap suc (Slots-nr slots n ms h.1)

-- A write at a higher slot leaves the stack.
pub Slots-write :
    (slots : List ℕ) (n k v : ℕ) (ms : List ℕ)
    → n ≤ k
    → k < length slots
    → Slots slots n ms
    → Slots (written slots k (v ∷ [])) n ms
Slots-write slots zero k v [] le h s = tt
Slots-write slots zero k v (m ∷ ms) le h s = absurd s
Slots-write slots (suc n) k v [] le h s = absurd s
Slots-write slots (suc n) k v (m ∷ ms) le h s = (
  get_elem?-written_before slots n k (v ∷ []) le (omega arith) ∙ s.0,
  Slots-write slots n k v ms (omega arith) h s.1,
)

-- Whatever appends to the buffer appends to the log.
pub Implements-append :
    {o o' : OutputBuffer} {g : Log} {xs : List ℕ}
    → Implements o g
    → Appended o xs o'
    → Implements o' (log_append xs g)
Implements-append {o} {o'} {g} {xs} h p = record {
  valid = p.valid;
  holds = p.shows ∙ ap (λ t. t ++ xs) h.holds;
  nested = Nested-mono g.marks (omega (arith, p.counts)) h.nested;
  stack =
      subst (λ (t : List ℕ). Slots t o'.transaction_nr g.marks) (sym p.same_marks)
        (subst (λ (t : ℕ). Slots o.transactions t g.marks) (sym p.same_nr) h.stack);
  current = p.same_begin ∙ h.current;
  slots = ap length p.same_marks ∙ h.slots;
  few = omega (arith, p.same_nr, h.few);
}

-- The call succeeds, and the log is as `g` says.
pub record Steps (m : Out MmsResult) (o : OutputBuffer) (g : Log) : Type 0 where
  pub after : OutputBuffer
  pub runs : m o ≡ some (result_ok, after)
  pub implements : Implements after g

pub begin-Steps :
    {o : OutputBuffer} {g : Log}
    → Implements o g
    → length g.marks < max_transactions
    → Steps output_buffer_transaction_begin o (log_begin g)
unfolding output_buffer_transaction_begin push_mark contents
begin-Steps {o} {g} h free =
    let nr = Slots-nr o.transactions o.transaction_nr g.marks h.stack in
    let fits : o.transaction_nr < length o.transactions = omega (arith, nr, h.slots) in
    let slots = written o.transactions o.transaction_nr (o.data_length ∷ []) in
    let size : length g.bytes ≡ o.data_length =
      sym (ap length h.holds) ∙ length-contents o h.valid in
    record {
      after = record o {
        transaction_begin = o.data_length;
        transactions = slots;
        transaction_nr = suc o.transaction_nr;
      };
      runs =
          rw
            (
              lt→ltb o.transaction_nr max_transactions (omega (arith, nr)),
              store_at_inside o.transactions o.transaction_nr o.data_length fits,
            )
            (ap
              (λ t. some (
                result_ok,
                record o {
                  transaction_begin = o.data_length;
                  transactions = slots;
                  transaction_nr = t;
                },
              ))
              (omega arith));
      implements = record {
        valid = record {
          block = h.valid.block;
          held = h.valid.held;
          room = h.valid.room;
          spare = h.valid.spare;
          small = h.valid.small;
        };
        holds = h.holds;
        nested = (omega (arith, size), rw size h.nested);
        stack = (
          get_elem?-written_at o.transactions o.transaction_nr o.data_length (omega arith)
              ∙ ap some (sym size),
          Slots-write o.transactions o.transaction_nr o.transaction_nr o.data_length g.marks
              (omega arith) fits h.stack,
        );
        current = sym size;
        slots =
            length-written o.transactions o.transaction_nr (o.data_length ∷ []) (omega arith)
            ∙ h.slots;
        few = omega (arith, nr);
      };
    }
