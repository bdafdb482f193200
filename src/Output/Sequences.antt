-- ===== src/Output/Sequences.antt =====
-- Sequences of calls of src/mms_output_buffer.c: writes in nested transactions, run on the buffer
-- and on the log that they implement.
use broncho_mms.Base.{
  suc, List, ℕ, ◌≡◌, length, ◌∷◌, lt-cases, pure, some, ◌+◌, inl, if◌then◌else◌, lt→ltb, ltb, inr,
  le→ltb, arith, ◌≤◌, length-append, length-take, ap, take_all,
}
use broncho_mms.Output.State.{
  OutputBuffer, Out, output_buffer_put_data, MmsResult, result_fail, result_ok, max_transactions,
}
use broncho_mms.Memory.{Allocator, IsAllocator, Serves}
use broncho_mms.Output.Transactions.{
  output_buffer_transaction_commit, output_buffer_transaction_begin,
  output_buffer_transaction_rollback, output_buffer_transaction_end,
}
use broncho_mms.Output.Log.{
  Log, Implements, Steps, Slots-nr, log_append, begin-Steps, log_begin, log_commit, log_rollback,
  Implements-append, cut_to,
}
use broncho_mms.Output.Valid.{most_room, most_data, contents, length-contents}
use broncho_mms.Output.Append.{put_data-Appends}
use broncho_mms.Base.{suc, List, [], ◌∷◌, ◌>>=◌, pure, refl}
use broncho_mms.Output.Leave.{rollback-Steps, commit-Steps}

-- The calls that a client makes between creating a buffer and reading it.
pub data Call : Type 0 where
  put : List ℕ → Call
  begin commit rollback : Call

unfoldable pub call : Allocator → Call → Out MmsResult
unfolding output_buffer_put_data output_buffer_transaction_begin output_buffer_transaction_commit
    output_buffer_transaction_rollback
call a (put bytes) = output_buffer_put_data a (some bytes)
call a begin = output_buffer_transaction_begin
call a commit = output_buffer_transaction_commit
call a rollback = output_buffer_transaction_rollback

-- What the log answers: no empty write, no ninth mark, and no end without a beginning.
unfoldable pub log_call : Call → Log → MmsResult × Log
log_call (put []) g = (result_fail, g)
log_call (put (x ∷ xs)) g = (result_ok, log_append (x ∷ xs) g)
log_call begin g =
    if ltb (length g.marks) max_transactions then (result_ok, log_begin g) else (result_fail, g)
log_call commit g = if ltb 0 (length g.marks) then (result_ok, log_commit g) else (result_fail, g)
log_call rollback g =
    if ltb 0 (length g.marks) then (result_ok, log_rollback g) else (result_fail, g)

-- The calls in order, with the result of each.
unfoldable pub calls : Allocator → List Call → Out (List MmsResult)
unfolding call
calls a [] = pure []
calls a (c ∷ cs) = do result ← call a c; results ← calls a cs; pure (result ∷ results)

unfoldable pub log_calls : List Call → Log → List MmsResult × Log
unfolding log_call
log_calls [] g = ([], g)
log_calls (c ∷ cs) g =
    let first = log_call c g in let rest = log_calls cs first.1 in (first.0 ∷ rest.0, rest.1)

-- How many bytes the calls write at most.
unfoldable pub written_by : List Call → ℕ
written_by [] = 0
written_by (put bytes ∷ cs) = length bytes + written_by cs
written_by (begin ∷ cs) = written_by cs
written_by (commit ∷ cs) = written_by cs
written_by (rollback ∷ cs) = written_by cs

-- The buffer answers as the log does, and implements it afterwards.
abbrev pub Follows : {A : Type 0} → Out A → OutputBuffer → A × Log → Type 0
Follows m o r = (o' : OutputBuffer) × (m o ≡ some (r.0, o')) × Implements o' r.1

marks_count : {o : OutputBuffer} {g : Log} → Implements o g → o.transaction_nr ≡ length g.marks
marks_count {o} {g} h = Slots-nr o.transactions o.transaction_nr g.marks h.stack

steps : {o : OutputBuffer} {g : Log} {m : Out MmsResult} → Steps m o g → Follows m o (result_ok, g)
steps h = (h.after, h.runs, h.implements)

module _ (a : Allocator) (good : IsAllocator a) (serves : Serves a most_room) where
  put-Follows :
      (o : OutputBuffer) (g : Log) (bytes : List ℕ)
      → Implements o g
      → o.data_length + length bytes ≤ most_data
      → Follows (call a (put bytes)) o (log_call (put bytes) g)
  unfolding call log_call output_buffer_put_data
  put-Follows o g [] h fits = (o, refl, h)
  put-Follows o g (x ∷ xs) h fits =
      let p = put_data-Appends a good serves o (x ∷ xs) h.valid (omega arith) fits in
      (p.after, p.runs, Implements-append h p.appended)

begin-Follows :
    (a : Allocator) (o : OutputBuffer) (g : Log)
    → Implements o g
    → Follows (call a begin) o (log_call begin g)
unfolding call log_call output_buffer_transaction_begin
begin-Follows a o g h = elim (lt-cases (length g.marks) max_transactions) [
  | inl free ↦ rw (lt→ltb (length g.marks) max_transactions free) (steps (begin-Steps h free))
  | inr full ↦
      rw (le→ltb (length g.marks) max_transactions full)
        (o, rw (le→ltb o.transaction_nr max_transactions (omega (arith, marks_count h))), h)
]

commit-Follows :
    (a : Allocator) (o : OutputBuffer) (xs ms : List ℕ)
    → Implements o (record { bytes = xs; marks = ms })
    → Follows (call a commit) o (log_call commit (record { bytes = xs; marks = ms }))
unfolding call log_call output_buffer_transaction_commit output_buffer_transaction_end
commit-Follows a o xs [] h = (o, rw (le→ltb 0 o.transaction_nr (omega (arith, marks_count h))), h)
commit-Follows a o xs (m ∷ ms) h =
    rw (lt→ltb 0 (suc (length ms)) (omega arith)) (steps (commit-Steps o xs m ms h))

rollback-Follows :
    (a : Allocator) (o : OutputBuffer) (xs ms : List ℕ)
    → Implements o (record { bytes = xs; marks = ms })
    → Follows (call a rollback) o (log_call rollback (record { bytes = xs; marks = ms }))
unfolding call log_call output_buffer_transaction_rollback output_buffer_transaction_end
rollback-Follows a o xs [] h = (o, rw (le→ltb 0 o.transaction_nr (omega (arith, marks_count h))), h)
rollback-Follows a o xs (m ∷ ms) h =
    rw (lt→ltb 0 (suc (length ms)) (omega arith)) (steps (rollback-Steps o xs m ms h))

-- No call makes the log longer than what it writes.
cut_size : (ms xs : List ℕ) → length (cut_to ms xs) ≤ length xs
cut_size [] xs = omega arith
cut_size (m ∷ ms) xs = elim (lt-cases m (length xs)) [
  | inl inside ↦ omega (arith, length-take m xs (omega arith))
  | inr over ↦ omega (arith, ap length (take_all m xs over))
]

log_call_size :
    (c : Call) (cs : List Call) (g : Log)
    → length (log_call c g).1.bytes + written_by cs ≤ length g.bytes + written_by (c ∷ cs)
unfolding log_call written_by
log_call_size (put []) cs g = omega arith
log_call_size (put (x ∷ xs)) cs g = omega (arith, length-append g.bytes (x ∷ xs))
log_call_size begin cs g = ground arith
log_call_size commit cs g = ground arith
log_call_size rollback cs g = ground (arith, cut_size g.marks g.bytes)

module _ (a : Allocator) (good : IsAllocator a) (serves : Serves a most_room) where
  call-Follows :
      (c : Call) (cs : List Call) (o : OutputBuffer) (g : Log)
      → Implements o g
      → length g.bytes + written_by (c ∷ cs) ≤ most_data
      → Follows (call a c) o (log_call c g)
  unfolding written_by contents
  call-Follows (put bytes) cs o g h fits =
      put-Follows a good serves o g bytes h
        (omega (arith, length-contents o h.valid, ap length h.holds))
  call-Follows begin cs o g h fits = begin-Follows a o g h
  call-Follows commit cs o g h fits = commit-Follows a o g.bytes g.marks h
  call-Follows rollback cs o g h fits = rollback-Follows a o g.bytes g.marks h

  -- On a buffer that implements a log, with an allocator that serves every request up to 3 GiB,
  -- any sequence of writes, begins, commits and rollbacks whose bytes, with those of the log, are
  -- no more than 1 GiB runs, answers call by call as the log does, the ninth nested begin, an end
  -- without a begin and an empty write refused, and leaves a buffer that implements the log's end.
  pub calls-Follows :
      (cs : List Call) (o : OutputBuffer) (g : Log)
      → Implements o g
      → length g.bytes + written_by cs ≤ most_data
      → Follows (calls a cs) o (log_calls cs g)
  unfolding calls log_calls
  calls-Follows [] o g h fits = (o, refl, h)
  calls-Follows (c ∷ cs) o g h fits =
      let (o₁, runs, h₁) = call-Follows c cs o g h fits in
      let (o₂, rest, h₂) =
        calls-Follows cs o₁ (log_call c g).1 h₁ (omega (arith, log_call_size c cs g)) in
      (o₂, rw runs (rw rest), h₂)
