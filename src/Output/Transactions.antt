-- ===== src/Output/Transactions.antt =====
-- The nested transactions of src/mms_output_buffer.c: marks to which the contents can be rolled
-- back, and the two functions that measure an encoding by writing it and taking it back.
use broncho_mms.Base.{
  ℕ, ◌+◌, ◌-◌, ◌%◌, Bool, true, false, Option, none, some, ltb, ◌==◌, get_elem?, if◌then◌else◌,
  and_then, ◌>>◌, word_mod,
}
use broncho_mms.Memory.{CString, Allocator, store_at}
use broncho_mms.Output.State.{
  MmsResult, result_ok, result_fail, OutputBuffer, Out, max_transactions,
}
use broncho_mms.Output.Encode.{output_buffer_put_long_int, output_buffer_put_encoded_string}

-- `a - b` of two `size_t`
abbrev pub sub32 : ℕ → ℕ → ℕ
sub32 a b = (a + word_mod - b) % word_mod

-- `transactions[transaction_nr++] = transaction_begin`, once `transaction_begin` is `mark`
unfoldable pub push_mark : ℕ → Out MmsResult
unfolding store_at
push_mark mark o = and_then (store_at o.transactions o.transaction_nr mark) λ marks. some (
  result_ok,
  record o {
    transaction_begin = mark;
    transactions = marks;
    transaction_nr = o.transaction_nr + 1;
  },
)

unfoldable pub output_buffer_transaction_begin : Out MmsResult
unfolding push_mark
output_buffer_transaction_begin o =
    if ltb o.transaction_nr max_transactions
    then push_mark o.data_length o
    else some (result_fail, o)

-- Slot `nr` is cleared, and the mark below it is current again.
unfoldable pub uncover_mark : ℕ → Out MmsResult
unfolding store_at
uncover_mark nr o = and_then (store_at o.transactions nr 0) λ marks.
    and_then (get_elem? marks (nr - 1)) λ mark.
      some (
        result_ok,
        record o { transaction_begin = mark; transactions = marks; transaction_nr = nr },
      )

-- The part of `transaction_end` after the rollback.
unfoldable pub leave_transaction : Out MmsResult
unfolding uncover_mark
leave_transaction o =
    let nr = o.transaction_nr - 1 in
    if ltb 0 nr
    then uncover_mark nr o
    else some (result_ok, record o { transaction_begin = 0; transaction_nr = nr })

unfoldable pub output_buffer_transaction_end : Bool → Out MmsResult
unfolding leave_transaction
output_buffer_transaction_end rollback o =
    if ltb 0 o.transaction_nr
    then leave_transaction (if rollback then record o { data_length = o.transaction_begin } else o)
    else some (result_fail, o)

unfoldable pub output_buffer_transaction_rollback : Out MmsResult
unfolding output_buffer_transaction_end
output_buffer_transaction_rollback = output_buffer_transaction_end true

unfoldable pub output_buffer_transaction_commit : Out MmsResult
unfolding output_buffer_transaction_end
output_buffer_transaction_commit = output_buffer_transaction_end false

unfoldable pub output_buffer_transaction_data_length : OutputBuffer → ℕ
output_buffer_transaction_data_length o = sub32 o.data_length o.transaction_begin

module _ (a : Allocator) where
  unfoldable pub output_buffer_get_long_int_bytes : ℕ → Out ℕ
  unfolding output_buffer_put_long_int
  output_buffer_get_long_int_bytes n o = and_then (output_buffer_put_long_int a n o) λ r.
      let o' : OutputBuffer = r.1 in
      some (sub32 o'.data_length o.data_length, record o' { data_length = o.data_length })

  -- The last test is an `mms_assert`.
  unfoldable pub output_buffer_get_encoded_string_bytes : Option CString → ℕ → Out ℕ
  unfolding output_buffer_put_encoded_string output_buffer_transaction_begin
      output_buffer_transaction_rollback output_buffer_transaction_data_length
  output_buffer_get_encoded_string_bytes none charset o = some (0, o)
  output_buffer_get_encoded_string_bytes (some s) charset o =
      and_then
        ((do
          output_buffer_transaction_begin
          output_buffer_put_encoded_string a (some s) charset
          λ (o₁ : OutputBuffer). some (output_buffer_transaction_data_length o₁, o₁))
          o)
        λ r. and_then (output_buffer_transaction_rollback r.1) λ q.
          let o' : OutputBuffer = q.1 in
          if o.data_length == o'.data_length then some (r.0, o') else none
