-- ===== src/Output/Valid.antt =====
-- The invariant of the output buffer, its contents, and what one append does.
use broncho_mms.Base.{
  ℕ, ◌+◌, ◌*◌, ◌^◌, ◌≤◌, ◌<◌, ◌≡◌, refl, sym, ◌∙◌, Option, none, some, List, [], ◌++◌, append_assoc,
  arith, length, take, length-append, ◌>>◌, pure, length-take, append-nil,
}
use mathlib.Core.Path.{subst}
use broncho_mms.Memory.{Block}
use broncho_mms.Output.State.{MmsResult, result_ok, OutputBuffer, Out}

-- One byte stays free behind the data, and no write has passed 1 GiB, so that the doubled length
-- fits a `size_t`.
abbrev pub most_data : ℕ
most_data = 2 ^ 30

abbrev pub most_room : ℕ
most_room = 3 * 2 ^ 30

pub record IsValid (o : OutputBuffer) : Type 0 where
  pub block : Block
  pub held : o.buffer ≡ some block
  pub room : length block ≡ o.length
  pub spare : o.data_length < o.length
  pub small : o.length ≤ most_room

-- The bytes that the buffer holds.
abbrev pub bytes_of : Option Block → ℕ → List ℕ
bytes_of none n = []
bytes_of (some b) n = take n b

unfoldable pub contents : OutputBuffer → List ℕ
contents o = bytes_of o.buffer o.data_length

-- `o'` is `o` with `bytes` behind its contents.
pub record Appended (o : OutputBuffer) (bytes : List ℕ) (o' : OutputBuffer) : Type 0 where
  pub valid : IsValid o'
  pub shows : contents o' ≡ contents o ++ bytes
  pub counts : o'.data_length ≡ o.data_length + length bytes
  pub same_begin : o'.transaction_begin ≡ o.transaction_begin
  pub same_marks : o'.transactions ≡ o.transactions
  pub same_nr : o'.transaction_nr ≡ o.transaction_nr

-- The command succeeds and appends `bytes`.
pub record Appends (m : Out MmsResult) (o : OutputBuffer) (bytes : List ℕ) : Type 0 where
  pub after : OutputBuffer
  pub runs : m o ≡ some (result_ok, after)
  pub appended : Appended o bytes after

pub length-contents : (o : OutputBuffer) → IsValid o → length (contents o) ≡ o.data_length
unfolding contents
length-contents o v = rw v.held (length-take o.data_length v.block (omega (arith, v.room, v.spare)))

pub Appended-refl : {o : OutputBuffer} → IsValid o → Appended o [] o
Appended-refl {o} v = record {
  valid = v;
  shows = sym (append-nil (contents o));
  counts = omega arith;
  same_begin = refl;
  same_marks = refl;
  same_nr = refl;
}

pub Appended-trans :
    {o o' o'' : OutputBuffer} {xs ys : List ℕ}
    → Appended o xs o'
    → Appended o' ys o''
    → Appended o (xs ++ ys) o''
Appended-trans {o} {xs} {ys} p q = record {
  valid = q.valid;
  shows = rw (q.shows, p.shows) (append_assoc (contents o) xs ys);
  counts = omega (arith, q.counts, p.counts, length-append xs ys);
  same_begin = q.same_begin ∙ p.same_begin;
  same_marks = q.same_marks ∙ p.same_marks;
  same_nr = q.same_nr ∙ p.same_nr;
}

-- What the first command appends comes before what the second does.
pub Appends-then :
    {m k : Out MmsResult} {o : OutputBuffer} {xs ys : List ℕ}
    → Appends m o xs
    → ((o' : OutputBuffer) → Appended o xs o' → Appends k o' ys)
    → Appends (m >> k) o (xs ++ ys)
Appends-then h next =
    let rest = next h.after h.appended in
    record {
      after = rest.after;
      runs = rw h.runs rest.runs;
      appended = Appended-trans h.appended rest.appended;
    }

-- Commands that end in `return MMS_RESULT_OK`.
pub Appends-ok :
    {m : Out MmsResult} {o : OutputBuffer} {xs : List ℕ}
    → Appends m o xs
    → Appends (m >> pure result_ok) o xs
Appends-ok h = record { after = h.after; runs = rw h.runs; appended = h.appended }

-- A command that runs like another from here appends what that one does.
pub Appends-runs :
    {m k : Out MmsResult} {o : OutputBuffer} {xs : List ℕ}
    → k o ≡ m o
    → Appends m o xs
    → Appends k o xs
Appends-runs e h = record { after = h.after; runs = e ∙ h.runs; appended = h.appended }

pub Appends-eq :
    {m : Out MmsResult} {o : OutputBuffer} {xs ys : List ℕ}
    → Appends m o xs
    → xs ≡ ys
    → Appends m o ys
Appends-eq {m} {o} h e = subst (Appends m o) e h

-- A run that appends ends in the one state that it ends in.
pub same_end :
    {m : Out MmsResult} {o o' : OutputBuffer} {bytes : List ℕ}
    → Appends m o bytes
    → m o ≡ some (result_ok, o')
    → Appended o bytes o'
same_end {m} {o} {o'} {bytes} h e =
    let same : h.after ≡ o' = cc in subst (Appended o bytes) same h.appended
