-- ===== src/Buffer/Refine.antt =====
-- The operations of common/BufferStatic.h beside those of the bounded queue of Buffer/Fifo.antt.
use native.Mathlib.Decide.{dec_le, dec_lt, ℕ_discrete}
use twitch_chat_worker.Base.{
  ℕ, ◌+◌, ◌≤◌, ◌<◌, ◌≡◌, refl, ap, ◌∙◌, subst, List, ◌++◌, length, some, Bool, true, false, ◌||◌,
  if◌then◌else◌, length-take, take, drop, [], arith, length-append,
}
use twitch_chat_worker.Buffer.{
  Buffer, Reply, append, append_split, get, get_valid, validate_buffer, get_data, peek_data,
  seek_data, consume,
}
use twitch_chat_worker.Buffer.Codes.{Status, ok, no_data, buffer_full, invalid_len, invalid_usage}
use twitch_chat_worker.Buffer.Fifo
use twitch_chat_worker.Buffer.Holds.{Holds, linear, wrapped, Valid}
use twitch_chat_worker.Buffer.Append.{append-fits}
use twitch_chat_worker.Buffer.Get.{get_valid_lem}

-- Where the array has too little left, nothing is stored.
append_no_room :
    (b : Buffer) (q bytes : List ℕ) (len : ℕ)
    → Valid b q
    → Holds b q
    → len ≤ b.capacity
    → b.capacity < length q + len
    → append b bytes len ≡ some (buffer_full, b)
unfolding append append_split
append_no_room b q bytes len v (linear p s e hh ht) h k =
    ground (
      arith,
      v.storage,
      v.counted,
      v.small,
      ap length e,
      length-append p (q ++ s),
      length-append q s,
    )
append_no_room b q bytes len v (wrapped q1 q2 s eq e ht hh) h k = ground (
  arith,
  v.storage,
  v.counted,
  v.small,
  ap length e,
  ap length eq,
  length-append q1 q2,
  length-append q2 (s ++ q1),
  length-append s q1,
)

append_too_long :
    (b : Buffer) (bytes : List ℕ) (len : ℕ)
    → b.capacity < len
    → append b bytes len ≡ some (invalid_len, b)
unfolding append
append_too_long b bytes len h = ground arith

append-full :
    (b : Buffer) (bytes : List ℕ) (len : ℕ)
    → len ≤ b.capacity
    → b.size ≡ b.capacity
    → append b bytes len ≡ some (buffer_full, b)
unfolding append
append-full b bytes len h k = ground arith

-- `append` ends with the status of `r` in a valid buffer that holds the bytes of `r`.
abbrev pub AppendsTo : Buffer → List ℕ → ℕ → Status × List ℕ → Type 0
AppendsTo b bytes len r =
    (b' : Buffer) × (append b bytes len ≡ some (r.0, b'))
    × Valid b' r.1
    × (b'.capacity ≡ b.capacity)

-- For a buffer that holds the bytes `q`, `append` returns the status of the bounded queue and leaves
-- a valid buffer of the same capacity that holds the queue's bytes. The caller's array holds
-- `length d` bytes `d`, and perhaps more.
pub append_refines :
    (b : Buffer) (q d rest : List ℕ)
    → Valid b q
    → AppendsTo b (d ++ rest) (length d) (Fifo.append b.capacity q d)
append_refines b q d rest v = elim (dec_lt b.capacity (length d)) [
  | yes big ↦ subst To (ground arith) (b, append_too_long b (d ++ rest) (length d) big, v, refl)
  | no small ↦ elim (ℕ_discrete (length q) b.capacity) [
    | yes full ↦
        subst To (ground arith)
          (b, append-full b (d ++ rest) (length d) (omega arith) (v.counted ∙ full), v, refl)
    | no free ↦ elim (dec_le (length q + length d) b.capacity) [
      | yes room ↦ subst To (ground arith) (append-fits b q d rest v (omega arith) room)
      | no none ↦ subst To (ground arith) (
        b,
        append_no_room b q (d ++ rest) (length d) v v.holds (omega arith) (omega arith),
        v,
        refl,
      )
    ]
  ]
]
  where
    To : Status × List ℕ → Type 0
    To = AppendsTo b (d ++ rest) (length d)

-- The call ends with the status and the bytes of `r` in a valid buffer that holds what `r` leaves.
abbrev pub AnswersTo : Buffer → Reply → Status × List ℕ × List ℕ → Type 0
AnswersTo b reply r =
    (b' : Buffer) × (reply ≡ some (r.0, r.1, b')) × Valid b' r.2 × (b'.capacity ≡ b.capacity)

consume-Valid :
    (b : Buffer) (q r : List ℕ) (peek : Bool) (head len : ℕ)
    → Valid b q
    → Valid (consume b false head len) r
    → Valid (consume b peek head len) (if peek then q else r)
unfolding consume
consume-Valid b q r true head len v w = v
consume-Valid b q r false head len v w = w

capacity-consume :
    (b : Buffer) (peek : Bool) (head len : ℕ) → (consume b peek head len).capacity ≡ b.capacity
unfolding consume
capacity-consume b true head len = refl
capacity-consume b false head len = refl

module _ (b : Buffer) (q : List ℕ) (len : ℕ) (v : Valid b q) where
  module _ (out peek move_only : Bool) (given : (out || move_only) ≡ true) where
    answers :
        (status : Status)
        → (status ≡ ok → (0 < length q) × (len ≤ length q))
        → AnswersTo b (get_valid status b out len peek move_only) (
            Fifo.answer status q
              (if move_only then [] else take len q)
              (if peek then q else drop len q))
    unfolding get_valid
    answers ok h =
        (let (pos, le) = h refl in
          let n : length (take len q) ≡ len = omega (arith, length-take len q) in
          let (head, e, w) = get_valid_lem b out peek move_only given q len v pos le in
          (
            consume b peek head (length (take len q)),
            subst
                (λ k.
                  get_valid ok b out k peek move_only
                  ≡ some (
                    ok,
                    (if move_only then [] else take len q),
                    consume b peek head (length (take len q)),
                  ))
                n e,
            consume-Valid b q (drop len q) peek head (length (take len q)) v w,
            capacity-consume b peek head (length (take len q)),
          ))
    answers no_data h = (b, refl, v, refl)
    answers buffer_full h = (b, refl, v, refl)
    answers invalid_len h = (b, refl, v, refl)
    answers invalid_usage h = (b, refl, v, refl)

  validate_buffer-check : validate_buffer b.size len ≡ Fifo.check q len
  unfolding validate_buffer
  validate_buffer-check = rw v.counted

  check-ok : Fifo.check q len ≡ ok → (0 < length q) × (len ≤ length q)
  check-ok h = ground arith

  -- For a buffer that holds the bytes `q`, `getData` into the caller's array answers as the bounded
  -- queue does: it takes the first `len` bytes, or fails and changes nothing when it holds none or
  -- fewer than asked for. No copy leaves the array.
  pub get_data_refines : AnswersTo b (get_data b true len) (Fifo.get q len)
  unfolding get_data get
  get_data_refines =
      rw validate_buffer-check (answers true false false refl (Fifo.check q len) check-ok)

  -- For a buffer that holds the bytes `q`, `peekData` into the caller's array answers as the
  -- bounded queue does, with its first `len` bytes or a failure, and leaves the bytes as they
  -- were.
  pub peek_data_refines : AnswersTo b (peek_data b true len) (Fifo.peek q len)
  unfolding peek_data get
  peek_data_refines =
      rw validate_buffer-check (answers true true false refl (Fifo.check q len) check-ok)

  -- For a buffer that holds the bytes `q`, `seekData` answers as the bounded queue does: it drops
  -- the first `len` bytes, or fails and changes nothing.
  pub seek_data_refines : AnswersTo b (seek_data b len) (Fifo.seek q len)
  unfolding seek_data get
  seek_data_refines =
      rw validate_buffer-check (answers false false true refl (Fifo.check q len) check-ok)
