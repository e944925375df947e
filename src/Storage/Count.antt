-- ===== src/Storage/Count.antt =====
-- How many messages reach the data base, and how large the batches get.
use native.Mathlib.Decide.{dec_lt}
use native.Mathlib.Nat.{add-div_left, div-eq_of_lt}
use twitch_chat_worker.Base.{
  suc, ◌+◌, ◌/◌, ◌≤◌, ◌<◌, ◌≡◌, ap, ap₂, ◌∙◌, List, [], ◌∷◌, append-nil, map, length, length-append,
  arith,
}
use twitch_chat_worker.Storage.{
  Storage, Event, chat_message, bot_log_message, flush_chat_messages, flush_bot_log_messages,
  flush_all, process_messages, flush, step, run,
}
use twitch_chat_worker.Storage.Loss.{
  delivered, delivered_logs, kept, kept_logs, kept-step, kept_logs-step, rest-process_messages,
  rest-process_logs,
}

module _ {A B : Type 0} where
  -- No batch outgrows its limit.
  pub record IsBounded (s : Storage A B) : Type 0 where
    pub messages_fit : length s.msg_batch ≤ s.batch_size
    pub logs_fit : length s.log_batch ≤ s.batch_size

  step-IsBounded : (s : Storage A B) (e : Event A B) → IsBounded s → IsBounded (step s e)
  unfolding step
  step-IsBounded s (chat_message m) v = ground (
    arith,
    length-append s.msg_batch (m ∷ []),
    rest-process_messages s.msg_batch (record s { msg_batch = [] }),
  )
  step-IsBounded s (bot_log_message r) v = ground (
    arith,
    length-append s.log_batch (r ∷ []),
    rest-process_logs s.log_batch (record s { log_batch = [] }),
  )
  step-IsBounded s flush_chat_messages v =
      ground (arith, rest-process_messages s.msg_batch (record s { msg_batch = [] }))
  step-IsBounded s flush_bot_log_messages v =
      ground (arith, rest-process_logs s.log_batch (record s { log_batch = [] }))
  step-IsBounded s flush_all v =
      (let s' = process_messages s.msg_batch (record s { msg_batch = [] }) in
        ground (
          arith,
          rest-process_messages s.msg_batch (record s { msg_batch = [] }),
          rest-process_logs s'.log_batch (record s' { log_batch = [] }),
        ))

  -- Whatever the agent receives, neither batch ever outgrows the batch size.
  pub run-IsBounded : (es : List (Event A B)) (s : Storage A B) → IsBounded s → IsBounded (run s es)
  unfolding run
  run-IsBounded [] s v = v
  run-IsBounded (e ∷ es) s v = run-IsBounded es (step s e) (step-IsBounded s e v)

  -- `flush` leaves both batches empty, and everything that waited is in blocks, in its order behind
  -- what was there.
  pub flush_lem :
      (s : Storage A B)
      → ((flush s).msg_batch ≡ [])
        × ((flush s).log_batch ≡ [])
        × (delivered (flush s).blocks ≡ kept s)
        × (delivered_logs (flush s).blocks ≡ kept_logs s)
  unfolding flush step
  flush_lem s =
      (let s' = process_messages s.msg_batch (record s { msg_batch = [] }) in
        ground (
          arith,
          rest-process_messages s.msg_batch (record s { msg_batch = [] }),
          rest-process_logs s'.log_batch (record s' { log_batch = [] }),
          kept-step s flush_all,
          kept_logs-step s flush_all,
          append-nil (delivered (flush s).blocks),
          append-nil (delivered_logs (flush s).blocks),
          append-nil (kept s),
          append-nil (kept_logs s),
        ))

  -- The state after one message, by whether the batch is full.
  step-room :
      (s : Storage A B) (m : A)
      → length s.msg_batch < s.batch_size
      → (length (step s (chat_message m)).msg_batch ≡ suc (length s.msg_batch))
        × (length (kept (step s (chat_message m))) ≡ suc (length (kept s)))
        × ((step s (chat_message m)).batch_size ≡ s.batch_size)
  unfolding step
  step-room s m h = ground (
    arith,
    length-append s.msg_batch (m ∷ []),
    ap length (kept-step s (chat_message m)),
    length-append (kept s) (m ∷ []),
  )

  step-full :
      (s : Storage A B) (m : A)
      → length s.msg_batch ≡ s.batch_size
      → (length (step s (chat_message m)).msg_batch ≡ 0)
        × (length (kept (step s (chat_message m))) ≡ length (kept s))
        × ((step s (chat_message m)).batch_size ≡ s.batch_size)
  unfolding step
  step-full s m h = ground (
    arith,
    rest-process_messages s.msg_batch (record s { msg_batch = [] }),
    ap length (kept-step s (chat_message m)),
    append-nil (kept s),
  )

  -- An agent whose message batch is not longer than the batch size receives `n` chat messages in a
  -- row: of the messages kept before and the `n` new ones, as many are lost as `batch_size + 1`
  -- goes into the length of the batch and `n` together; all others are kept.
  pub messages_lost :
      (ms : List A) (s : Storage A B)
      → length s.msg_batch ≤ s.batch_size
      → length (kept (run s (map chat_message ms)))
          + (length s.msg_batch + length ms) / suc s.batch_size
        ≡ length (kept s) + length ms
  unfolding run
  messages_lost [] s h =
      omega (arith, div-eq_of_lt {n = length s.msg_batch + 0} {m = suc s.batch_size} (omega arith))
  messages_lost (m ∷ ms) s h = elim (dec_lt (length s.msg_batch) s.batch_size) [
    | yes room ↦
        (let s' = step s (chat_message m) in
          let (b, k, n) = step-room s m room in
          let quotient : (length s'.msg_batch + length ms) / suc s'.batch_size
              ≡ (length s.msg_batch + suc (length ms)) / suc s.batch_size =
            ap₂ (λ x y. x / suc y) (omega (arith, b)) n in
          omega (arith, messages_lost ms s' (omega (arith, b, n)), quotient, k))
    | no full ↦
        (let s' = step s (chat_message m) in
          let (b, k, n) = step-full s m (omega arith) in
          let quotient : (length s'.msg_batch + length ms) / suc s'.batch_size
              ≡ length ms / suc s.batch_size =
            ap₂ (λ x y. x / suc y) (omega (arith, b)) n in
          let one_more : (length s.msg_batch + suc (length ms)) / suc s.batch_size
              ≡ length ms / suc s.batch_size + 1 =
            ap (λ x. x / suc s.batch_size) (omega arith)
            ∙ add-div_left (length ms) {k = suc s.batch_size} (omega arith) in
          omega (arith, messages_lost ms s' (omega (arith, b, n)), quotient, one_more, k))
  ]
