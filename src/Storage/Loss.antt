-- ===== src/Storage/Loss.antt =====
-- Which messages reach the data base.
use twitch_chat_worker.Base.{
  ◌≡◌, refl, sym, ap, ◌∙◌, List, [], ◌∷◌, ◌++◌, append-nil, append_assoc, length, ltb,
  if◌then◌else◌, arith,
}
use twitch_chat_worker.Storage.{
  Block, messages, logs, Storage, Event, chat_message, bot_log_message, flush_chat_messages,
  flush_bot_log_messages, flush_all, process_messages, process_logs, evt_flush_chat_messages,
  evt_flush_bot_log_messages, step,
}

module _ {A B : Type 0} where
  -- The chat messages in the blocks, and the log records in them.
  unfoldable pub delivered : List (Block A B) → List A
  delivered [] = []
  delivered (messages batch ∷ bs) = batch ++ delivered bs
  delivered (logs batch ∷ bs) = delivered bs

  unfoldable pub delivered_logs : List (Block A B) → List B
  delivered_logs [] = []
  delivered_logs (messages batch ∷ bs) = delivered_logs bs
  delivered_logs (logs batch ∷ bs) = batch ++ delivered_logs bs

  delivered-append :
      (xs ys : List (Block A B)) → delivered (xs ++ ys) ≡ delivered xs ++ delivered ys
  unfolding delivered
  delivered-append [] ys = refl
  delivered-append (messages batch ∷ xs) ys =
      rw (delivered-append xs ys) (sym (append_assoc batch (delivered xs) (delivered ys)))
  delivered-append (logs batch ∷ xs) ys = delivered-append xs ys

  delivered_logs-append :
      (xs ys : List (Block A B))
      → delivered_logs (xs ++ ys) ≡ delivered_logs xs ++ delivered_logs ys
  unfolding delivered_logs
  delivered_logs-append [] ys = refl
  delivered_logs-append (messages batch ∷ xs) ys = delivered_logs-append xs ys
  delivered_logs-append (logs batch ∷ xs) ys =
      rw (delivered_logs-append xs ys)
        (sym (append_assoc batch (delivered_logs xs) (delivered_logs ys)))

  -- The messages that the agent has not lost: those in blocks, then those that wait.
  abbrev pub kept : Storage A B → List A
  kept s = delivered s.blocks ++ s.msg_batch

  abbrev pub kept_logs : Storage A B → List B
  kept_logs s = delivered_logs s.blocks ++ s.log_batch

  -- What the event adds: a message or a record that finds its batch not full.
  abbrev pub taken : Storage A B → Event A B → List A
  taken s (chat_message m) = if ltb (length s.msg_batch) s.batch_size then m ∷ [] else []
  taken s e = []

  abbrev pub taken_logs : Storage A B → Event A B → List B
  taken_logs s (bot_log_message r) = if ltb (length s.log_batch) s.batch_size then r ∷ [] else []
  taken_logs s e = []

  kept-process_messages :
      (batch : List A) (s : Storage A B)
      → delivered (process_messages batch s).blocks ≡ delivered s.blocks ++ batch
  unfolding process_messages delivered
  kept-process_messages [] s = sym (append-nil (delivered s.blocks))
  kept-process_messages (m ∷ batch) s =
      delivered-append s.blocks (messages (m ∷ batch) ∷ [])
      ∙ ap (◌++◌ (delivered s.blocks)) (append-nil (m ∷ batch))

  delivered-process_logs :
      (batch : List B) (s : Storage A B)
      → delivered (process_logs batch s).blocks ≡ delivered s.blocks
  unfolding process_logs delivered
  delivered-process_logs [] s = refl
  delivered-process_logs (r ∷ batch) s =
      delivered-append s.blocks (logs (r ∷ batch) ∷ []) ∙ append-nil (delivered s.blocks)

  delivered_logs-process_logs :
      (batch : List B) (s : Storage A B)
      → delivered_logs (process_logs batch s).blocks ≡ delivered_logs s.blocks ++ batch
  unfolding process_logs delivered_logs
  delivered_logs-process_logs [] s = sym (append-nil (delivered_logs s.blocks))
  delivered_logs-process_logs (r ∷ batch) s =
      delivered_logs-append s.blocks (logs (r ∷ batch) ∷ [])
      ∙ ap (◌++◌ (delivered_logs s.blocks)) (append-nil (r ∷ batch))

  delivered_logs-process_messages :
      (batch : List A) (s : Storage A B)
      → delivered_logs (process_messages batch s).blocks ≡ delivered_logs s.blocks
  unfolding process_messages delivered_logs
  delivered_logs-process_messages [] s = refl
  delivered_logs-process_messages (m ∷ batch) s =
      delivered_logs-append s.blocks (messages (m ∷ batch) ∷ [])
      ∙ append-nil (delivered_logs s.blocks)

  pub rest-process_messages :
      (batch : List A) (s : Storage A B)
      → ((process_messages batch s).msg_batch ≡ s.msg_batch)
        × ((process_messages batch s).log_batch ≡ s.log_batch)
        × ((process_messages batch s).batch_size ≡ s.batch_size)
  unfolding process_messages
  rest-process_messages [] s = (refl, refl, refl)
  rest-process_messages (m ∷ batch) s = (refl, refl, refl)

  pub rest-process_logs :
      (batch : List B) (s : Storage A B)
      → ((process_logs batch s).msg_batch ≡ s.msg_batch)
        × ((process_logs batch s).log_batch ≡ s.log_batch)
        × ((process_logs batch s).batch_size ≡ s.batch_size)
  unfolding process_logs
  rest-process_logs [] s = (refl, refl, refl)
  rest-process_logs (r ∷ batch) s = (refl, refl, refl)

  kept-flush_chat_messages : (s : Storage A B) → kept (evt_flush_chat_messages s) ≡ kept s ++ []
  unfolding evt_flush_chat_messages
  kept-flush_chat_messages s = ground (
    arith,
    append-nil (kept s),
    append-nil (delivered s.blocks ++ s.msg_batch),
    kept-process_messages s.msg_batch (record s { msg_batch = [] }),
    rest-process_messages s.msg_batch (record s { msg_batch = [] }),
  )

  kept-flush_bot_log_messages :
      (s : Storage A B) → kept (evt_flush_bot_log_messages s) ≡ kept s ++ []
  unfolding evt_flush_bot_log_messages
  kept-flush_bot_log_messages s = ground (
    arith,
    append-nil (kept s),
    delivered-process_logs s.log_batch (record s { log_batch = [] }),
    rest-process_logs s.log_batch (record s { log_batch = [] }),
  )

  -- Each event keeps all messages that were kept, in their order, and adds the one that it brings if
  -- and only if the batch is not full; a message that finds the batch full is in no block and in no
  -- batch.
  pub kept-step : (s : Storage A B) (e : Event A B) → kept (step s e) ≡ kept s ++ taken s e
  unfolding step
  kept-step s (chat_message m) = ground (
    arith,
    append_assoc (delivered s.blocks) s.msg_batch (m ∷ []),
    kept-process_messages s.msg_batch (record s { msg_batch = [] }),
    rest-process_messages s.msg_batch (record s { msg_batch = [] }),
  )
  kept-step s (bot_log_message r) = ground (
    arith,
    append-nil (kept s),
    delivered-process_logs s.log_batch (record s { log_batch = [] }),
    rest-process_logs s.log_batch (record s { log_batch = [] }),
  )
  kept-step s flush_chat_messages = kept-flush_chat_messages s
  kept-step s flush_bot_log_messages = kept-flush_bot_log_messages s
  kept-step s flush_all =
      let s' = evt_flush_chat_messages s in
      kept-flush_bot_log_messages s' ∙ append-nil (kept s') ∙ kept-flush_chat_messages s

  kept_logs-flush_chat_messages :
      (s : Storage A B) → kept_logs (evt_flush_chat_messages s) ≡ kept_logs s ++ []
  unfolding evt_flush_chat_messages
  kept_logs-flush_chat_messages s = ground (
    arith,
    append-nil (kept_logs s),
    delivered_logs-process_messages s.msg_batch (record s { msg_batch = [] }),
    rest-process_messages s.msg_batch (record s { msg_batch = [] }),
  )

  kept_logs-flush_bot_log_messages :
      (s : Storage A B) → kept_logs (evt_flush_bot_log_messages s) ≡ kept_logs s ++ []
  unfolding evt_flush_bot_log_messages
  kept_logs-flush_bot_log_messages s = ground (
    arith,
    append-nil (kept_logs s),
    append-nil (delivered_logs s.blocks ++ s.log_batch),
    delivered_logs-process_logs s.log_batch (record s { log_batch = [] }),
    rest-process_logs s.log_batch (record s { log_batch = [] }),
  )

  -- Each event keeps all records of the bots' log that were kept, in their order, and adds the one
  -- that it brings if and only if the batch is not full.
  pub kept_logs-step :
      (s : Storage A B) (e : Event A B) → kept_logs (step s e) ≡ kept_logs s ++ taken_logs s e
  unfolding step
  kept_logs-step s (chat_message m) = ground (
    arith,
    append-nil (kept_logs s),
    delivered_logs-process_messages s.msg_batch (record s { msg_batch = [] }),
    rest-process_messages s.msg_batch (record s { msg_batch = [] }),
  )
  kept_logs-step s (bot_log_message r) = ground (
    arith,
    append_assoc (delivered_logs s.blocks) s.log_batch (r ∷ []),
    delivered_logs-process_logs s.log_batch (record s { log_batch = [] }),
    rest-process_logs s.log_batch (record s { log_batch = [] }),
  )
  kept_logs-step s flush_chat_messages = kept_logs-flush_chat_messages s
  kept_logs-step s flush_bot_log_messages = kept_logs-flush_bot_log_messages s
  kept_logs-step s flush_all =
      let s' = evt_flush_chat_messages s in
      kept_logs-flush_bot_log_messages s'
      ∙ append-nil (kept_logs s')
      ∙ kept_logs-flush_chat_messages s
