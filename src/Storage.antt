-- ===== src/Storage.antt =====
-- Storage.h and Storage.cpp: chat messages and bot log records are collected in batches, which go to
-- ClickHouse as blocks. Both kinds are handled alike; what they consist of does not matter here.
-- A handler swaps a batch out under its mutex, so one event is one step; `blocks` is what has been
-- handed to `CHConnection::insert`, in this order.
pub mod Loss
pub mod Count
use twitch_chat_worker.Base.{ℕ, Bool, true, false, List, [], ◌∷◌, ◌++◌, length, ltb, if◌then◌else◌}

pub data Block (A B : Type 0) : Type 0 where
  messages : List A → Block A B
  logs : List B → Block A B

pub record Storage (A B : Type 0) : Type 0 where
  pub msg_batch : List A
  pub log_batch : List B
  pub batch_size : ℕ
  pub blocks : List (Block A B)

-- What the agent receives: `evtChatMessage`, `evtBotLogMessage` and the flushes.
pub data Event (A B : Type 0) : Type 0 where
  chat_message : A → Event A B
  bot_log_message : B → Event A B
  flush_chat_messages flush_bot_log_messages flush_all : Event A B

pub init : (A B : Type 0) → ℕ → Storage A B
init A B batch_size = record {
  msg_batch = [];
  log_batch = [];
  batch_size = batch_size;
  blocks = [];
}

module _ {A B : Type 0} where
  -- `process(const MessageBatch &)`
  pub process_messages : List A → Storage A B → Storage A B
  process_messages [] s = s
  process_messages (m ∷ batch) s = record s { blocks = s.blocks ++ messages (m ∷ batch) ∷ [] }

  -- `process(const BotLogBatch &)`
  pub process_logs : List B → Storage A B → Storage A B
  process_logs [] s = s
  process_logs (r ∷ batch) s = record s { blocks = s.blocks ++ logs (r ∷ batch) ∷ [] }

  -- `store(ChatMessageHolder &&)`
  pub store_message : A → Storage A B → Storage A B
  unfolding process_messages
  store_message m s =
      if ltb (length s.msg_batch) s.batch_size
      then record s { msg_batch = s.msg_batch ++ m ∷ [] }
      else process_messages s.msg_batch (record s { msg_batch = [] })

  -- `store(BotLogHolder &&)`
  pub store_log : B → Storage A B → Storage A B
  unfolding process_logs
  store_log r s =
      if ltb (length s.log_batch) s.batch_size
      then record s { log_batch = s.log_batch ++ r ∷ [] }
      else process_logs s.log_batch (record s { log_batch = [] })

  pub evt_flush_chat_messages : Storage A B → Storage A B
  unfolding process_messages
  evt_flush_chat_messages s = process_messages s.msg_batch (record s { msg_batch = [] })

  pub evt_flush_bot_log_messages : Storage A B → Storage A B
  unfolding process_logs
  evt_flush_bot_log_messages s = process_logs s.log_batch (record s { log_batch = [] })

  -- `flush`, the body of `evtFlushAll` and of `so_evt_finish`
  pub flush : Storage A B → Storage A B
  unfolding process_messages process_logs
  flush s =
      let s' = process_messages s.msg_batch (record s { msg_batch = [] }) in
      process_logs s'.log_batch (record s' { log_batch = [] })

  pub step : Storage A B → Event A B → Storage A B
  unfolding store_message store_log evt_flush_chat_messages evt_flush_bot_log_messages flush
  step s (chat_message m) = store_message m s
  step s (bot_log_message r) = store_log r s
  step s flush_chat_messages = evt_flush_chat_messages s
  step s flush_bot_log_messages = evt_flush_bot_log_messages s
  step s flush_all = flush s

  pub run : Storage A B → List (Event A B) → Storage A B
  run s [] = s
  run s (e ∷ es) = run (step s e) es
