-- ===== src/Tests/Batches.antt =====
-- Storage.cpp with batches of two.
use twitch_chat_worker.Base.{ℕ, ◌≡◌, ◌+◌, ◌/◌, map, List, [], ◌∷◌, ◌++◌, arith, length}
use twitch_chat_worker.Storage.{
  Storage, Event, chat_message, bot_log_message, flush_all, messages, step, run,
}
use twitch_chat_worker.Storage.Loss.{kept, kept-step}
use twitch_chat_worker.Storage.Count.{IsBounded, messages_lost}

-- A batch of messages that is full, and one record.
abbrev storage : Storage ℕ ℕ
storage = record {
  msg_batch = 2 ∷ 3 ∷ [];
  log_batch = 8 ∷ [];
  batch_size = 2;
  blocks = messages (0 ∷ 1 ∷ []) ∷ [];
}

storage-IsBounded : IsBounded storage
storage-IsBounded = record { messages_fit = omega arith; logs_fit = omega arith }

abbrev events : List (Event ℕ ℕ)
events = chat_message 4 ∷ chat_message 5 ∷ bot_log_message 9 ∷ flush_all ∷ []

kept-step_example : kept (step storage (chat_message 4)) ≡ kept storage ++ []
kept-step_example = kept-step storage (chat_message 4)

-- Of the four messages that follow a full batch, the first and the fourth are lost.
messages_lost_example :
    length (kept (run storage (map chat_message (4 ∷ 5 ∷ 6 ∷ 7 ∷ [])))) + (2 + 4) / 3
    ≡ length (kept storage) + 4
messages_lost_example = messages_lost (4 ∷ 5 ∷ 6 ∷ 7 ∷ []) storage (omega arith)
