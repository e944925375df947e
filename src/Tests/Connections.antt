-- ===== src/Tests/Connections.antt =====
-- db/DBConnectionPool.cpp and irc/IRCSelectorPool.cpp: two connections, two selectors.
use twitch_chat_worker.Base.{
  ◌<◌, length, ℕ, ◌+◌, ◌≤◌, ◌≡◌, refl, ◌⊎◌, true, false, Option, none, some, List, [], ◌∷◌, arith,
  copies,
}
use twitch_chat_worker.Base.Key.{text_key, number_key, int_key}
use twitch_chat_worker.Db.{
  Pool, Steps, done, more, lock_takes, unlock, takes, nothing, lock_connection, take_front, created,
  is_empty, init,
}
use twitch_chat_worker.Db.Owners.{holders, one_owner, lock_connection_waits_for_holders}
use twitch_chat_worker.Irc.SelectorPool
use twitch_chat_worker.Irc.SelectorPool.{Selector, add_session, remove_session}
use twitch_chat_worker.Irc.SelectorPool.Places.{remove_session_faults}

-- The second of three connections could not be made.
abbrev made : List (Option ℕ)
made = some 5 ∷ none ∷ some 6 ∷ []

abbrev locked : Pool
locked = record { active = true; pool = 6 ∷ []; held = (1, 5) ∷ []; waiting = [] }

abbrev unlocked : Pool
unlocked = record { active = true; pool = 6 ∷ 5 ∷ []; held = []; waiting = [] }

to_locked : Steps (init made) locked
unfolding init created is_empty lock_connection take_front
to_locked =
    more (init made) (init made) locked (done (init made))
      (lock_takes 1 5 (6 ∷ []) (init made) refl)

to_unlocked : Steps (init made) unlocked
to_unlocked = more (init made) locked unlocked to_locked (unlock 1 5 [] [] locked refl)

one_owner_example : (holders 5 locked.held ≤ 1) × (holders 5 locked.held + copies 5 locked.pool ≤ 1)
unfolding created
one_owner_example = one_owner 5 made locked (omega arith) to_locked

lock_connection_waits_for_holders_example :
    (created made ≡ [] × (lock_connection unlocked ≡ nothing))
    ⊎ ((conn : ℕ) × (rest : List ℕ) × (0 < length (created made))
        × (lock_connection unlocked ≡ takes conn rest))
lock_connection_waits_for_holders_example =
    lock_connection_waits_for_holders made unlocked to_unlocked refl

abbrev selectors : SelectorPool.Pool
selectors = record {
  selectors =
      record { sessions = 11 ∷ []; copy = []; need_sync = true }
      ∷ record { sessions = []; copy = []; need_sync = false }
      ∷ [];
  cur = 1;
}

remove_session_faults_example : remove_session 11 selectors ≡ none
remove_session_faults_example = remove_session_faults 11 selectors (omega arith)
