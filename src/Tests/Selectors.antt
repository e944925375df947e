-- ===== src/Tests/Selectors.antt =====
-- A run of irc/IRCSelector.cpp.
use twitch_chat_worker.Base.{◌+◌, ◌≤◌, refl, ◌≢◌, true, [], ◌∷◌}
use twitch_chat_worker.Base.Key.{text_key, number_key, int_key}
use twitch_chat_worker.Irc.SelectorPool.{sync, add_to_selector, erase_found, remove_from_selector}
use twitch_chat_worker.Irc.SelectorPool.Loop.{
  at_head, synced, Thread, Answers, add_descriptors, advance, Steps, begins, loops, adds, removes,
  Reachable, count,
}
use twitch_chat_worker.Irc.SelectorPool.Loop.Removed.{debt, removed-processed}

-- A session that is removed while the selector waits.
abbrev one_descriptor : Answers
one_descriptor = record { connected = λ session. true; descriptor = λ session. 5 }

abbrev held : Thread
held = record {
  selector = record { sessions = []; copy = 7 ∷ []; need_sync = true };
  phase = synced;
  processed = [];
}

held-Reachable : Reachable held
unfolding advance sync add_to_selector remove_from_selector erase_found
held-Reachable = removes 7 held.selector refl (loops one_descriptor (adds 7 tt begins))

abbrev once_more : Thread
once_more = record held { phase = at_head; processed = 7 ∷ [] }

held_goes_on : Steps (λ other. other ≢ 7) held once_more
unfolding advance add_descriptors
held_goes_on = loops one_descriptor (loops one_descriptor (loops one_descriptor begins))

removed-processed_example :
    count 7 once_more.processed ≤ count 7 held.processed + debt 7 held.phase held.selector.copy
removed-processed_example = removed-processed 7 held once_more held-Reachable refl held_goes_on
