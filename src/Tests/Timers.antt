-- ===== src/Tests/Timers.antt =====
-- Runs of common/Timer.cpp.
use twitch_chat_worker.Base.{suc, ◌≡◌, refl, some, [], ◌∷◌, length}
use twitch_chat_worker.Base.Key.{text_key, number_key, int_key}
use twitch_chat_worker.Timer.{
  Queue, insert, set_timer, set_interval, place, after_call, run_due, pass,
}
use twitch_chat_worker.Timer.Pass.{put_again, functions}
use twitch_chat_worker.Timer.Sorted.{
  due_of, later_of, pass_lem, Reached, fresh, timer, interval, Reached-IsSorted,
}

-- A function every 10 ms, set at 0, and one at 25.
abbrev two_timers : Queue
two_timers = set_timer 2 25 (set_interval 0 1 10 [])

two_timers-Reached : Reached two_timers
two_timers-Reached = timer 2 25 (interval 0 1 10 fresh)

late_pass :
    pass 3 30 two_timers ≡ some (1 ∷ 2 ∷ [], record { key = 40; function = 1; repeat = 10 } ∷ [])
unfolding set_timer set_interval insert run_due after_call place
late_pass = refl

pass_lem_example :
    pass (suc (length two_timers)) 30 two_timers
    ≡ some (
      functions (due_of 30 two_timers),
      put_again 30 (due_of 30 two_timers) (later_of 30 two_timers),
    )
pass_lem_example = pass_lem 30 two_timers (Reached-IsSorted two_timers two_timers-Reached)
