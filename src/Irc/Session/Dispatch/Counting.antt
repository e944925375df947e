-- ===== src/Irc/Session/Dispatch/Counting.antt =====
-- IRCSessionCallback.cpp: which of libircclient's calls are counted as commands.
use twitch_chat_worker.Base.{ℕ, ◌+◌, ◌%◌, ◌^◌, ◌≡◌, subst, Bool, some, List, [], ◌∷◌, ◌++◌, arith}
use twitch_chat_worker.Base.Key.{text_key, number_key, int_key}
use twitch_chat_worker.Base.Fault.{OnSome, OnSome-bind, OnSome-any}
use twitch_chat_worker.Irc.Session.{
  Session, Effect, drop_connection, on_send_data_len, on_recv_data_len, mark_logged_in,
}
use twitch_chat_worker.Irc.Session.Callbacks.{reported, reported-append, Counts, on_event-Counts}
use twitch_chat_worker.Irc.Session.Dispatch.{
  Slot, event_log, event_connect, event_disconnect, event_send_data, event_recv_data, event_login,
  Passed, callbacks, on_log, call, calls,
}

-- The calls that are about the connection, not about a command.
abbrev pub commands : Slot → ℕ
commands event_log = 0
commands event_connect = 0
commands event_disconnect = 0
commands event_send_data = 0
commands event_recv_data = 0
commands event_login = 0
commands _ = 1

abbrev pub all_commands : List (ℕ × Slot × Passed) → ℕ
all_commands [] = 0
all_commands ((now, slot, p) ∷ cs) = commands slot + all_commands cs

call-Counts :
    (traces : Bool) (now : ℕ) (slot : Slot) (p : Passed) (s : Session)
    → OnSome (Counts (commands slot) s) (call traces now slot p s)
unfolding call callbacks reported drop_connection on_send_data_len on_recv_data_len mark_logged_in
call-Counts traces now event_log p s =
    OnSome-bind (λ _. Unit) (Counts 0 s) (on_log traces p.line_length) _
      (OnSome-any (on_log traces p.line_length)) (λ _ _. omega arith)
call-Counts traces now event_connect p s = omega arith
call-Counts traces now event_disconnect p s = omega arith
call-Counts traces now event_send_data p s = omega arith
call-Counts traces now event_recv_data p s = omega arith
call-Counts traces now event_login p s = omega arith
call-Counts traces now _ p s = on_event-Counts now _ s

calls-Counts :
    (traces : Bool) (cs : List (ℕ × Slot × Passed)) (s : Session)
    → OnSome (Counts (all_commands cs) s) (calls traces cs s)
unfolding calls reported
calls-Counts traces [] s = omega arith
calls-Counts traces ((now, slot, p) ∷ cs) s =
    OnSome-bind (Counts (commands slot) s) (Counts (commands slot + all_commands cs) s)
      (call traces now slot p s) _ (call-Counts traces now slot p s)
      (λ x h.
        OnSome-bind (Counts (all_commands cs) x.0) (Counts (commands slot + all_commands cs) s)
          (calls traces cs x.0) (λ y. some (y.0, x.1 ++ y.1)) (calls-Counts traces cs x.0)
          (λ y k. omega (arith, h, k, reported-append x.1 y.1)))

-- Whatever libircclient calls, if no callback faults, no incoming command is lost from the
-- statistics: what the session has handed to its listener meanwhile and what it still keeps make
-- up what it kept before and one for each call but those for a line to log, the connection, the
-- data and the login, modulo 2^32.
pub calls-in_count :
    (traces : Bool) (cs : List (ℕ × Slot × Passed)) (s s' : Session) (out : List Effect)
    → calls traces cs s ≡ some (s', out)
    → (reported out + s'.stats_selector.in_count) % 2 ^ 32
      ≡ (s.stats_selector.in_count + all_commands cs) % 2 ^ 32
calls-in_count traces cs s s' out h =
    subst (OnSome (Counts (all_commands cs) s)) h (calls-Counts traces cs s)
