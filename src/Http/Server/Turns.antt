-- ===== src/Http/Server/Turns.antt =====
-- HTTPServerSession: requests and responses take turns.
pub mod Served
use twitch_chat_worker.Base.{
  ℕ, zero, suc, ◌+◌, ◌-◌, ◌*◌, ◌/◌, ◌%◌, ◌^◌, ◌≤◌, ◌<◌, ◌≡◌, refl, sym, ap, ap₂, subst, ◌∙◌, ◌≢◌,
  ◌↔◌, ◌⊎◌, inl, inr, Bool, true, false, ◌&&◌, ◌||◌, not, Option, none, some, List, [], ◌∷◌, ◌++◌,
  map, append-nil, append_assoc, arith, u32_mod, add32, ltb, leb, eqb, if◌then◌else◌, Bool-cases,
  Option-cases, eqb_iff, length, replicate, take-all, length-append, length-replicate, max,
  get_elem?, get_elem?-none, take, filter, All, All-append,
}
use twitch_chat_worker.Base.Key.{Text, codes, text_key, number_key, int_key, ◌==◌, eq_iff, eq_refl}
use twitch_chat_worker.Base.Int.{ℤ, pos, negsuc}
use twitch_chat_worker.Base.Dict.{
  Dict, lookup, has, insert_at, emplace, update, erase, lookup-emplace, lookup-update, lookup-erase,
  value_or, lookup-update-emplace,
}
use twitch_chat_worker.Base.Fault.{◌>>=◌, OnSome, OnSome-bind, OnSome-any, OnSome-map}
use twitch_chat_worker.Http.{
  ErrorCode, success, eof, not_connected, stream_truncated, timeout, end_of_stream, other_error,
  Stream, tcp, ssl, Errors, log_error, is_error,
}
use twitch_chat_worker.Http.Server.{
  Message, Waiting, dispatched, handshaking, reading, responding, shutting_down, writing, Session,
  Event, completes, responds, run, start_read, start, handshake, on_shutdown, close, on_read, send,
  on_write, handle, step, steps,
}

-- As many messages have been written as requests handed over.
abbrev pub IsEven : Session → Type 0
IsEven s = length s.sent ≡ length s.handed

-- A request is read into an empty one. One request is without its response while the handler has it,
-- and the message that is written is the one that the session keeps.
abbrev pub Turn : Option Waiting → Session → Type 0
Turn none s = IsEven s
Turn (some dispatched) s = IsEven s × (s.response ≡ none)
Turn (some handshaking) s = IsEven s × (s.response ≡ none)
Turn (some reading) s = IsEven s × (s.response ≡ none) × (s.request ≡ none)
Turn (some responding) s = (length s.handed ≡ suc (length s.sent)) × (s.response ≡ none)
Turn (some shutting_down) s = IsEven s
Turn (some (writing need_eof)) s =
    IsEven s
    × ((msg : Message) × (before : List Message) × (s.response ≡ some msg)
        × (s.sent ≡ before ++ msg ∷ [])
        × (need_eof ≡ msg.need_eof))

abbrev pub TakesTurns : Session → Type 0
TakesTurns s = Turn s.waiting s

pub Stream-cases : (st : Stream) → (st ≡ tcp) ⊎ (st ≡ ssl)
Stream-cases tcp = inl refl
Stream-cases ssl = inr refl

-- While a handler runs, the session waits for nothing.
abbrev pub idle : Session → Session
idle s = record s { waiting = none }

start-TakesTurns : (s : Session) → IsEven s → s.response ≡ none → TakesTurns (start (idle s))
unfolding start start_read
start-TakesTurns s h r = elim (Stream-cases s.stream) [
  | inl q ↦ rw (q, start) (h, r, refl)
  | inr q ↦ rw (q, start) (h, r)
]

handshake-TakesTurns :
    (ec : ErrorCode) (s : Session)
    → IsEven s
    → s.response ≡ none
    → TakesTurns (handshake ec (idle s))
unfolding handshake start_read
handshake-TakesTurns ec s h r = elim (Bool-cases (is_error ec)) [
  | inl q ↦ rw (q, handshake) h
  | inr q ↦ rw (q, handshake) (h, r, refl)
]

on_shutdown-TakesTurns :
    (ec : ErrorCode) (s : Session) → IsEven s → TakesTurns (on_shutdown ec (idle s))
unfolding on_shutdown
on_shutdown-TakesTurns ec s h = elim (Bool-cases (is_error ec)) [
  | inl q ↦ rw (q, on_shutdown) h
  | inr q ↦ rw (q, on_shutdown) h
]

close-TakesTurns : (ec : ErrorCode) (s : Session) → IsEven s → TakesTurns (close ec (idle s))
unfolding close
close-TakesTurns ec s h = elim (Stream-cases s.stream) [
  | inl q ↦ rw (q, close) (on_shutdown-TakesTurns ec s h)
  | inr q ↦ rw (q, close) h
]

on_read-TakesTurns :
    (ec shutdown_ec : ErrorCode) (request : Text) (s : Session)
    → IsEven s
    → s.response ≡ none
    → TakesTurns (on_read ec request shutdown_ec (idle s))
unfolding on_read
on_read-TakesTurns end_of_stream shutdown_ec request s h r = close-TakesTurns shutdown_ec s h
on_read-TakesTurns success shutdown_ec request s h r =
    (omega (arith, h, length-append s.handed (request ∷ [])), r)
on_read-TakesTurns eof shutdown_ec request s h r = h
on_read-TakesTurns not_connected shutdown_ec request s h r = h
on_read-TakesTurns stream_truncated shutdown_ec request s h r = h
on_read-TakesTurns timeout shutdown_ec request s h r = h
on_read-TakesTurns (other_error n) shutdown_ec request s h r = h

send-TakesTurns :
    (msg : Message) (s : Session)
    → length s.handed ≡ suc (length s.sent)
    → TakesTurns (send msg (idle s))
unfolding send
send-TakesTurns msg s h =
    (omega (arith, h, length-append s.sent (msg ∷ [])), (msg, s.sent, refl, refl, refl))

on_write-TakesTurns :
    (need_eof : Bool) (ec shutdown_ec : ErrorCode) (s : Session)
    → IsEven s
    → TakesTurns (on_write need_eof ec shutdown_ec (idle s))
unfolding on_write start_read
on_write-TakesTurns true ec shutdown_ec s h = elim (Bool-cases (is_error ec)) [
  | inl q ↦ rw (q, on_write) h
  | inr q ↦ rw (q, on_write) (close-TakesTurns shutdown_ec s h)
]
on_write-TakesTurns false ec shutdown_ec s h = elim (Bool-cases (is_error ec)) [
  | inl q ↦ rw (q, on_write) h
  | inr q ↦ rw (q, on_write) (h, refl, refl)
]

handle-TakesTurns :
    (w : Waiting) (e : Event) (s : Session) → Turn (some w) s → TakesTurns (handle w e (idle s))
handle-TakesTurns dispatched (completes ec request shutdown_ec) s (h, r) = start-TakesTurns s h r
handle-TakesTurns handshaking (completes ec request shutdown_ec) s (h, r) =
    handshake-TakesTurns ec s h r
handle-TakesTurns reading (completes ec request shutdown_ec) s (h, r, _) =
    on_read-TakesTurns ec shutdown_ec request s h r
handle-TakesTurns responding (completes ec request shutdown_ec) s h = h
handle-TakesTurns shutting_down (completes ec request shutdown_ec) s h =
    on_shutdown-TakesTurns ec s h
handle-TakesTurns (writing need_eof) (completes ec request shutdown_ec) s (h, _) =
    on_write-TakesTurns need_eof ec shutdown_ec s h
handle-TakesTurns dispatched (responds msg) s h = h
handle-TakesTurns handshaking (responds msg) s h = h
handle-TakesTurns reading (responds msg) s h = h
handle-TakesTurns responding (responds msg) s (h, _) = send-TakesTurns msg s h
handle-TakesTurns shutting_down (responds msg) s h = h
handle-TakesTurns (writing need_eof) (responds msg) s h = h

pub step-none : (e : Event) (s : Session) → s.waiting ≡ none → step e s ≡ s
unfolding step
step-none e s h =
    ap (λ o. elim o [ none ↦ s | some w ↦ handle w e (record s { waiting = none }) ]) h

pub step-some :
    (w : Waiting) (e : Event) (s : Session) → s.waiting ≡ some w → step e s ≡ handle w e (idle s)
unfolding step
step-some w e s h =
    ap (λ o. elim o [ none ↦ s | some w ↦ handle w e (record s { waiting = none }) ]) h

step-TakesTurns : (e : Event) (s : Session) → TakesTurns s → TakesTurns (step e s)
step-TakesTurns e s h = elim (Option-cases s.waiting) [
  | inl q ↦ subst TakesTurns (sym (step-none e s q)) h
  | inr (w, q) ↦
      subst TakesTurns (sym (step-some w e s q))
        (handle-TakesTurns w e s (subst (λ o. Turn o s) q h))
]

-- After any events on a new session, each request handed over has got its response unless the
-- handler has it at this moment, a request is read only into an empty one with no response left,
-- and the message being written is the last one sent and the one that the session keeps.
pub steps-TakesTurns : (stream : Stream) (es : List Event) → TakesTurns (steps es (run stream))
unfolding steps
steps-TakesTurns stream es = from es (run stream) (refl, refl)
  where
    from : (es : List Event) (s : Session) → TakesTurns s → TakesTurns (steps es s)
    from [] s h = h
    from (e ∷ es) s h = from es (step e s) (step-TakesTurns e s h)
