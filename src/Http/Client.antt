-- ===== src/Http/Client.antt =====
-- http/client/HTTPClientSession.h and .cpp, and HTTPClient::exec: a request and its response as the
-- operations of a session. A response is a text.
pub mod Handlers
pub mod Sent
pub mod Positions
pub mod Exchange
use twitch_chat_worker.Base.{
  ℕ, zero, suc, ◌+◌, ◌-◌, ◌*◌, ◌/◌, ◌%◌, ◌^◌, ◌≤◌, ◌<◌, ◌≡◌, refl, sym, ap, ap₂, subst, ◌∙◌, ◌≢◌,
  ◌↔◌, ◌⊎◌, inl, inr, Bool, true, false, ◌&&◌, ◌||◌, not, Option, none, some, List, [], ◌∷◌, ◌++◌,
  map, append-nil, append_assoc, arith, u32_mod, add32, ltb, leb, eqb, if◌then◌else◌, Bool-cases,
  eqb_iff, length, replicate, take-all, length-append, length-replicate, max, get_elem?, take,
  filter, All, All-append,
}
use twitch_chat_worker.Base.Key.{Text, codes, text_key, number_key, int_key, ◌==◌, eq_iff, eq_refl}
use twitch_chat_worker.Base.Int.{ℤ, pos, negsuc}
use twitch_chat_worker.Base.Dict.{
  Dict, lookup, has, insert_at, emplace, update, erase, lookup-emplace, lookup-update, lookup-erase,
  value_or, lookup-update-emplace,
}
use twitch_chat_worker.Base.Fault.{◌>>=◌, OnSome, OnSome-bind, OnSome-any, OnSome-map}
use twitch_chat_worker.Base
use twitch_chat_worker.RequestFactory.{Request}
use twitch_chat_worker.Http.{
  ErrorCode, success, eof, not_connected, stream_truncated, timeout, end_of_stream, other_error,
  Stream, tcp, ssl, Errors, log_error, is_error, Operation, resolve, connect, handshake, read,
  write, shutdown,
}

pub record Session : Type 0 where
  pub stream : Stream
  -- `none`: the empty request of a new session
  pub request : Option Request
  pub response : Text
  -- the operation that has not completed
  pub pending : Option Operation
  -- all operations started, the first one first
  pub started : List Operation
  -- what `async_write` has been given
  pub written : List (Option Request)
  -- the seconds that `expires_after` has set last
  pub expires_after : ℕ
  pub errors : Errors

-- What a completion brings: its error, the response of a read, and the error of the `shutdown`
-- that a TCP stream is closed with.
pub record Completion : Type 0 where
  pub ec : ErrorCode
  pub response : Text
  pub shutdown_ec : ErrorCode

abbrev pub new_session : Stream → Session
new_session stream = record {
  stream = stream;
  request = none;
  response = [];
  pending = none;
  started = [];
  written = [];
  expires_after = 0;
  errors = [];
}

abbrev pub start : Operation → Session → Session
start op s = record s { pending = some op; started = s.started ++ op ∷ [] }

abbrev pub start_write : Session → Session
start_write s = start write (record s { written = s.written ++ s.request ∷ [] })

abbrev log : ErrorCode → Text → Session → Session
log ec context s = record s { errors = log_error ec context s.errors }

abbrev run_resolve : Request → Session → Session
run_resolve request s = start resolve (record s { request = some request })

-- `run`; for SSL, by whether the host name can be set, and the error if not.
unfoldable pub run : Bool → ErrorCode → Request → Session → Session
unfolding log_error
run set_host_name ec request s = elim s.stream [
  | tcp ↦ run_resolve request s
  | ssl ↦ if not set_host_name then log ec (codes "SSL SNI Hostname") s else run_resolve request s
]

-- `onResolve`
unfoldable pub on_resolve : ErrorCode → Session → Session
on_resolve ec s =
    if is_error ec
    then log ec (codes "resolve") s
    else start connect (record s { expires_after = 30 })

-- `onConnect`
unfoldable pub on_connect : ErrorCode → Session → Session
on_connect ec s = if is_error ec then log ec (codes "connect") s else elim s.stream [
  | tcp ↦ start_write (record s { expires_after = 5 })
  | ssl ↦ start handshake s
]

-- `onHandshake`
unfoldable pub on_handshake : ErrorCode → Session → Session
on_handshake ec s =
    if is_error ec
    then log ec (codes "handshake") s
    else start_write (record s { expires_after = 30 })

-- `onWrite`
unfoldable pub on_write : ErrorCode → Session → Session
on_write ec s = if is_error ec then log ec (codes "write") s else start read s

-- `onShutdown`
unfoldable pub on_shutdown : ErrorCode → Session → Session
on_shutdown success s = s
on_shutdown eof s = s
on_shutdown not_connected s = s
on_shutdown ec s = log ec (codes "Failed shutdown") s

-- `close`: a TCP stream is shut down at once.
unfoldable pub close : ErrorCode → Session → Session
unfolding on_shutdown
close shutdown_ec s = elim s.stream [
  | tcp ↦ on_shutdown shutdown_ec (record s { started = s.started ++ shutdown ∷ [] })
  | ssl ↦ start shutdown (record s { expires_after = 30 })
]

-- `onRead`; what has been read of the response is in it also after an error.
unfoldable pub on_read : Completion → Session → Session
unfolding close
on_read c s =
    let s = record s { response = c.response } in
    if is_error c.ec then log c.ec (codes "read") s else close c.shutdown_ec s

abbrev handle : Operation → Completion → Session → Session
handle resolve c s = on_resolve c.ec s
handle connect c s = on_connect c.ec s
handle handshake c s = on_handshake c.ec s
handle write c s = on_write c.ec s
handle read c s = on_read c s
handle shutdown c s = on_shutdown c.ec s

-- The pending operation completes, which calls its handler.
unfoldable pub complete : Completion → Session → Session
complete c s = elim s.pending [ none ↦ s | some op ↦ handle op c (record s { pending = none }) ]

unfoldable pub complete_all : List Completion → Session → Session
complete_all [] s = s
complete_all (c ∷ cs) s = complete_all cs (complete c s)

-- `HTTPClient::exec`, by what `run` is answered, up to the loop of the session's own `io_context`.
unfoldable pub exec : Bool → ErrorCode → Request → Session
unfolding run
exec set_host_name ec request =
    if request.scheme == codes "https" || eqb request.port 443
    then run set_host_name ec request (new_session ssl)
    else run set_host_name ec request (new_session tcp)
