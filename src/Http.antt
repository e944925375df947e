-- ===== src/Http.antt =====
-- http/client, http/server and http/details: what the HTTP client and server share. The operations of
-- Boost are started by the code and completed by Boost; what a completion brings is given.
pub mod Client
pub mod Server
pub mod Auth
pub mod Listener
use twitch_chat_worker.Base.{
  ℕ, zero, suc, ◌+◌, ◌-◌, ◌*◌, ◌/◌, ◌%◌, ◌^◌, ◌≤◌, ◌<◌, ◌≡◌, refl, sym, ap, ap₂, subst, ◌∙◌, ◌≢◌,
  ◌↔◌, ◌⊎◌, inl, inr, Bool, true, false, ◌&&◌, ◌||◌, not, Option, none, some, List, [], ◌∷◌, ◌++◌,
  map, append-nil, append_assoc, arith, u32_mod, add32, ltb, leb, eqb, if◌then◌else◌, Bool-cases,
  eqb_iff, length, replicate, take-all, length-append, length-replicate, max, get_elem?, take,
  filter, All, All-append,
}
use twitch_chat_worker.Base.Key.{Text, codes, text_key, number_key, int_key, ◌==◌, eq_iff, eq_refl}
use twitch_chat_worker.Base.Int.{ℤ, pos, negsuc}
use twitch_chat_worker.Base.Dict.{
  Dict, lookup, has, insert_at, emplace, update, erase, lookup-emplace, lookup-update, lookup-erase,
  value_or, lookup-update-emplace,
}
use twitch_chat_worker.Base.Fault.{◌>>=◌, OnSome, OnSome-bind, OnSome-any, OnSome-map}
use twitch_chat_worker.Base

-- `beast::error_code`, as far as the code tells them apart; `success` is the one that is false.
pub data ErrorCode : Type 0 where
  success eof not_connected stream_truncated timeout end_of_stream : ErrorCode
  other_error : ℕ → ErrorCode

-- The alternatives of `stream`.
pub data Stream : Type 0 where
  tcp ssl : Stream

-- What is logged: the context and the error.
abbrev pub Errors : Type 0
Errors = List (Text × ErrorCode)

-- `logError` of both sessions
unfoldable pub log_error : ErrorCode → Text → Errors → Errors
log_error stream_truncated context errors = errors
log_error timeout context errors = errors
log_error success context errors = errors ++ (context, success) ∷ []
log_error eof context errors = errors ++ (context, eof) ∷ []
log_error not_connected context errors = errors ++ (context, not_connected) ∷ []
log_error end_of_stream context errors = errors ++ (context, end_of_stream) ∷ []
log_error (other_error n) context errors = errors ++ (context, other_error n) ∷ []

-- `if (ec)`
abbrev pub is_error : ErrorCode → Bool
is_error success = false
is_error _ = true

-- Operations that run until they complete, and the shutdown of a TCP stream, which does not.
pub data Operation : Type 0 where
  resolve connect handshake read write shutdown : Operation
