-- ===== src/Tests/Https.antt =====
-- Runs of http/client and http/server.
use twitch_chat_worker.Base.{
  ℕ, zero, suc, ◌+◌, ◌-◌, ◌*◌, ◌/◌, ◌%◌, ◌^◌, ◌≤◌, ◌<◌, ◌≡◌, refl, sym, ap, ap₂, subst, ◌∙◌, ◌≢◌,
  ◌↔◌, ◌⊎◌, inl, inr, Bool, true, false, ◌&&◌, ◌||◌, not, Option, none, some, List, [], ◌∷◌, ◌++◌,
  map, append-nil, append_assoc, arith, u32_mod, add32, ltb, leb, eqb, if◌then◌else◌, Bool-cases,
  Option-cases, eqb_iff, length, replicate, take-all, length-append, length-replicate, max,
  get_elem?, get_elem?-none, drop, take, filter, All, All-append,
}
use twitch_chat_worker.Base.Key.{Text, codes, text_key, number_key, int_key, ◌==◌, eq_iff, eq_refl}
use twitch_chat_worker.RequestFactory.{Request}
use twitch_chat_worker.HttpController.{channel_join, sends}
use twitch_chat_worker.HttpController.Paths.{StartsWith}
use twitch_chat_worker.Http.{success, timeout, ssl, resolve, connect, handshake}
use twitch_chat_worker.Http.Client.{
  Completion, exec, complete, complete_all, run, on_resolve, on_connect, on_handshake,
}
use twitch_chat_worker.Http.Client.Handlers.{path, asyncs, successes}
use twitch_chat_worker.Http.Client.Sent.{sent}
use twitch_chat_worker.Http.Client.Exchange.{stream_for, exec_lem}
use twitch_chat_worker.Http.Server
use twitch_chat_worker.Http.Server.{Message, completes, responds, steps}
use twitch_chat_worker.Http.Server.Turns.{TakesTurns, steps-TakesTurns}
use twitch_chat_worker.Http.Server.Turns.Served.{
  Exchange, opening, exchanged, until_eof, requests, messages, served_lem,
}
use twitch_chat_worker.Http.Auth.{Config, passes, handle_request}
use twitch_chat_worker.Http.Auth.Basic.{HasAccess, handle_request-passes}

abbrev get_page : Request
get_page = record {
  method = codes "GET";
  target = codes "/";
  scheme = codes "https";
  host = codes "a.b";
  port = 443;
  version = 11;
  keep_alive = false;
  fields = [];
  body = [];
  content_length = none;
}

abbrev good : Completion
good = record { ec = success; response = []; shutdown_ec = success }

-- The handshake takes too long.
abbrev too_late : List Completion
too_late = good ∷ good ∷ record good { ec = timeout } ∷ []

exec_lem_example :
    let s = complete_all too_late (exec true success get_page) in
    (s.started ≡ take (suc (successes too_late)) (path (stream_for get_page)))
    × (s.written ≡ sent (some get_page) s.started)
    × ((s.pending ≡ none)
        ⊎ (s.pending ≡ get_elem? (asyncs (stream_for get_page)) (length too_late)))
exec_lem_example = exec_lem get_page success too_late

stops_at_handshake :
    (complete_all too_late (exec true success get_page)).started
    ≡ resolve ∷ connect ∷ handshake ∷ []
unfolding exec run complete_all complete on_resolve on_connect on_handshake
    twitch_chat_worker.Base.Key.text_eq
stops_at_handshake = refl

abbrev kept : Message
kept = record { text = codes "a"; need_eof = false }

abbrev closing : Message
closing = record { text = codes "b"; need_eof = true }

abbrev three : List Exchange
three = (codes "1", kept) ∷ (codes "2", closing) ∷ (codes "3", kept) ∷ []

steps-TakesTurns_example : TakesTurns (steps (opening ssl ++ exchanged three) (Server.run ssl))
steps-TakesTurns_example = steps-TakesTurns ssl (opening ssl ++ exchanged three)

served_lem_example :
    let s = steps (opening ssl ++ exchanged three) (Server.run ssl) in
    (s.handed ≡ requests (until_eof three)) × (s.sent ≡ messages (until_eof three))
served_lem_example = served_lem ssl three

-- Characters as many as Boost's iterators give; which ones does not matter here.
abbrev as_many : Text → Text
as_many val = replicate ((8 * length val + 5) / 6) b'x'

length-as_many : (val : Text) → length (as_many val) ≡ (8 * length val + 5) / 6
length-as_many val = length-replicate {A = ℕ} ((8 * length val + 5) / 6) b'x'

abbrev guarded : Config
guarded = record { user = codes "admin"; pass = codes "secret" }

abbrev join_path : List Text
join_path = codes "irc" ∷ codes "channel" ∷ codes "join" ∷ []

handle_request-passes_example :
    (handle_request as_many guarded (some (codes "Basic xxxxxxxxxxxxxxxx")) join_path
      ≡ passes (sends channel_join))
    ↔ (HasAccess as_many guarded (some (codes "Basic xxxxxxxxxxxxxxxx"))
        × StartsWith channel_join join_path)
handle_request-passes_example =
    handle_request-passes as_many length-as_many guarded (some (codes "Basic xxxxxxxxxxxxxxxx"))
      join_path channel_join
