-- ===== src/Http/Auth.antt =====
-- http/server/HTTPServer.h and .cpp, HTTPResponseFactory.h and http/details/Details.h: what the server does
-- with a request before the controller gets it. A request is its header's value for `Authorization`
-- and its path; a response is a status and the text of its error.
pub mod Basic
use twitch_chat_worker.Base.{
  ℕ, zero, suc, ◌+◌, ◌-◌, ◌*◌, ◌/◌, ◌%◌, ◌^◌, ◌≤◌, ◌<◌, ◌≡◌, refl, sym, ap, ap₂, subst, ◌∙◌, ◌≢◌,
  ◌↔◌, ◌⊎◌, inl, inr, Bool, true, false, ◌&&◌, ◌||◌, not, Option, none, some, List, [], ◌∷◌, ◌++◌,
  map, append-nil, append_assoc, arith, u32_mod, add32, ltb, leb, eqb, if◌then◌else◌, Bool-cases,
  Option-cases, eqb_iff, length, replicate, take-all, length-append, length-replicate, max,
  get_elem?, get_elem?-none, drop, take, filter, All, All-append,
}
use twitch_chat_worker.Base.Key.{Text, codes, text_key, number_key, int_key, ◌==◌, eq_iff, eq_refl}
use twitch_chat_worker.Base.Int.{ℤ}
use twitch_chat_worker.Base.Dict.{
  Dict, lookup, has, insert_at, emplace, update, erase, lookup-emplace, lookup-update, lookup-erase,
  value_or, lookup-update-emplace,
}
use twitch_chat_worker.Base.Fault.{◌>>=◌, OnSome, OnSome-bind, OnSome-any, OnSome-map}
use twitch_chat_worker.Base
use twitch_chat_worker.Uri.{is_empty}
use twitch_chat_worker.HttpController.{Handled}
use twitch_chat_worker.HttpController

-- `HTTPServerConfig`, as far as it decides on requests.
pub record Config : Type 0 where
  pub user : Text
  pub pass : Text

-- `HTTPResponseFactory::CreateResponse`: the status, and what stands under "error".
pub record Response : Type 0 where
  pub status : ℕ
  pub error : Text

unfoldable pub bad_request : Text → Response
bad_request why = record { status = 400; error = why }

unfoldable pub unauthorized : Response
unauthorized = record { status = 401; error = codes "Unauthorized" }

unfoldable pub payment_required : Response
payment_required = record { status = 402; error = codes "PaymentRequired" }

unfoldable pub forbidden : Response
forbidden = record { status = 403; error = codes "Forbidden" }

unfoldable pub not_found : Text → Response
not_found target = record {
  status = 404;
  error = codes "Failed to find resource '" ++ target ++ codes "'";
}

unfoldable pub method_not_allowed : Response
method_not_allowed = record { status = 405; error = codes "Method not allowed" }

unfoldable pub not_acceptable : Response
not_acceptable = record { status = 406; error = codes "Not acceptable here" }

unfoldable pub request_timeout : Response
request_timeout = record { status = 408; error = codes "Request timeout" }

unfoldable pub server_error : Text → Response
server_error what = record { status = 500; error = what }

unfoldable pub not_implemented : Text → Response
not_implemented what = record { status = 501; error = codes "Not implemented: " ++ what }

unfoldable pub bad_gateway : Response
bad_gateway = record { status = 502; error = codes "Bad gateway" }

unfoldable pub service_unavailable : Response
service_unavailable = record { status = 502; error = codes "Service unavailable" }

-- `find(' ')`; `none` is `npos`.
unfoldable pub find_space : Text → Option ℕ
find_space [] = none
find_space (c ∷ cs) =
    let rest = find_space cs in
    if eqb c b' ' then some 0 else elim rest [ none ↦ none | some n ↦ some (suc n) ]

-- `substr(0, pos)` and `substr(pos + 1)`: `npos` takes all, and `npos + 1` is 0.
abbrev pub type_of : Option ℕ → Text → Text
type_of none value = value
type_of (some i) value = take i value

abbrev pub encoded_of : Option ℕ → Text → Text
encoded_of none value = value
encoded_of (some i) value = drop (i + 1) value

-- What is sent at once, or what the controller makes of the request.
pub data Outcome : Type 0 where
  refuses : Response → Outcome
  passes : Handled → Outcome

-- The tests when a `basicAuth` is set; `none`: the request goes on.
abbrev pub check : Text → Option Text → Option Response
check basic none = some unauthorized
check basic (some value) =
    if not (type_of (find_space value) value == codes "Basic")
    then some not_acceptable
    else if not (encoded_of (find_space value) value == basic)
    then some forbidden
    else none

-- `base64_chars` is the copy over Boost's iterators in `encode64`.
module _ (base64_chars : Text → Text) where
  -- `encode64`
  unfoldable pub encode64 : Text → Text
  encode64 val = base64_chars val ++ replicate ((3 - length val % 3) % 3) b'='

  -- `basicAuth`, as the constructor leaves it.
  unfoldable pub basic_auth : Config → Text
  unfolding encode64
  basic_auth config =
      if not (is_empty config.pass) then encode64 (config.user ++ codes ":" ++ config.pass) else []

  -- The tests of `handleRequest`.
  unfoldable pub authorize : Config → Option Text → Option Response
  authorize config authorization =
      if not (is_empty (basic_auth config)) then check (basic_auth config) authorization else none

  -- `handleRequest`, and that of the controller.
  unfoldable pub handle_request : Config → Option Text → List Text → Outcome
  handle_request config authorization path = elim (authorize config authorization) [
    | some response ↦ refuses response
    | none ↦ passes (HttpController.handle_request path)
  ]
