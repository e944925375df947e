-- ===== src/RequestFactory.antt =====
-- http/client/HTTPRequestFactory.h and HTTPRequest.h: the requests that are made for a URI. The fields are
-- the calls of `set` in their order; what a call does is the library's.
use twitch_chat_worker.Base.{
  ℕ, Bool, true, false, Option, none, some, List, [], ◌∷◌, if◌then◌else◌, length, take,
}
use twitch_chat_worker.Base.Key.{Text, codes, text_key, number_key, int_key}
use twitch_chat_worker.Base.Dict.{Dict}
use twitch_chat_worker.Uri.{Uri, get_port, is_empty}
use twitch_chat_worker.Uri.Print.{get_path_and_query}

abbrev pub Headers : Type 0
Headers = Dict Text Text

-- `HTTPRequest`, whose port is part of the wrapper
pub record Request : Type 0 where
  pub method : Text
  pub target : Text
  pub scheme : Text
  pub host : Text
  pub port : ℕ
  pub version : ℕ
  pub keep_alive : Bool
  pub fields : List (Text × Text)
  pub body : Text
  -- `none` where `content_length` is not called
  pub content_length : Option ℕ

pub data Method : Type 0 where
  get head post put patch delete options : Method

-- The arguments after the URI.
pub data Payload : Type 0 where
  plain : Payload
  headed : Headers → Payload
  -- `(body, content_length, content_type)` and `(headers, body, content_length)`
  typed_bytes : Text → ℕ → Text → Payload
  headed_bytes : Headers → Text → ℕ → Payload
  -- `(body, content_type)` and `(headers, body)`
  typed_text : Text → Text → Payload
  headed_text : Headers → Text → Payload

abbrev pub method_name : Method → Text
method_name get = codes "GET"
method_name head = codes "HEAD"
method_name post = codes "POST"
method_name put = codes "PUT"
method_name patch = codes "PATCH"
method_name delete = codes "DELETE"
method_name options = codes "OPTIONS"

-- `Put` with headers and a body of a given length makes a POST.
unfoldable pub verb : Method → Payload → Text
verb put (headed_bytes headers body size) = codes "POST"
verb m payload = method_name m

-- Which overloads there are.
unfoldable pub is_overload : Method → Payload → Bool
is_overload get plain = true
is_overload get (headed headers) = true
is_overload get payload = false
is_overload head plain = true
is_overload head (headed headers) = true
is_overload head payload = false
is_overload options plain = true
is_overload options (headed headers) = true
is_overload options payload = false
is_overload post (headed headers) = false
is_overload post payload = true
is_overload put (headed headers) = false
is_overload put payload = true
is_overload patch (headed headers) = false
is_overload patch payload = true
is_overload delete payload = true

abbrev pub content_type : Text → Headers
content_type type = (codes "Content-Type", type) ∷ []

abbrev pub headers_of : Payload → Headers
headers_of plain = []
headers_of (headed headers) = headers
headers_of (typed_bytes body size type) = content_type type
headers_of (headed_bytes headers body size) = headers
headers_of (typed_text body type) = content_type type
headers_of (headed_text headers body) = headers

abbrev pub body_of : Payload → Text
body_of plain = []
body_of (headed headers) = []
body_of (typed_bytes body size type) = take size body
body_of (headed_bytes headers body size) = take size body
body_of (typed_text body type) = body
body_of (headed_text headers body) = body

-- The version string that the library puts into the user agent's field.
module _ (user_agent : Text) where
  -- `HTTPRequestFactory::Request`
  unfoldable pub request : Text → Text → Text → ℕ → Text → Headers → Text → Bool → Request
  request method scheme host port path headers body keep_alive = record {
    method = method;
    target = path;
    scheme = scheme;
    host = host;
    port = port;
    version = 11;
    keep_alive = keep_alive;
    fields = (codes "Host", host) ∷ (codes "User-Agent", user_agent) ∷ headers;
    body = body;
    content_length = if is_empty body then none else some (length body);
  }

  -- The function of the method's name, if it has such an overload.
  unfoldable pub request_for : Method → Payload → Uri → Option Request
  unfolding is_overload verb request get_port get_path_and_query
  request_for m payload url =
      if is_overload m payload
      then some (
          request (verb m payload) url.scheme url.host (get_port url) (get_path_and_query url)
            (headers_of payload) (body_of payload) false)
      else none
