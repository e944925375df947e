-- ===== src/Uri.antt =====
-- common/URI.h and the accessors of common/URI.cpp. A `SyntaxException` is an error value.
pub mod Chars
pub mod Codec
pub mod Segments
pub mod Parse
pub mod Print
pub mod Resolve
use twitch_chat_worker.Base.{
  ℕ, zero, suc, ◌+◌, ◌-◌, ◌*◌, ◌/◌, ◌%◌, ◌^◌, ◌≤◌, ◌<◌, ◌≡◌, refl, sym, ap, ap₂, subst, ◌∙◌, ◌≢◌,
  ◌↔◌, ◌⊎◌, inl, inr, Bool, true, false, ◌&&◌, ◌||◌, not, Option, none, some, List, [], ◌∷◌, ◌++◌,
  map, append-nil, append_assoc, arith, u32_mod, ltb, leb, eqb, if◌then◌else◌, Bool-cases, eqb_iff,
  length, get_elem?, take, filter, All, All-append,
}
use twitch_chat_worker.Base.Key.{Text, codes, text_key, number_key, int_key, ◌==◌, eq_iff, eq_refl}
use twitch_chat_worker.Base.Int.{ℤ, pos, negsuc}
use twitch_chat_worker.Base.Dict.{
  Dict, lookup, has, insert_at, emplace, update, erase, lookup-emplace, lookup-update, lookup-erase,
  value_or, lookup-update-emplace,
}

pub data SyntaxError : Type 0 where
  no_hex_digit : SyntaxError
  one_hex_digit : SyntaxError
  not_a_hex_digit : SyntaxError
  nothing_after_scheme : SyntaxError
  unterminated_address : SyntaxError
  bad_port : SyntaxError

pub data Parsed {ℓ} (A : Type ℓ) : Type ℓ where
  ok : A → Parsed A
  throws : SyntaxError → Parsed A

infixl 5 ◌>>=◌
abbrev pub ◌>>=◌ {ℓ κ} : {A : Type ℓ} {B : Type κ} → Parsed A → (A → Parsed B) → Parsed B
ok a >>= f = f a
throws e >>= f = throws e

pub record Uri : Type 0 where
  pub scheme : Text
  pub user_info : Text
  pub host : Text
  pub port : ℕ
  pub path : Text
  pub query : Text
  pub fragment : Text

-- `URI()`, and what `clear` leaves
abbrev pub no_uri : Uri
no_uri = record {
  scheme = [];
  user_info = [];
  host = [];
  port = 0;
  path = [];
  query = [];
  fragment = [];
}

abbrev pub is_empty {ℓ} : {A : Type ℓ} → List A → Bool
is_empty [] = true
is_empty (a ∷ s) = false

-- `schemeToPort`
abbrev pub scheme_to_port : Dict Text ℕ
scheme_to_port =
    (codes "acap", 674)
    ∷ (codes "afp", 548)
    ∷ (codes "dict", 2628)
    ∷ (codes "dns", 53)
    ∷ (codes "ftp", 21)
    ∷ (codes "git", 9418)
    ∷ (codes "gopher", 70)
    ∷ (codes "http", 80)
    ∷ (codes "https", 443)
    ∷ (codes "imap", 143)
    ∷ (codes "ipp", 631)
    ∷ (codes "ipps", 631)
    ∷ (codes "irc", 194)
    ∷ (codes "ircs", 6697)
    ∷ (codes "ldap", 389)
    ∷ (codes "ldaps", 636)
    ∷ (codes "mms", 1755)
    ∷ (codes "msrp", 2855)
    ∷ (codes "mtqp", 1038)
    ∷ (codes "nfs", 111)
    ∷ (codes "nntp", 119)
    ∷ (codes "nntps", 563)
    ∷ (codes "pop", 110)
    ∷ (codes "prospero", 1525)
    ∷ (codes "redis", 6379)
    ∷ (codes "rsync", 873)
    ∷ (codes "rtmp", 1935)
    ∷ (codes "rtsp", 554)
    ∷ (codes "rtsps", 322)
    ∷ (codes "rtspu", 5005)
    ∷ (codes "sftp", 22)
    ∷ (codes "smb", 445)
    ∷ (codes "snmp", 161)
    ∷ (codes "ssh", 22)
    ∷ (codes "svn", 3690)
    ∷ (codes "sip", 5060)
    ∷ (codes "sips", 5061)
    ∷ (codes "telnet", 23)
    ∷ (codes "ventrilo", 3784)
    ∷ (codes "vnc", 5900)
    ∷ (codes "wais", 210)
    ∷ (codes "ws", 80)
    ∷ (codes "wss", 443)
    ∷ (codes "xmpp", 5222)
    ∷ []

-- `it == end() ? 0 : it->second`
abbrev port_or_0 : Option ℕ → ℕ
port_or_0 none = 0
port_or_0 (some p) = p

unfoldable pub well_known : Text → ℕ
unfolding lookup
well_known scheme = port_or_0 (lookup scheme scheme_to_port)

abbrev pub get_well_known_port : Uri → ℕ
get_well_known_port u = well_known u.scheme

abbrev pub is_well_known_port : Uri → Bool
is_well_known_port u = eqb u.port (get_well_known_port u)

unfoldable pub get_port : Uri → ℕ
get_port u = if eqb u.port 0 then get_well_known_port u else u.port

abbrev pub is_relative : Uri → Bool
is_relative u = is_empty u.scheme

unfoldable pub empty : Uri → Bool
empty u =
    is_empty u.scheme
    && is_empty u.host
    && is_empty u.path
    && is_empty u.query
    && is_empty u.fragment

unfoldable pub equals : Uri → Uri → Bool
equals u v =
    u.scheme == v.scheme
    && u.user_info == v.user_info
    && u.host == v.host
    && get_port u == get_port v
    && u.path == v.path
    && u.query == v.query
    && u.fragment == v.fragment

abbrev pub set_host : Text → Uri → Uri
set_host host u = record u { host = host }

abbrev pub set_port : ℕ → Uri → Uri
set_port port u = record u { port = port }

abbrev pub set_raw_query : Text → Uri → Uri
set_raw_query query u = record u { query = query }

-- All parts go.
abbrev pub clear : Uri → Uri
clear u = no_uri

-- Each part of one for that of the other.
unfoldable pub swap : Uri × Uri → Uri × Uri
swap (u, v) = (
  record u {
    scheme = v.scheme;
    user_info = v.user_info;
    host = v.host;
    port = v.port;
    path = v.path;
    query = v.query;
    fragment = v.fragment;
  },
  record v {
    scheme = u.scheme;
    user_info = u.user_info;
    host = u.host;
    port = u.port;
    path = u.path;
    query = u.query;
    fragment = u.fragment;
  },
)
