-- ===== src/Uri/Parse.antt =====
-- The parsers of `URI`, its constructors and the setters that parse. An iterator is the text it has
-- still to read.
pub mod UserInfo
use twitch_chat_worker.Base.{
  ℕ, zero, suc, ◌+◌, ◌-◌, ◌*◌, ◌/◌, ◌%◌, ◌^◌, ◌≤◌, ◌<◌, ◌≡◌, refl, sym, ap, ap₂, subst, ◌∙◌, ◌≢◌,
  ◌↔◌, ◌⊎◌, inl, inr, Bool, true, false, ◌&&◌, ◌||◌, not, Option, none, some, List, [], ◌∷◌, ◌++◌,
  map, append-nil, append_assoc, arith, ltb, leb, eqb, if◌then◌else◌, Bool-cases, eqb_iff, length,
  All, All-append,
}
use twitch_chat_worker.Base.Key.{Text, codes, text_key, number_key, ◌==◌, eq_iff, eq_refl}
use twitch_chat_worker.Base.Int.{ℤ, pos, negsuc}
use twitch_chat_worker.Base.Dict.{Dict, lookup, emplace, update, erase}
use twitch_chat_worker.Uri.{
  Uri, Parsed, ok, throws, ◌>>=◌, no_uri, is_empty, well_known, get_well_known_port, equals,
  nothing_after_scheme, unterminated_address, bad_port,
}
use twitch_chat_worker.Uri.Chars.{read_until, to_lower, to_number}
use twitch_chat_worker.Uri.Codec.{encode, decode, reserved_query}

abbrev pub set_scheme : Text → Uri → Uri
set_scheme scheme u =
    let low = to_lower scheme in
    record u { scheme = low; port = if eqb u.port 0 then well_known low else u.port }

-- `parseQuery`
abbrev pub parse_query : Uri → Text → Uri × Text
parse_query u s = let read = read_until (eqb b'#') s in (record u { query = read.0 }, read.1)

-- `parseFragment`: it appends to the fragment, as `parsePath` does to the path.
unfoldable pub parse_fragment : Uri → Text → Parsed Uri
parse_fragment u s = do text ← decode s; ok (record u { fragment = u.fragment ++ text })

abbrev pub ends_path : ℕ → Bool
ends_path c = eqb c b'?' || eqb c b'#'

unfoldable pub parse_path : Uri → Text → Parsed (Uri × Text)
parse_path u s = do
  text ← decode (read_until ends_path s).0
  ok (record u { path = u.path ++ text }, (read_until ends_path s).1)

abbrev pub fragment_if : Uri × Text → Parsed Uri
fragment_if (u, []) = ok u
fragment_if (u, c ∷ s) = if eqb c b'#' then parse_fragment u s else ok u

abbrev pub query_if : Uri × Text → Uri × Text
query_if (u, []) = (u, [])
query_if (u, c ∷ s) = if eqb c b'?' then parse_query u s else (u, c ∷ s)

unfoldable pub parse_path_etc : Uri → Text → Parsed Uri
parse_path_etc u [] = ok u
parse_path_etc u (c ∷ s) = do
  read ← if ends_path c then ok (u, c ∷ s) else parse_path u (c ∷ s)
  fragment_if (query_if read)

abbrev pub port_of : ℤ → Parsed ℕ
port_of (pos n) = if ltb 0 n && ltb n 65536 then ok n else throws bad_port
port_of (negsuc n) = throws bad_port

-- After the host, which is set last.
unfoldable pub parse_port : Uri → Text → Parsed ℕ
parse_port u [] = ok (get_well_known_port u)
parse_port u (c ∷ []) = ok (get_well_known_port u)
parse_port u (c ∷ d ∷ s) =
    if eqb c b':' then port_of (to_number (d ∷ s)) else ok (get_well_known_port u)

abbrev pub set_host_and_port : Uri → Text × Text → Parsed Uri
set_host_and_port u read = do
  port ← parse_port u read.1
  ok (record u { host = to_lower read.0; port = port })

-- The address ends at `]`, which is skipped.
abbrev pub after_address : Text × Text → Parsed (Text × Text)
after_address (host, []) = throws unterminated_address
after_address (host, c ∷ s) = ok (host, s)

unfoldable pub parse_host_and_port : Uri → Text → Parsed Uri
parse_host_and_port u [] = ok u
parse_host_and_port u (c ∷ s) =
    if eqb c b'['
    then after_address (read_until (eqb b']') s) >>= set_host_and_port u
    else set_host_and_port u (read_until (eqb b':') (c ∷ s))

abbrev pub ends_authority : ℕ → Bool
ends_authority c = eqb c b'/' || eqb c b'?' || eqb c b'#'

-- The loop of `parseAuthority`: `userInfo`, `part` and the text left.
unfoldable pub read_authority : Text → Text → Text → Text × Text × Text
read_authority info part [] = (info, part, [])
read_authority info part (c ∷ s) = elim (ends_authority c) [
  | true ↦ (info, part, c ∷ s)
  | false ↦ elim (eqb c b'@') [
    | true ↦ read_authority part [] s
    | false ↦ read_authority info (part ++ c ∷ []) s
  ]
]

-- Its last statement assigns the empty `info` to `userInfo`.
unfoldable pub parse_authority : Uri → Text → Parsed (Uri × Text)
parse_authority u s = do
  let read = read_authority u.user_info [] s
  v ← parse_host_and_port (record u { user_info = read.0 }) read.1
  ok (record v { user_info = [] }, read.2)

abbrev pub ends_scheme : ℕ → Bool
ends_scheme c = eqb c b':' || eqb c b'?' || eqb c b'#' || eqb c b'/'

-- After the colon.
unfoldable pub parse_hierarchy : Uri → Text → Parsed Uri
parse_hierarchy u [] = throws nothing_after_scheme
parse_hierarchy u (c ∷ []) = parse_path_etc u (c ∷ [])
parse_hierarchy u (c ∷ d ∷ s) =
    if eqb c b'/' && eqb d b'/'
    then (do read ← parse_authority u s; parse_path_etc read.0 read.1)
    else parse_path_etc u (c ∷ d ∷ s)

-- What is read as the scheme and what is left, and the whole text.
abbrev pub parse_scheme : Uri → Text × Text → Text → Parsed Uri
parse_scheme u (scheme, []) text = parse_path_etc u text
parse_scheme u (scheme, c ∷ s) text =
    if eqb c b':'
    then (if is_empty s
        then throws nothing_after_scheme
        else parse_hierarchy (set_scheme scheme u) s)
    else parse_path_etc u text

unfoldable pub parse : Uri → Text → Parsed Uri
parse u [] = ok u
parse u (c ∷ s) =
    if eqb c b'/' || eqb c b'.' || eqb c b'?' || eqb c b'#'
    then parse_path_etc u (c ∷ s)
    else parse_scheme u (read_until ends_scheme (c ∷ s)) (c ∷ s)

-- `URI(uri)`, and `operator=`, which clears first
abbrev pub uri_of : Text → Parsed Uri
uri_of text = parse no_uri text

-- `URI(scheme, pathEtc)`
unfoldable pub of_path_etc : Text → Text → Parsed Uri
of_path_etc scheme path_etc =
    let low = to_lower scheme in
    parse_path_etc (record no_uri { scheme = low; port = well_known low }) path_etc

-- `URI(scheme, authority, pathEtc)`
unfoldable pub of_authority : Text → Text → Text → Parsed Uri
of_authority scheme authority path_etc = do
  read ← parse_authority (record no_uri { scheme = to_lower scheme }) authority
  parse_path_etc read.0 path_etc

-- `URI(scheme, authority, path, query, fragment)`, and without a fragment
unfoldable pub of_parts : Text → Text → Text → Text → Text → Parsed Uri
of_parts scheme authority path query fragment = do
  let low = to_lower scheme
  read ←
      parse_authority
        (record no_uri { scheme = low; path = path; query = query; fragment = fragment }) authority
  ok read.0

unfoldable pub set_authority : Text → Uri → Parsed Uri
set_authority authority u = do
  read ← parse_authority (record u { user_info = []; host = []; port = 0 }) authority
  ok read.0

unfoldable pub set_user_info : Text → Uri → Parsed Uri
set_user_info info u = do text ← decode info; ok (record u { user_info = text })

unfoldable pub set_path : Text → Uri → Parsed Uri
set_path path u = do text ← decode path; ok (record u { path = text })

unfoldable pub set_fragment : Text → Uri → Parsed Uri
set_fragment fragment u = do text ← decode fragment; ok (record u { fragment = text })

unfoldable pub set_path_etc : Text → Uri → Parsed Uri
set_path_etc path_etc u =
    parse_path_etc (record u { path = []; query = []; fragment = [] }) path_etc

unfoldable pub set_query : Text → Uri → Uri
set_query query u = record u { query = encode query reserved_query }

abbrev pub get_query : Uri → Parsed Text
get_query u = decode u.query

-- `operator==(const std::string &)`
unfoldable pub equals_text : Uri → Text → Parsed Bool
equals_text u text = do v ← uri_of text; ok (equals u v)
