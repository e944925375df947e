-- ===== src/Uri/Print.antt =====
-- `URI::toString`, `getAuthority`, `getPathEtc` and `getPathAndQuery`.
pub mod Authority
pub mod PathEtc
pub mod Parsed
use twitch_chat_worker.Base.{◌&&◌, ◌||◌, not, [], ◌∷◌, ◌++◌, eqb, if◌then◌else◌}
use twitch_chat_worker.Base.Key.{Text, codes, text_key, number_key, ◌==◌}
use twitch_chat_worker.Uri.{Uri, is_empty, is_well_known_port, is_relative}
use twitch_chat_worker.Uri.Chars.{has_char, port_to_string}
use twitch_chat_worker.Uri.Codec.{encode, reserved_path, reserved_fragment}
use twitch_chat_worker.Uri.Segments.{starts_with_slash}

abbrev pub info_text : Text → Text
info_text [] = []
info_text (c ∷ s) = (c ∷ s) ++ b'@' ∷ []

abbrev pub host_text : Text → Text
host_text host = if has_char b':' host then b'[' ∷ host ++ b']' ∷ [] else host

abbrev pub port_text : Uri → Text
port_text u =
    if not (eqb u.port 0) && not (is_well_known_port u) then b':' ∷ port_to_string u.port else []

unfoldable pub get_authority : Uri → Text
unfolding has_char
get_authority u = info_text u.user_info ++ host_text u.host ++ port_text u

abbrev pub query_text : Text → Text
query_text [] = []
query_text (c ∷ s) = b'?' ∷ c ∷ s

abbrev pub fragment_text : Text → Text
fragment_text [] = []
fragment_text (c ∷ s) = b'#' ∷ encode (c ∷ s) reserved_fragment

-- The path after the authority `auth`.
abbrev pub path_text : Uri → Text → Text
path_text u auth =
    if not (is_empty u.path)
    then (if not (is_empty auth) && not (starts_with_slash u.path) then b'/' ∷ [] else [])
      ++ encode u.path reserved_path
    else if not (is_empty u.query) || not (is_empty u.fragment)
    then b'/' ∷ []
    else []

abbrev pub authority_text : Uri → Text → Text
authority_text u auth =
    if not (is_empty auth) || (u.scheme == codes "file") then b'/' ∷ b'/' ∷ auth else []

unfoldable pub to_string : Uri → Text
to_string u =
    let start =
      if is_relative u
      then encode u.path reserved_path
      else u.scheme ++ b':' ∷ authority_text u (get_authority u) ++ path_text u (get_authority u) in
    start ++ query_text u.query ++ fragment_text u.fragment

unfoldable pub get_path_and_query : Uri → Text
get_path_and_query u = encode u.path reserved_path ++ query_text u.query

unfoldable pub get_path_etc : Uri → Text
get_path_etc u = encode u.path reserved_path ++ query_text u.query ++ fragment_text u.fragment
