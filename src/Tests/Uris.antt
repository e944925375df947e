-- ===== src/Tests/Uris.antt =====
-- Runs of `URI`, and the theorems about it at concrete texts.
use twitch_chat_worker.Base.{
  ℕ, zero, suc, ◌+◌, ◌-◌, ◌*◌, ◌/◌, ◌%◌, ◌^◌, ◌≤◌, ◌<◌, ◌≡◌, refl, sym, ap, ap₂, subst, ◌∙◌, ◌≢◌,
  ◌↔◌, ◌⊎◌, inl, inr, Bool, true, false, ◌&&◌, ◌||◌, not, Option, none, some, List, [], ◌∷◌, ◌++◌,
  map, append-nil, append_assoc, arith, ltb, leb, eqb, if◌then◌else◌, Bool-cases, eqb_iff, length,
  All, All-append,
}
use twitch_chat_worker.Base.Key.{Text, codes, text_key, number_key, ◌==◌, eq_iff, eq_refl}
use twitch_chat_worker.Base.Dict.{Dict, lookup, emplace, update, erase}
use twitch_chat_worker.Uri.{Uri, ok, no_uri, well_known}
use twitch_chat_worker.Uri.Chars.{has_char, read_until, to_lower, decimal_on}
use twitch_chat_worker.Uri.Chars.Reading.{Passes}
use twitch_chat_worker.Uri.Codec.{
  is_unreserved, is_escaped, encode_char, encode, decode, reserved_path,
}
use twitch_chat_worker.Uri.Codec.Decoded.{IsBytes, decode-encode}
use twitch_chat_worker.Uri.Segments.{
  segments_from, get_path_segments, ends_with_slash, build_path, dot_step, without_dots,
  remove_dot_segments, merge_step, merged, base_segments, merge_path,
}
use twitch_chat_worker.Uri.Segments.Dots.{remove_dot_segments-remove_dot_segments}
use twitch_chat_worker.Uri.Resolve.{resolve}
use twitch_chat_worker.Uri.Resolve.Contained.{NotUp, names_place, resolve-NotUp}
use twitch_chat_worker.Uri.Parse.{
  parse_path, parse_path_etc, parse_port, parse_host_and_port, read_authority, parse_authority,
  parse_hierarchy, parse, uri_of, ends_scheme,
}
use twitch_chat_worker.Uri.Parse.UserInfo.{uri_of-user_info}
use twitch_chat_worker.Uri.Print.{get_authority, to_string}
use twitch_chat_worker.Uri.Print.Authority.{HasAuthority, breaks_host}
use twitch_chat_worker.Uri.Print.Parsed.{IsAbsolute, uri_of-to_string}

abbrev chat_uri : Uri
chat_uri = record {
  scheme = codes "https";
  user_info = [];
  host = codes "twitch.tv";
  port = 8080;
  path = codes "/a b/c?d";
  query = codes "k=v";
  fragment = codes "top";
}

printed_uri : to_string chat_uri ≡ codes "https://twitch.tv:8080/a%20b/c%3Fd?k=v#top"
unfolding to_string get_authority encode encode_char is_unreserved is_escaped has_char decimal_on
    well_known twitch_chat_worker.Base.Dict.lookup twitch_chat_worker.Base.Key.text_eq
printed_uri = refl

decode-encode_example :
    decode (encode (97 ∷ 32 ∷ 37 ∷ 228 ∷ []) reserved_path) ≡ ok (97 ∷ 32 ∷ 37 ∷ 228 ∷ [])
decode-encode_example =
    decode-encode (97 ∷ 32 ∷ 37 ∷ 228 ∷ []) reserved_path
      (omega arith, (omega arith, (omega arith, (omega arith, tt))))

abbrev dotted_uri : Uri
dotted_uri = record chat_uri { path = codes "/a/./b/../c/" }

without_dotted : (remove_dot_segments true dotted_uri).path ≡ codes "/a/c/"
unfolding remove_dot_segments segments_from ends_with_slash without_dots dot_step build_path
    has_char twitch_chat_worker.Base.Key.text_eq
without_dotted = refl

remove_dot_segments-remove_dot_segments_example :
    remove_dot_segments true (remove_dot_segments true dotted_uri)
    ≡ remove_dot_segments true dotted_uri
remove_dot_segments-remove_dot_segments_example = remove_dot_segments-remove_dot_segments dotted_uri

-- The slash in front of the base's path is lost.
merged_path : (merge_path dotted_uri (codes "d")).path ≡ codes "a/d"
unfolding merge_path base_segments merged merge_step segments_from ends_with_slash build_path
    has_char twitch_chat_worker.Base.Key.text_eq
merged_path = refl

abbrev up_uri : Uri
up_uri = record no_uri { path = codes "../../../d" }

resolve-NotUp_example : All NotUp (get_path_segments (resolve dotted_uri up_uri).path)
unfolding names_place
resolve-NotUp_example = resolve-NotUp dotted_uri up_uri refl

abbrev none_stops : (ℕ → Bool) → Text → Bool
none_stops stop [] = true
none_stops stop (c ∷ s) = not (stop c) && none_stops stop s

none_stops-Passes : (stop : ℕ → Bool) (s : Text) → none_stops stop s ≡ true → Passes stop s
none_stops-Passes stop [] h = tt
none_stops-Passes stop (c ∷ s) h = (ground (arith, h), none_stops-Passes stop s (ground (arith, h)))

none_stops-IsBytes : (s : Text) → none_stops (leb 256) s ≡ true → IsBytes s
none_stops-IsBytes [] h = tt
none_stops-IsBytes (c ∷ s) h = (ground (arith, h), none_stops-IsBytes s (ground (arith, h)))

chat_uri-HasAuthority : HasAuthority chat_uri
unfolding to_lower well_known twitch_chat_worker.Base.Dict.lookup
    twitch_chat_worker.Base.Key.text_eq
chat_uri-HasAuthority = record {
  no_info = refl;
  host_named = refl;
  host_plain = none_stops-Passes (λ c. breaks_host c) chat_uri.host refl;
  host_low = refl;
  port_known = refl;
}

chat_uri-IsAbsolute : IsAbsolute chat_uri
unfolding to_lower
chat_uri-IsAbsolute = record {
  scheme_named = refl;
  scheme_plain = none_stops-Passes ends_scheme chat_uri.scheme refl;
  scheme_low = refl;
  authority = chat_uri-HasAuthority;
  path_rooted = refl;
  path_bytes = none_stops-IsBytes chat_uri.path refl;
  query_plain = none_stops-Passes (eqb b'#') chat_uri.query refl;
  fragment_bytes = none_stops-IsBytes chat_uri.fragment refl;
}

uri_of-to_string_example : uri_of (to_string chat_uri) ≡ ok chat_uri
uri_of-to_string_example = uri_of-to_string chat_uri chat_uri-IsAbsolute

-- "bob" is lost.
abbrev parsed_uri : Uri
parsed_uri = record no_uri { scheme = codes "http"; host = codes "h"; port = 80; path = codes "/x" }

parsed : uri_of (codes "http://bob@h/x") ≡ ok parsed_uri
unfolding parse read_until to_lower parse_hierarchy parse_authority read_authority
    parse_host_and_port parse_port parse_path_etc parse_path decode well_known
    twitch_chat_worker.Base.Dict.lookup twitch_chat_worker.Base.Key.text_eq
parsed = refl

uri_of-user_info_example : parsed_uri.user_info ≡ []
uri_of-user_info_example = uri_of-user_info (codes "http://bob@h/x") parsed_uri parsed
