-- ===== src/Uri/Resolve.antt =====
-- `URI::resolve`: a reference against a base.
pub mod Contained
use twitch_chat_worker.Base.{
  ℕ, zero, suc, ◌+◌, ◌-◌, ◌*◌, ◌/◌, ◌%◌, ◌^◌, ◌≤◌, ◌<◌, ◌≡◌, refl, sym, ap, ap₂, subst, ◌∙◌, ◌≢◌,
  ◌↔◌, ◌⊎◌, inl, inr, Bool, true, false, ◌&&◌, ◌||◌, not, Option, none, some, List, [], ◌∷◌, ◌++◌,
  map, append-nil, append_assoc, arith, ltb, leb, eqb, if◌then◌else◌, Bool-cases, eqb_iff, length,
  All, All-append,
}
use twitch_chat_worker.Base.Key.{Text, codes, text_key, number_key, ◌==◌, eq_iff, eq_refl}
use twitch_chat_worker.Base.Int.{ℤ, pos, negsuc}
use twitch_chat_worker.Base.Dict.{Dict, lookup, emplace, update, erase}
use twitch_chat_worker.Uri.{Uri, Parsed, ok, ◌>>=◌, is_empty}
use twitch_chat_worker.Uri.Segments.{starts_with_slash, remove_dot_segments, merge_path}
use twitch_chat_worker.Uri.Parse.{uri_of}

-- The path and the query of a reference without scheme and host.
unfoldable pub resolve_path : Uri → Uri → Uri
resolve_path base rel =
    if is_empty rel.path
    then (if not (is_empty rel.query) then record base { query = rel.query } else base)
    else record (if starts_with_slash rel.path
        then remove_dot_segments true (record base { path = rel.path })
        else merge_path base rel.path) { query = rel.query }

unfoldable pub resolve : Uri → Uri → Uri
resolve base rel =
    record (if not (is_empty rel.scheme)
      then remove_dot_segments true (record rel { fragment = base.fragment })
      else if not (is_empty rel.host)
      then remove_dot_segments true (record rel { scheme = base.scheme; fragment = base.fragment })
      else resolve_path base rel) { fragment = rel.fragment }

-- `resolve(const std::string &)`, and `URI(baseURI, relativeURI)` on a copy of the base
unfoldable pub resolve_text : Uri → Text → Parsed Uri
resolve_text base text = do rel ← uri_of text; ok (resolve base rel)
