-- ===== src/Uri/Segments.antt =====
-- The path of a URI: its segments, the removal of dot segments, and `mergePath`.
pub mod Built
pub mod Dots
use twitch_chat_worker.Base.{
  Bool, true, false, ◌&&◌, ◌||◌, not, List, [], ◌∷◌, ◌++◌, eqb, if◌then◌else◌,
}
use twitch_chat_worker.Base.Key.{Text, codes, text_key, number_key, ◌==◌}
use twitch_chat_worker.Uri.{Uri, is_empty, is_relative}
use twitch_chat_worker.Uri.Chars.{has_char}

abbrev pub dot : Text
dot = codes "."

abbrev pub dot_dot : Text
dot_dot = codes ".."

-- What `getPathSegments` appends, while `seg` is read.
unfoldable pub segments_from : Text → Text → List Text
segments_from seg [] = if is_empty seg then [] else seg ∷ []
segments_from seg (c ∷ s) = elim (eqb c b'/') [
  | true ↦ let rest = segments_from [] s in if is_empty seg then rest else seg ∷ rest
  | false ↦ segments_from (seg ++ c ∷ []) s
]

abbrev pub get_path_segments : Text → List Text
get_path_segments path = segments_from [] path

abbrev pub starts_with_slash : Text → Bool
starts_with_slash [] = false
starts_with_slash (c ∷ s) = eqb c b'/'

-- `*(path.rbegin()) == '/'`
unfoldable pub ends_with_slash : Text → Bool
ends_with_slash [] = false
ends_with_slash (c ∷ []) = eqb c b'/'
ends_with_slash (c ∷ d ∷ s) = ends_with_slash (d ∷ s)

abbrev pub slash_if : Bool → Text
slash_if slash = if slash then b'/' ∷ [] else []

-- The segments after the first.
abbrev pub slashed : List Text → Text
slashed [] = []
slashed (seg ∷ segs) = b'/' ∷ seg ++ slashed segs

-- What stands before the first segment.
abbrev pub before_first : Uri → Bool → Text → Text
before_first u leading seg =
    if leading then b'/' ∷ [] else if is_relative u && has_char b':' seg then codes "./" else []

abbrev pub built : Uri → List Text → Bool → Text
built u [] leading = []
built u (seg ∷ segs) leading = before_first u leading seg ++ seg ++ slashed segs

unfoldable pub build_path : Uri → List Text → Bool → Bool → Uri
unfolding has_char
build_path u segs leading trailing = record u { path = built u segs leading ++ slash_if trailing }

-- A vector, whose back is its last element.
abbrev pub push_back : Text → List Text → List Text
push_back seg segs = segs ++ seg ∷ []

abbrev pub pop_back : List Text → List Text
pop_back [] = []
pop_back (a ∷ []) = []
pop_back (a ∷ b ∷ s) = a ∷ pop_back (b ∷ s)

abbrev back_is_dot_dot : List Text → Bool
back_is_dot_dot [] = false
back_is_dot_dot (a ∷ []) = a == dot_dot
back_is_dot_dot (a ∷ b ∷ s) = back_is_dot_dot (b ∷ s)

-- One round of the loop of `removeDotSegments`.
unfoldable pub dot_step : Bool → List Text → Text → List Text
dot_step remove_leading kept seg =
    if seg == dot_dot
    then if not (is_empty kept)
      then if back_is_dot_dot kept then push_back seg kept else pop_back kept
      else if not remove_leading
      then push_back seg kept
      else kept
    else if not (seg == dot)
    then push_back seg kept
    else kept

unfoldable pub without_dots : Bool → List Text → List Text → List Text
without_dots remove_leading kept [] = kept
without_dots remove_leading kept (seg ∷ segs) =
    without_dots remove_leading (dot_step remove_leading kept seg) segs

unfoldable pub remove_dot_segments : Bool → Uri → Uri
unfolding segments_from ends_with_slash without_dots build_path
remove_dot_segments remove_leading u =
    if is_empty u.path
    then u
    else build_path u (without_dots remove_leading [] (get_path_segments u.path))
        (starts_with_slash u.path) (ends_with_slash u.path)

abbrev pub normalize : Uri → Uri
normalize u = remove_dot_segments (not (is_relative u)) u

-- One round of the loop of `mergePath`: the segments, and whether a slash is added.
unfoldable pub merge_step : List Text × Bool → Text → List Text × Bool
merge_step kept seg =
    if seg == dot_dot
    then (pop_back kept.0, true)
    else if not (seg == dot)
    then (push_back seg kept.0, false)
    else (kept.0, true)

unfoldable pub merged : List Text × Bool → List Text → List Text × Bool
merged kept [] = kept
merged kept (seg ∷ segs) = merged (merge_step kept seg) segs

-- The parameter hides the member: `endsWithSlash` and both slashes are those of `path`,
-- and only `getPathSegments(segments)` reads the URI's own path.
unfoldable pub base_segments : Uri → Text → List Text
unfolding segments_from ends_with_slash
base_segments u [] = []
base_segments u (c ∷ path) =
    let own = get_path_segments u.path in if ends_with_slash (c ∷ path) then own else pop_back own

unfoldable pub merge_path : Uri → Text → Uri
unfolding base_segments segments_from ends_with_slash merged build_path
merge_path u path =
    let kept = merged ([], false) (base_segments u path ++ get_path_segments path) in
    build_path u kept.0 (starts_with_slash path) (ends_with_slash path || kept.1)
