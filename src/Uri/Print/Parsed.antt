-- ===== src/Uri/Print/Parsed.antt =====
-- `toString`, parsed again.
use twitch_chat_worker.Base.{
  ◌≡◌, refl, sym, ap, subst, ◌∙◌, inl, inr, true, false, ◌&&◌, ◌||◌, [], ◌∷◌, ◌++◌, append_assoc,
  arith, eqb, Bool-cases, eqb_iff,
}
use twitch_chat_worker.Base.Key.{Text, text_key, number_key}
use twitch_chat_worker.Uri.{Uri, ok, no_uri, is_empty}
use twitch_chat_worker.Uri.Chars.{has_char, to_lower}
use twitch_chat_worker.Uri.Chars.Reading.{Passes, stops, read_until-append}
use twitch_chat_worker.Uri.Codec.{is_unreserved, is_escaped, encode_char, encode, reserved_path}
use twitch_chat_worker.Uri.Codec.Decoded.{IsBytes}
use twitch_chat_worker.Uri.Segments.{starts_with_slash}
use twitch_chat_worker.Uri.Parse.{
  set_scheme, parse_path_etc, parse_hierarchy, parse, uri_of, ends_scheme, ends_authority,
}
use twitch_chat_worker.Uri.Print.{
  host_text, port_text, get_authority, query_text, fragment_text, path_text, to_string,
}
use twitch_chat_worker.Uri.Print.Authority.{HasAuthority, parse_authority-get_authority}
use twitch_chat_worker.Uri.Print.PathEtc.{unread, parse_path_etc-text}

pub record IsAbsolute (u : Uri) : Type 0 where
  -- not empty, and not one that starts with a dot
  pub scheme_named : stops (eqb b'.') u.scheme ≡ false
  pub scheme_plain : Passes ends_scheme u.scheme
  pub scheme_low : to_lower u.scheme ≡ u.scheme
  pub authority : HasAuthority u
  pub path_rooted :
      (starts_with_slash u.path || (is_empty u.path && is_empty u.query && is_empty u.fragment))
      ≡ true
  pub path_bytes : IsBytes u.path
  pub query_plain : Passes (eqb b'#') u.query
  pub fragment_bytes : IsBytes u.fragment

nil_of_empty : (s : Text) → is_empty s ≡ true → s ≡ []
nil_of_empty [] h = refl
nil_of_empty (c ∷ s) h = absurd (cc)

named : (s : Text) → stops (eqb b'.') s ≡ false → is_empty s ≡ false
named [] h = absurd (cc)
named (c ∷ s) h = refl

-- What is printed after the authority.
abbrev rest_text : Uri → Text
rest_text u = (encode u.path reserved_path ++ query_text u.query) ++ fragment_text u.fragment

is_empty-append_left : (s t : Text) → is_empty s ≡ false → is_empty (s ++ t) ≡ false
is_empty-append_left [] t h = absurd (cc)
is_empty-append_left (c ∷ s) t h = refl

is_empty-get_authority : (u : Uri) → HasAuthority u → is_empty (get_authority u) ≡ false
unfolding get_authority
is_empty-get_authority u h =
    rw (h.no_info) (is_empty-append_left (host_text u.host) (port_text u) printed)
  where
    printed : is_empty (host_text u.host) ≡ false
    printed = elim (Bool-cases (has_char b':' u.host)) [
      | inl e ↦ rw (e)
      | inr e ↦ rw (e, h.host_named)
    ]

path_text-encode :
    (u : Uri)
    → is_empty (get_authority u) ≡ false
    → (starts_with_slash u.path || (is_empty u.path && is_empty u.query && is_empty u.fragment))
      ≡ true
    → path_text u (get_authority u) ≡ encode u.path reserved_path
unfolding encode
path_text-encode u auth h = elim (Bool-cases (is_empty u.path)) [
  | inl e ↦
      let bare = nil_of_empty u.path e in
      let no_query : is_empty u.query ≡ true = ground (
        arith,
        subst
            (λ p.
              (starts_with_slash p || (is_empty p && is_empty u.query && is_empty u.fragment))
              ≡ true)
            bare h,
      ) in
      let no_fragment : is_empty u.fragment ≡ true = ground (
        arith,
        subst
            (λ p.
              (starts_with_slash p || (is_empty p && is_empty u.query && is_empty u.fragment))
              ≡ true)
            bare h,
      ) in
      rw (e, no_query, no_fragment, bare) refl
  | inr e ↦
      let starts : starts_with_slash u.path ≡ true = ground (arith, e, h) in rw (e, auth, starts)
]

regroup : (s a p q f : Text) → (((s ++ a) ++ p) ++ q) ++ f ≡ s ++ (a ++ ((p ++ q) ++ f))
regroup s a p q f = rw (
  append_assoc s a p,
  append_assoc s (a ++ p) q,
  append_assoc s ((a ++ p) ++ q) f,
  append_assoc a p q,
  append_assoc a (p ++ q) f,
)

-- The text as its scheme, its authority and the rest.
to_string-parts :
    (u : Uri)
    → IsAbsolute u
    → to_string u ≡ u.scheme ++ b':' ∷ b'/' ∷ b'/' ∷ (get_authority u ++ rest_text u)
unfolding to_string
to_string-parts u h =
    let auth = is_empty-get_authority u h.authority in
    let some_scheme : is_empty u.scheme ≡ false = named u.scheme h.scheme_named in
    rw (some_scheme, path_text-encode u auth h.path_rooted, auth)
      (regroup u.scheme (b':' ∷ b'/' ∷ b'/' ∷ get_authority u) (encode u.path reserved_path)
        (query_text u.query) (fragment_text u.fragment))

-- The URI after its scheme and its authority.
abbrev placed : Uri → Uri
placed u = unread u.scheme [] u.host u.port

-- A path that does not start with a slash is empty, and so are the query and the fragment.
nothing_else :
    (u : Uri)
    → IsAbsolute u
    → starts_with_slash u.path ≡ false
    → (u.path ≡ []) × (u.query ≡ []) × (u.fragment ≡ [])
nothing_else u h e = (
  nil_of_empty u.path (ground (arith, e, h.path_rooted)),
  nil_of_empty u.query (ground (arith, e, h.path_rooted)),
  nil_of_empty u.fragment (ground (arith, e, h.path_rooted)),
)

parse_path_etc-rest_text : (u : Uri) → IsAbsolute u → parse_path_etc (placed u) (rest_text u) ≡ ok u
unfolding parse_path_etc encode
parse_path_etc-rest_text u h = elim (Bool-cases (starts_with_slash u.path)) [
  | inl e ↦
      parse_path_etc-text u.scheme [] u.host u.port u.path u.query u.fragment e h.path_bytes
        h.query_plain h.fragment_bytes
      ∙ ap (λ i. ok (record u { user_info = i })) (sym h.authority.no_info)
  | inr e ↦
      let (p, q, f) = nothing_else u h e in
      rw (p, q, f)
        (λ i. ok (record u {
          user_info = sym h.authority.no_info i;
          path = [];
          query = [];
          fragment = [];
        }))
]

stops-encode :
    (p t r : Text)
    → starts_with_slash p ≡ true
    → stops ends_authority ((encode p reserved_path ++ t) ++ r) ≡ true
unfolding encode encode_char is_unreserved is_escaped has_char
stops-encode [] t r h = absurd (cc)
stops-encode (c ∷ p) t r h =
    subst (λ c. stops ends_authority ((encode (c ∷ p) reserved_path ++ t) ++ r) ≡ true)
      (sym ((eqb_iff c b'/').0 h)) refl

stops-rest_text : (u : Uri) → IsAbsolute u → stops ends_authority (rest_text u) ≡ true
unfolding encode
stops-rest_text u h = elim (Bool-cases (starts_with_slash u.path)) [
  | inl e ↦ stops-encode u.path (query_text u.query) (fragment_text u.fragment) e
  | inr e ↦ let (p, q, f) = nothing_else u h e in rw (p, q, f) refl
]

parse_hierarchy-parts :
    (u : Uri)
    → IsAbsolute u
    → parse_hierarchy (set_scheme u.scheme no_uri) (b'/' ∷ b'/' ∷ (get_authority u ++ rest_text u))
      ≡ ok u
unfolding parse_hierarchy
parse_hierarchy-parts u h =
    rw
      (
        parse_authority-get_authority u (set_scheme u.scheme no_uri) (rest_text u) h.scheme_low
            h.authority (stops-rest_text u h),
        h.scheme_low,
      )
      (parse_path_etc-rest_text u h)

parse-scheme :
    (s t : Text)
    → stops (eqb b'.') s ≡ false
    → Passes ends_scheme s
    → parse no_uri (s ++ b':' ∷ b'/' ∷ t) ≡ parse_hierarchy (set_scheme s no_uri) (b'/' ∷ t)
unfolding parse
parse-scheme [] t h p = absurd (cc)
parse-scheme (c ∷ s) t h (p, ps) =
    let starts : (eqb c b'/' || eqb c b'.' || eqb c b'?' || eqb c b'#') ≡ false =
      ground (arith, h, p) in
    rw (starts, read_until-append ends_scheme (c ∷ s) (b':' ∷ b'/' ∷ t) (p, ps) refl)

-- The text that `toString` prints for a URI parses to that URI, if the scheme is lower case, not
-- empty, does not start with a dot and has none of the characters that end it, no user information
-- is set, the host is lower case, not empty and without brackets, `@` and the characters that end
-- an authority, the port is the scheme's own or between 1 and 65535, the path starts with a slash
-- (or is empty, as the query and the fragment are), and the query has no `#`. Path and fragment
-- may hold any bytes, and a host with a colon is printed in brackets.
pub uri_of-to_string : (u : Uri) → IsAbsolute u → uri_of (to_string u) ≡ ok u
uri_of-to_string u h =
    rw
      (
        to_string-parts u h,
        parse-scheme u.scheme (b'/' ∷ (get_authority u ++ rest_text u)) h.scheme_named
            h.scheme_plain,
      )
      (parse_hierarchy-parts u h)
