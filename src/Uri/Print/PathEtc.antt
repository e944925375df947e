-- ===== src/Uri/Print/PathEtc.antt =====
-- The path, the query and the fragment that are printed, read again by `parsePathEtc`.
use twitch_chat_worker.Base.{
  ℕ, ◌/◌, ◌%◌, ◌≡◌, refl, sym, ap, subst, ◌∙◌, inl, inr, true, false, [], ◌∷◌, ◌++◌, append_assoc,
  arith, eqb, Bool-cases, eqb_iff, All-append,
}
use twitch_chat_worker.Base.Key.{Text, text_key, number_key}
use twitch_chat_worker.Uri.{Uri, ok, ◌>>=◌}
use twitch_chat_worker.Uri.Chars.{has_char, hex_char}
use twitch_chat_worker.Uri.Chars.Reading.{Passes, stops, read_until-append}
use twitch_chat_worker.Uri.Codec.{
  is_unreserved, is_escaped, encode_char, encode, reserved_path, reserved_fragment,
}
use twitch_chat_worker.Uri.Codec.Decoded.{IsBytes, decode-encode}
use twitch_chat_worker.Uri.Segments.{starts_with_slash}
use twitch_chat_worker.Uri.Parse.{
  parse_fragment, ends_path, parse_path, fragment_if, query_if, parse_path_etc,
}
use twitch_chat_worker.Uri.Print.{query_text, fragment_text}

unreserved : (c : ℕ) → is_unreserved c ≡ true → ends_path c ≡ false
unfolding is_unreserved
unreserved c h = ground arith

hex_char-plain : (n : ℕ) → ends_path (hex_char n) ≡ false
hex_char-plain n = ground arith

unescaped : (c : ℕ) → is_escaped reserved_path c ≡ false → ends_path c ≡ false
unfolding is_escaped has_char
unescaped c h = ground arith

encode_char-plain : (c : ℕ) → Passes ends_path (encode_char reserved_path c)
unfolding encode_char
encode_char-plain c = elim (Bool-cases (is_unreserved c)) [
  | inl e ↦ rw (e) (unreserved c e, tt)
  | inr e ↦ elim (Bool-cases (is_escaped reserved_path c)) [
    | inl f ↦ rw (e, f) (refl, (hex_char-plain (c / 16), (hex_char-plain (c % 16), tt)))
    | inr f ↦ rw (e, f) (unescaped c f, tt)
  ]
]

pub encode-plain : (s : Text) → Passes ends_path (encode s reserved_path)
unfolding encode
encode-plain [] = tt
encode-plain (c ∷ s) =
    All-append (λ d. ends_path d ≡ false) (encode_char reserved_path c) (encode s reserved_path)
      (encode_char-plain c) (encode-plain s)

parse_path-encode :
    (v : Uri) (p t : Text)
    → IsBytes p
    → stops ends_path t ≡ true
    → parse_path v (encode p reserved_path ++ t) ≡ ok (record v { path = v.path ++ p }, t)
unfolding parse_path
parse_path-encode v p t h stop = rw (
  read_until-append ends_path (encode p reserved_path) t (encode-plain p) stop,
  decode-encode p reserved_path h,
)

-- A URI whose path, query and fragment are not read yet.
abbrev pub unread : Text → Text → Text → ℕ → Uri
unread scheme info host port = record {
  scheme = scheme;
  user_info = info;
  host = host;
  port = port;
  path = [];
  query = [];
  fragment = [];
}

stops-fragment_text : (f : Text) → stops (eqb b'#') (fragment_text f) ≡ true
stops-fragment_text [] = refl
stops-fragment_text (c ∷ f) = refl

stops-query_text : (q f : Text) → stops ends_path (query_text q ++ fragment_text f) ≡ true
stops-query_text [] [] = refl
stops-query_text [] (c ∷ f) = refl
stops-query_text (c ∷ q) f = refl

fragment_if-fragment_text :
    (v : Uri) (f : Text)
    → v.fragment ≡ []
    → IsBytes f
    → fragment_if (v, fragment_text f) ≡ ok (record v { fragment = f })
unfolding parse_fragment
fragment_if-fragment_text v [] e h = ap (λ f. ok (record v { fragment = f })) e
fragment_if-fragment_text v (c ∷ f) e h = rw (decode-encode (c ∷ f) reserved_fragment h, e)

query_if-query_text :
    (v : Uri) (q f : Text)
    → v.query ≡ []
    → Passes (eqb b'#') q
    → query_if (v, query_text q ++ fragment_text f) ≡ (record v { query = q }, fragment_text f)
query_if-query_text v [] [] e h = ap (λ q. (record v { query = q }, fragment_text [])) e
query_if-query_text v [] (c ∷ f) e h = ap (λ q. (record v { query = q }, fragment_text (c ∷ f))) e
query_if-query_text v (c ∷ q) f e h =
    rw (read_until-append (eqb b'#') (c ∷ q) (fragment_text f) h (stops-fragment_text f))

path_first :
    (v : Uri) (p t : Text)
    → starts_with_slash p ≡ true
    → parse_path_etc v (encode p reserved_path ++ t)
      ≡ (parse_path v (encode p reserved_path ++ t) >>= λ read. fragment_if (query_if read))
unfolding parse_path_etc encode encode_char is_unreserved is_escaped has_char
path_first v [] t h = absurd (cc)
path_first v (c ∷ p) t h =
    subst
      (λ c. parse_path_etc v (encode (c ∷ p) reserved_path ++ t) ≡ (
        parse_path v (encode (c ∷ p) reserved_path ++ t) >>= λ read. fragment_if (query_if read)))
      (sym ((eqb_iff c b'/').0 h)) refl

pub parse_path_etc-text :
    (scheme info host : Text) (port : ℕ) (p q f : Text)
    → starts_with_slash p ≡ true
    → IsBytes p
    → Passes (eqb b'#') q
    → IsBytes f
    → parse_path_etc
        (unread scheme info host port)
        ((encode p reserved_path ++ query_text q) ++ fragment_text f)
      ≡ ok (record (unread scheme info host port) { path = p; query = q; fragment = f })
parse_path_etc-text scheme info host port p q f starts hp hq hf =
    let v = unread scheme info host port in
    let w = record v { path = p } in
    rw (append_assoc (encode p reserved_path) (query_text q) (fragment_text f)) (
      path_first v p (query_text q ++ fragment_text f) starts
      ∙ rw
          (
            parse_path-encode v p (query_text q ++ fragment_text f) hp (stops-query_text q f),
            query_if-query_text w q f refl hq,
            fragment_if-fragment_text (record w { query = q }) f refl hf,
          )
          refl)
