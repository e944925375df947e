-- ===== src/Uri/Codec.antt =====
-- `URI::encode` and `URI::decode`, and the accessors that use them.
pub mod Decoded
use twitch_chat_worker.Base.{
  ℕ, ◌+◌, ◌-◌, ◌*◌, ◌%◌, Bool, true, false, ◌||◌, [], ◌∷◌, ◌++◌, leb, eqb, if◌then◌else◌,
}
use twitch_chat_worker.Base.Key.{Text, codes, text_key, number_key}
use twitch_chat_worker.Uri.{Parsed, ok, throws, ◌>>=◌, no_hex_digit, one_hex_digit, not_a_hex_digit}
use twitch_chat_worker.Uri.Chars.{between, is_digit, has_char, format_hex}

abbrev pub reserved_path : Text
reserved_path = codes "?#"

abbrev pub reserved_query : Text
reserved_query = codes "#"

abbrev pub reserved_fragment : Text
reserved_fragment = []

abbrev pub illegal : Text
illegal = codes "%<>{}|\\\"^`"

unfoldable pub is_unreserved : ℕ → Bool
is_unreserved c =
    between b'a' b'z' c
    || between b'A' b'Z' c
    || is_digit c
    || eqb c b'-'
    || eqb c b'_'
    || eqb c b'.'
    || eqb c b'~'

-- A `char` from 128 on is negative, so that it is below 0x20.
unfoldable pub is_escaped : Text → ℕ → Bool
unfolding has_char
is_escaped reserved c = leb c 0x20 || leb 0x7f c || has_char c illegal || has_char c reserved

unfoldable pub encode_char : Text → ℕ → Text
encode_char reserved c =
    if is_unreserved c
    then c ∷ []
    else if is_escaped reserved c
    then b'%' ∷ format_hex c
    else c ∷ []

-- What is appended.
unfoldable pub encode : Text → Text → Text
encode [] reserved = []
encode (c ∷ s) reserved = encode_char reserved c ++ encode s reserved

unfoldable pub hex_value : ℕ → Parsed ℕ
hex_value c =
    if is_digit c
    then ok (c - b'0')
    else if between b'A' b'F' c
    then ok (c - b'A' + 10)
    else if between b'a' b'f' c
    then ok (c - b'a' + 10)
    else throws not_a_hex_digit

-- What is appended.
unfoldable pub decode : Text → Parsed Text
decode [] = ok []
decode (c ∷ []) = if eqb c b'%' then throws no_hex_digit else ok (c ∷ [])
decode (c ∷ d ∷ []) =
    if eqb c b'%'
    then throws one_hex_digit
    else if eqb d b'%'
    then throws no_hex_digit
    else ok (c ∷ d ∷ [])
decode (c ∷ hi ∷ lo ∷ s) = elim (eqb c b'%') [
  | true ↦ do
    high ← hex_value hi
    low ← hex_value lo
    rest ← decode s
    ok ((high * 16 + low) % 256 ∷ rest)
  | false ↦ do rest ← decode (hi ∷ lo ∷ s); ok (c ∷ rest)
]
