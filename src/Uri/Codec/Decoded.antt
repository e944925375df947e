-- ===== src/Uri/Codec/Decoded.antt =====
-- `decode` after `encode`.
use twitch_chat_worker.Base.{
  ℕ, ◌+◌, ◌*◌, ◌/◌, ◌%◌, ◌<◌, ◌≡◌, refl, inl, inr, true, false, [], ◌∷◌, ◌++◌, arith, eqb,
  Bool-cases,
}
use twitch_chat_worker.Base.Key.{Text, text_key, number_key}
use twitch_chat_worker.Uri.{Parsed, ok, ◌>>=◌}
use twitch_chat_worker.Uri.Chars.{has_char, hex_char, format_hex}
use twitch_chat_worker.Uri.Codec.{is_unreserved, is_escaped, encode_char, encode, hex_value, decode}

-- Each number of the list is below 256.
abbrev pub IsBytes : Text → Type 0
IsBytes [] = Unit
IsBytes (c ∷ s) = (c < 256) × IsBytes s

pub hex_value-hex_char : (n : ℕ) → n < 16 → hex_value (hex_char n) ≡ ok n
unfolding hex_value
hex_value-hex_char n h = ground (arith, h)

-- A byte in front of the decoded text.
abbrev pub cons_ok : ℕ → Parsed Text → Parsed Text
cons_ok c r = r >>= λ t. ok (c ∷ t)

decode-plain : (c : ℕ) (s : Text) → eqb c b'%' ≡ false → decode (c ∷ s) ≡ cons_ok c (decode s)
unfolding decode
decode-plain c [] h = rw (h)
decode-plain c (d ∷ []) h = ground (arith, h)
decode-plain c (d ∷ e ∷ s) h = rw (h, decode)

decode-escape :
    (c : ℕ) (s : Text) → c < 256 → decode (b'%' ∷ format_hex c ++ s) ≡ cons_ok c (decode s)
unfolding decode
decode-escape c s h =
    let joined : ((c / 16) * 16 + c % 16) % 256 ≡ c = omega (arith, h) in
    rw
      (hex_value-hex_char (c / 16) (omega arith), hex_value-hex_char (c % 16) (omega arith), joined)

plain_of_unreserved : (c : ℕ) → is_unreserved c ≡ true → eqb c b'%' ≡ false
unfolding is_unreserved
plain_of_unreserved c h = ground arith

plain_of_unescaped : (r : Text) (c : ℕ) → is_escaped r c ≡ false → eqb c b'%' ≡ false
unfolding is_escaped has_char
plain_of_unescaped r c h = ground arith

pub decode-encode_char :
    (r : Text) (c : ℕ) (s : Text) → c < 256 → decode (encode_char r c ++ s) ≡ cons_ok c (decode s)
unfolding encode_char
decode-encode_char r c s h = elim (Bool-cases (is_unreserved c)) [
  | inl e ↦ rw (e, decode-plain c s (plain_of_unreserved c e))
  | inr e ↦ elim (Bool-cases (is_escaped r c)) [
    | inl f ↦ rw (e, f, decode-escape c s h)
    | inr f ↦ rw (e, f, decode-plain c s (plain_of_unescaped r c f))
  ]
]

-- Any bytes, percent-encoded with any set of reserved characters, decode to themselves; in
-- particular decoding them throws nothing.
pub decode-encode : (s r : Text) → IsBytes s → decode (encode s r) ≡ ok s
unfolding encode decode
decode-encode [] r h = refl
decode-encode (c ∷ s) r (hc, hs) = rw (decode-encode_char r c (encode s r) hc, decode-encode s r hs)
