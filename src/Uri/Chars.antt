-- ===== src/Uri/Chars.antt =====
-- common/Utils.h and Utils.cpp: letters and numbers of the text that `URI` reads and writes.
pub mod Reading
use twitch_chat_worker.Base.{
  ℕ, zero, suc, ◌+◌, ◌-◌, ◌*◌, ◌/◌, ◌%◌, ◌^◌, Bool, true, false, ◌&&◌, ◌||◌, [], ◌∷◌, ◌++◌, map,
  ltb, leb, eqb, if◌then◌else◌,
}
use twitch_chat_worker.Base.Key.{Text, text_key, number_key}
use twitch_chat_worker.Base.Int.{ℤ, pos, negsuc}

abbrev pub between : ℕ → ℕ → ℕ → Bool
between low high c = leb low c && leb c high

abbrev pub is_digit : ℕ → Bool
is_digit = between b'0' b'9'

-- `find(c) != npos`
unfoldable pub has_char : ℕ → Text → Bool
has_char c [] = false
has_char c (d ∷ s) = eqb d c || has_char c s

-- `while (it != end && !stop(*it)) read += *it++`: what is read, and what is left
unfoldable pub read_until : (ℕ → Bool) → Text → Text × Text
read_until stop [] = ([], [])
read_until stop (c ∷ s) =
    let rest = read_until stop s in if stop c then ([], c ∷ s) else (c ∷ rest.0, rest.1)

-- `tolower` in the "C" locale
abbrev pub lower : ℕ → ℕ
lower c = if between b'A' b'Z' c then c + 32 else c

unfoldable pub to_lower : Text → Text
to_lower s = map lower s

abbrev pub hex_char : ℕ → ℕ
hex_char n = if ltb n 10 then b'0' + n else b'A' + (n - 10)

-- `formatHex(c, 2)` of a byte
abbrev pub format_hex : ℕ → Text
format_hex c = hex_char (c / 16) ∷ hex_char (c % 16) ∷ []

-- `std::to_string`, on fuel
unfoldable pub decimal_on : ℕ → ℕ → Text
decimal_on zero n = []
decimal_on (suc fuel) n =
    let high = decimal_on fuel (n / 10) in
    if ltb n 10 then (b'0' + n) ∷ [] else high ++ (b'0' + n % 10) ∷ []

-- A port has at most five digits.
abbrev pub port_to_string : ℕ → Text
port_to_string n = decimal_on 5 n

-- The value of the digits that the text starts with, after those read already.
unfoldable pub read_digits : ℕ → Text → ℕ
read_digits n [] = n
read_digits n (c ∷ s) =
    let rest = read_digits (n * 10 + (c - b'0')) s in if is_digit c then rest else n

-- `std::from_chars` into an `int` that is 0: what does not fit leaves it.
abbrev pub of_size : Bool → ℕ → ℤ
of_size true zero = pos 0
of_size true (suc n) = if leb (suc n) (2 ^ 31) then negsuc n else pos 0
of_size false n = if ltb n (2 ^ 31) then pos n else pos 0

unfoldable pub to_number : Text → ℤ
to_number [] = pos 0
to_number (c ∷ s) =
    if eqb c b'-' then of_size true (read_digits 0 s) else of_size false (read_digits 0 (c ∷ s))
