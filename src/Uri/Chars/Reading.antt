-- ===== src/Uri/Chars/Reading.antt =====
-- The loops that read up to a character, and the numbers that are written and read again.
use twitch_chat_worker.Base.{
  ℕ, zero, suc, ◌+◌, ◌-◌, ◌*◌, ◌/◌, ◌%◌, ◌^◌, ◌<◌, ◌≡◌, refl, inl, inr, Bool, true, false, not, [],
  ◌∷◌, ◌++◌, arith, ltb, eqb, Bool-cases, All, All-append,
}
use twitch_chat_worker.Base.Key.{Text, text_key, number_key}
use twitch_chat_worker.Base.Int.{pos}
use twitch_chat_worker.Uri.{is_empty}
use twitch_chat_worker.Uri.Chars.{
  of_size, port_to_string, is_digit, has_char, read_until, decimal_on, read_digits, to_number,
}

-- No character of the text stops the loop.
abbrev pub Passes : (ℕ → Bool) → Text → Type 0
Passes stop s = All (λ c. stop c ≡ false) s

-- What is left begins with a character that stops it, or is empty.
abbrev pub stops : (ℕ → Bool) → Text → Bool
stops stop [] = true
stops stop (c ∷ s) = stop c

pub read_until-append :
    (stop : ℕ → Bool) (s t : Text)
    → Passes stop s
    → stops stop t ≡ true
    → read_until stop (s ++ t) ≡ (s, t)
unfolding read_until
read_until-append stop [] [] p h = refl
read_until-append stop [] (c ∷ t) p h = rw (h)
read_until-append stop (c ∷ s) t (p, ps) h = rw (p, read_until-append stop s t ps h)

pub Passes-map :
    (stop halt : ℕ → Bool) (s : Text)
    → ((c : ℕ) → stop c ≡ false → halt c ≡ false)
    → Passes stop s
    → Passes halt s
Passes-map stop halt [] f p = tt
Passes-map stop halt (c ∷ s) f (p, ps) = (f c p, Passes-map stop halt s f ps)

pub has_char-Passes : (d : ℕ) (s : Text) → has_char d s ≡ false → Passes (eqb d) s
unfolding has_char
has_char-Passes d [] h = tt
has_char-Passes d (c ∷ s) h = (ground (arith, h), has_char-Passes d s (ground (arith, h)))

read_digits-append :
    (m d : ℕ) (s : Text)
    → Passes (λ c. not (is_digit c)) s
    → d < 10
    → read_digits m (s ++ (b'0' + d) ∷ []) ≡ read_digits m s * 10 + d
unfolding read_digits
read_digits-append m d [] p h = ground (arith, h)
read_digits-append m d (c ∷ s) (p, ps) h =
    ground (arith, p, read_digits-append (m * 10 + (c - b'0')) d s ps h)

pub decimal_on-digits : (fuel n : ℕ) → Passes (λ c. not (is_digit c)) (decimal_on fuel n)
unfolding decimal_on
decimal_on-digits zero n = tt
decimal_on-digits (suc fuel) n = elim (Bool-cases (ltb n 10)) [
  | inl e ↦ rw (e) (ground (arith, e), tt)
  | inr e ↦ rw (e) (
      All-append (λ c. not (is_digit c) ≡ false) (decimal_on fuel (n / 10)) ((b'0' + n % 10) ∷ [])
        (decimal_on-digits fuel (n / 10)) (ground arith, tt))
]

read_digits-decimal_on : (fuel n : ℕ) → n < 10 ^ fuel → read_digits 0 (decimal_on fuel n) ≡ n
unfolding read_digits decimal_on
read_digits-decimal_on zero n h = omega (arith, h)
read_digits-decimal_on (suc fuel) n h = elim (Bool-cases (ltb n 10)) [
  | inl e ↦ rw (e) (ground (arith, e))
  | inr e ↦
      rw
        (
          e,
          read_digits-append 0 (n % 10) (decimal_on fuel (n / 10)) (decimal_on-digits fuel (n / 10))
              (omega arith),
          read_digits-decimal_on fuel (n / 10) (grind (arith, h)),
        )
        (omega arith)
]

is_empty-append : (s : Text) (c : ℕ) (t : Text) → is_empty (s ++ c ∷ t) ≡ false
is_empty-append [] c t = refl
is_empty-append (d ∷ s) c t = refl

pub is_empty-port_to_string : (n : ℕ) → is_empty (port_to_string n) ≡ false
unfolding decimal_on
is_empty-port_to_string n = elim (Bool-cases (ltb n 10)) [
  | inl e ↦ rw (e) refl
  | inr e ↦ rw (e) (is_empty-append (decimal_on 4 (n / 10)) (b'0' + n % 10) [])
]

to_number-digits :
    (s : Text)
    → is_empty s ≡ false
    → Passes (λ c. not (is_digit c)) s
    → to_number s ≡ of_size false (read_digits 0 s)
unfolding to_number
to_number-digits [] h p = absurd (cc)
to_number-digits (c ∷ s) h (p, ps) =
    let digit : eqb c b'-' ≡ false = ground (arith, p) in rw (digit)

pub to_number-port_to_string : (n : ℕ) → n < 65536 → to_number (port_to_string n) ≡ pos n
to_number-port_to_string n h =
    let small : ltb n (2 ^ 31) ≡ true = ground (arith, h) in
    rw (
      to_number-digits (port_to_string n) (is_empty-port_to_string n) (decimal_on-digits 5 n),
      read_digits-decimal_on 5 n (omega (arith, h)),
      small,
    )
