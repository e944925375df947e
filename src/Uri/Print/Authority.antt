-- ===== src/Uri/Print/Authority.antt =====
-- The authority that is printed, read again by `parseAuthority`.
use twitch_chat_worker.Base.{
  ℕ, ◌≡◌, refl, ◌∙◌, inl, inr, Bool, true, false, ◌&&◌, ◌||◌, not, [], ◌∷◌, ◌++◌, append-nil,
  append_assoc, arith, ltb, eqb, Bool-cases, All-append,
}
use twitch_chat_worker.Base.Key.{Text, text_key, number_key}
use twitch_chat_worker.Uri.{Uri, ok, is_empty, well_known, is_well_known_port}
use twitch_chat_worker.Uri.Chars.{
  has_char, read_until, to_lower, to_number, is_digit, port_to_string,
}
use twitch_chat_worker.Uri.Chars.Reading.{
  Passes, stops, read_until-append, Passes-map, has_char-Passes, decimal_on-digits,
  is_empty-port_to_string, to_number-port_to_string,
}
use twitch_chat_worker.Uri.Parse.{
  parse_port, port_of, set_host_and_port, parse_host_and_port, ends_authority, read_authority,
  parse_authority,
}
use twitch_chat_worker.Uri.Print.{host_text, port_text, get_authority}

-- Not in a host that is printed: an end of the authority, an `@` or a bracket.
abbrev pub breaks_host : ℕ → Bool
breaks_host c = ends_authority c || eqb c b'@' || eqb c b'[' || eqb c b']'

-- No port that is printed, or one that is read.
abbrev pub is_port : Uri → Bool
is_port u = is_well_known_port u || (ltb 0 u.port && ltb u.port 65536)

pub record HasAuthority (u : Uri) : Type 0 where
  pub no_info : u.user_info ≡ []
  pub host_named : is_empty u.host ≡ false
  pub host_plain : Passes breaks_host u.host
  pub host_low : to_lower u.host ≡ u.host
  pub port_known : is_port u ≡ true

-- An end of the authority or an `@`.
abbrev breaks_part : ℕ → Bool
breaks_part c = ends_authority c || eqb c b'@'

read_authority-append :
    (info part s t : Text)
    → Passes breaks_part s
    → stops ends_authority t ≡ true
    → read_authority info part (s ++ t) ≡ (info, part ++ s, t)
unfolding read_authority
read_authority-append info part [] [] p h = rw (append-nil part)
read_authority-append info part [] (c ∷ t) p h = rw (h, append-nil part, read_authority)
read_authority-append info part (c ∷ s) t (p, ps) h =
    let ends : ends_authority c ≡ false = ground (arith, p) in
    let at : eqb c b'@' ≡ false = ground (arith, p) in
    rw (
      ends,
      at,
      read_authority,
      read_authority-append info (part ++ c ∷ []) s t ps h,
      append_assoc part (c ∷ []) s,
    )

host_text-plain : (host : Text) → Passes breaks_host host → Passes breaks_part (host_text host)
host_text-plain host p =
    let plain = Passes-map breaks_host breaks_part host (λ c h. ground (arith, h)) p in
    elim (Bool-cases (has_char b':' host)) [
      | inl e ↦
          rw (e) (refl, All-append (λ c. breaks_part c ≡ false) host (b']' ∷ []) plain (refl, tt))
      | inr e ↦ rw (e) plain
    ]

port_text-plain : (u : Uri) → Passes breaks_part (port_text u)
port_text-plain u = elim (Bool-cases (not (eqb u.port 0) && not (is_well_known_port u))) [
  | inl e ↦ rw (e) (
    refl,
    Passes-map (λ c. not (is_digit c)) breaks_part (port_to_string u.port)
        (λ c h. ground (arith, h)) (decimal_on-digits 5 u.port),
  )
  | inr e ↦ rw (e) tt
]

parse_port-number :
    (u : Uri) (s : Text) → is_empty s ≡ false → parse_port u (b':' ∷ s) ≡ port_of (to_number s)
unfolding parse_port
parse_port-number u [] h = absurd (cc)
parse_port-number u (d ∷ s) h = refl

parse_port-port_text :
    (u v : Uri) → v.scheme ≡ u.scheme → is_port u ≡ true → parse_port v (port_text u) ≡ ok u.port
unfolding parse_port
parse_port-port_text u v hs h =
    elim (Bool-cases (not (eqb u.port 0) && not (is_well_known_port u))) [
      | inl e ↦
          let low : ltb 0 u.port ≡ true = ground (arith, e) in
          let high : ltb u.port 65536 ≡ true = ground (arith, e, h) in
          rw (e) (
            parse_port-number v (port_to_string u.port) (is_empty-port_to_string u.port)
            ∙ rw (to_number-port_to_string u.port (ground (arith, high)), low, high) refl)
      | inr e ↦ let known : well_known u.scheme ≡ u.port = ground (arith, e, h) in rw (e, hs, known)
    ]

stops-port_text : (u : Uri) → stops (eqb b':') (port_text u) ≡ true
stops-port_text u = elim (Bool-cases (not (eqb u.port 0) && not (is_well_known_port u))) [
  | inl e ↦ rw (e)
  | inr e ↦ rw (e)
]

-- With the host and the port of `u`.
abbrev placed : Uri → Uri → Uri
placed u v = record v { host = u.host; port = u.port }

module _ (u v : Uri) (scheme : v.scheme ≡ u.scheme) (h : HasAuthority u) where
  set_host_and_port-port_text : set_host_and_port v (u.host, port_text u) ≡ ok (placed u v)
  set_host_and_port-port_text = rw (parse_port-port_text u v scheme h.port_known, h.host_low)

  parse_host_and_port-bracketed :
      parse_host_and_port v (b'[' ∷ (u.host ++ b']' ∷ []) ++ port_text u) ≡ ok (placed u v)
  unfolding parse_host_and_port
  parse_host_and_port-bracketed =
      let passes =
        Passes-map breaks_host (eqb b']') u.host (λ c p. ground (arith, p)) h.host_plain in
      rw
        (
          append_assoc u.host (b']' ∷ []) (port_text u),
          read_until-append (eqb b']') u.host (b']' ∷ port_text u) passes refl,
        )
        set_host_and_port-port_text

parse_host_and_port-cons :
    (v : Uri) (host t : Text)
    → is_empty host ≡ false
    → Passes breaks_host host
    → parse_host_and_port v (host ++ t) ≡ set_host_and_port v (read_until (eqb b':') (host ++ t))
unfolding parse_host_and_port
parse_host_and_port-cons v [] t h p = absurd (cc)
parse_host_and_port-cons v (c ∷ s) t h (p, ps) =
    let bare : eqb c b'[' ≡ false = ground (arith, p) in rw (bare)

parse_host_and_port-host_text :
    (u v : Uri)
    → v.scheme ≡ u.scheme
    → HasAuthority u
    → parse_host_and_port v (host_text u.host ++ port_text u) ≡ ok (placed u v)
parse_host_and_port-host_text u v scheme h = elim (Bool-cases (has_char b':' u.host)) [
  | inl e ↦ rw (e) (parse_host_and_port-bracketed u v scheme h)
  | inr e ↦
      rw
        (
          e,
          parse_host_and_port-cons v u.host (port_text u) h.host_named h.host_plain,
          read_until-append (eqb b':') u.host (port_text u) (has_char-Passes b':' u.host e)
              (stops-port_text u),
        )
        (set_host_and_port-port_text u v scheme h)
]

pub parse_authority-get_authority :
    (u v : Uri) (t : Text)
    → v.scheme ≡ u.scheme
    → HasAuthority u
    → stops ends_authority t ≡ true
    → parse_authority v (get_authority u ++ t)
      ≡ ok (record v { user_info = []; host = u.host; port = u.port }, t)
unfolding parse_authority get_authority
parse_authority-get_authority u v t scheme h stop =
    let plain =
      All-append (λ c. breaks_part c ≡ false) (host_text u.host) (port_text u)
        (host_text-plain u.host h.host_plain) (port_text-plain u) in
    rw (
      h.no_info,
      read_authority-append v.user_info [] (host_text u.host ++ port_text u) t plain stop,
      parse_host_and_port-host_text u v scheme h,
    )
