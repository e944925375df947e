-- ===== src/Http/Auth/Basic.antt =====
-- HTTPServer::handleRequest: which requests get to the controller.
use twitch_chat_worker.Base.{
  ℕ, suc, ◌+◌, ◌-◌, ◌*◌, ◌/◌, ◌%◌, ◌<◌, ◌≡◌, refl, sym, ap, ap₂, ◌∙◌, ◌≢◌, ◌↔◌, ◌⊎◌, inl, inr, Bool,
  true, false, not, Option, none, some, List, [], ◌∷◌, ◌++◌, arith, eqb, if◌then◌else◌, Bool-cases,
  eqb_iff, length, replicate, length-append, length-replicate, drop, take,
}
use twitch_chat_worker.Base.Key.{Text, codes, text_key, number_key, int_key, ◌==◌, eq_iff, eq_refl}
use twitch_chat_worker.HttpController
use twitch_chat_worker.HttpController.{Event, Handled, sends}
use twitch_chat_worker.HttpController.Paths.{StartsWith, handle_request_iff}
use twitch_chat_worker.Uri.{is_empty}
use twitch_chat_worker.Http.Auth.{
  Config, Response, find_space, type_of, encoded_of, refuses, passes, encode64, basic_auth, check,
  authorize, handle_request, not_acceptable, forbidden,
}

-- The first space parts the value.
abbrev Parted : Text → Option ℕ → Type 0
Parted value none = Unit
Parted value (some n) = value ≡ take n value ++ b' ' ∷ drop (n + 1) value

Parted-cons :
    (c : ℕ) (cs : Text) (o : Option ℕ)
    → Parted cs o
    → Parted (c ∷ cs) (elim o [ none ↦ none | some n ↦ some (suc n) ])
Parted-cons c cs none h = tt
Parted-cons c cs (some n) h =
    let shift : suc n + 1 ≡ suc (n + 1) = omega arith in
    ap (◌∷◌ c) h ∙ ap (λ m. c ∷ (take n cs ++ b' ' ∷ drop m (c ∷ cs))) (sym shift)

find_space-Parted : (value : Text) → Parted value (find_space value)
unfolding find_space
find_space-Parted [] = tt
find_space-Parted (c ∷ cs) = elim (Bool-cases (eqb c b' ')) [
  | inl e ↦ let space = (eqb_iff c b' ').0 e in rw (e, find_space) (ap (λ c. c ∷ cs) space)
  | inr e ↦ rw (e, find_space) (Parted-cons c cs (find_space cs) (find_space-Parted cs))
]

-- A value of the type Basic is the type, a space and what is encoded, unless it has no space.
split_value :
    (value : Text) (o : Option ℕ)
    → Parted value o
    → type_of o value ≡ codes "Basic"
    → (encoded_of o value ≡ codes "Basic") ⊎ (value ≡ codes "Basic " ++ encoded_of o value)
split_value value none h e = inl e
split_value value (some n) h e = inr (h ∙ ap (λ xs. xs ++ b' ' ∷ drop (n + 1) value) e)

-- The text that a client must encode.
abbrev pub credentials : Config → Text
credentials config = config.user ++ codes ":" ++ config.pass

-- The server asks for no password, or the client gives it.
abbrev pub HasAccess : (Text → Text) → Config → Option Text → Type 0
HasAccess base64_chars config authorization =
    (config.pass ≡ [])
    ⊎ (authorization ≡ some (codes "Basic " ++ encode64 base64_chars (credentials config)))

module _ (base64_chars : Text → Text)
    (base64_chars_length : (val : Text)
      → length (base64_chars val) ≡ (8 * length val + 5) / 6) where
  length-encode64 : (val : Text) → length (encode64 base64_chars val) ≡ 4 * ((length val + 2) / 3)
  unfolding encode64
  length-encode64 val = omega (
    arith,
    length-append (base64_chars val) (replicate ((3 - length val % 3) % 3) b'='),
    length-replicate {A = ℕ} ((3 - length val % 3) % 3) b'=',
    base64_chars_length val,
  )

  encode64-≢-Basic : (val : Text) → encode64 base64_chars val ≢ codes "Basic"
  encode64-≢-Basic val e =
      let same : length (encode64 base64_chars val) ≡ 5 = ap length e in
      omega (arith, same, length-encode64 val)

  basic_auth-set :
      (config : Config)
      → is_empty config.pass ≡ false
      → (basic_auth base64_chars config ≡ encode64 base64_chars (credentials config))
        × (is_empty (basic_auth base64_chars config) ≡ false)
  unfolding basic_auth
  basic_auth-set config h =
      let set : basic_auth base64_chars config ≡ encode64 base64_chars (credentials config) =
        rw (h, basic_auth) refl in
      (
        set,
        long (basic_auth base64_chars config) (
            omega (
              arith,
              ap length set,
              length-encode64 (credentials config),
              length-append config.user (codes ":"),
              length-append (config.user ++ codes ":") config.pass,
            )),
      )
    where
      long : (xs : Text) → 0 < length xs → is_empty xs ≡ false
      long [] h = absurd (omega arith)
      long (x ∷ xs) h = refl

  authorize-open :
      (config : Config) (authorization : Option Text)
      → is_empty config.pass ≡ true
      → authorize base64_chars config authorization ≡ none
  unfolding authorize basic_auth
  authorize-open config authorization h = rw (h, authorize, basic_auth) refl

  authorize-set :
      (config : Config) (authorization : Option Text)
      → is_empty config.pass ≡ false
      → authorize base64_chars config authorization
        ≡ check (encode64 base64_chars (credentials config)) authorization
  unfolding authorize
  authorize-set config authorization h =
      let (set, full) = basic_auth-set config h in
      ap₂ (λ b basic. if not b then check basic authorization else none) full set

both_hold :
    (b c : Bool) (x y : Response)
    → (if not b then some x else if not c then some y else none) ≡ none
    → (b ≡ true) × (c ≡ true)
both_hold true true x y h = (refl, refl)
both_hold true false x y h = cc h
both_hold false c x y h = cc h

both_held :
    (b c : Bool) (x y : Response)
    → b ≡ true
    → c ≡ true
    → (if not b then some x else if not c then some y else none) ≡ none
both_held b c x y p q = rw (p, q) refl

-- The tests let one value through.
check-none :
    (basic : Text) (authorization : Option Text)
    → basic ≢ codes "Basic"
    → (check basic authorization ≡ none) ↔ (authorization ≡ some (codes "Basic " ++ basic))
unfolding find_space
check-none basic authorization odd = (only authorization, passed)
  where
    passed : authorization ≡ some (codes "Basic " ++ basic) → check basic authorization ≡ none
    passed e =
        ap (check basic) e
        ∙ both_held (codes "Basic" == codes "Basic") (basic == basic) not_acceptable forbidden
            (eq_refl (codes "Basic")) (eq_refl basic)

    only : (a : Option Text) → check basic a ≡ none → a ≡ some (codes "Basic " ++ basic)
    only none h = cc h
    only (some value) h =
        let (is_basic, is_encoded) =
          both_hold (type_of (find_space value) value == codes "Basic")
            (encoded_of (find_space value) value == basic) not_acceptable forbidden h in
        let kind = (eq_iff (type_of (find_space value) value) (codes "Basic")).0 is_basic in
        let same = (eq_iff (encoded_of (find_space value) value) basic).0 is_encoded in
        elim (split_value value (find_space value) (find_space-Parted value) kind) [
          | inl e ↦ absurd (odd (sym same ∙ e))
          | inr e ↦ ap some (e ∙ ap (λ xs. codes "Basic " ++ xs) same)
        ]

passed_iff :
    (o : Option Response) (got want : Handled)
    → ((elim o [ some response ↦ refuses response | none ↦ passes got ]) ≡ passes want)
      ↔ ((o ≡ none) × (got ≡ want))
passed_iff none got want = (λ h. (refl, cc h), λ h. ap passes h.1)
passed_iff (some response) got want = (λ h. cc h, λ h. cc h.0)

module _ (base64_chars : Text → Text)
    (base64_chars_length : (val : Text)
      → length (base64_chars val) ≡ (8 * length val + 5) / 6) where
  authorize_iff :
      (config : Config) (authorization : Option Text)
      → (authorize base64_chars config authorization ≡ none)
        ↔ HasAccess base64_chars config authorization
  authorize_iff config authorization = elim (Bool-cases (is_empty config.pass)) [
    | inl e ↦ (
      λ _. inl (empty_text config.pass e),
      λ _. authorize-open base64_chars base64_chars_length config authorization e,
    )
    | inr e ↦
        let to = authorize-set base64_chars base64_chars_length config authorization e in
        let basic = encode64 base64_chars (credentials config) in
        let only =
          check-none basic authorization
            (encode64-≢-Basic base64_chars base64_chars_length (credentials config)) in
        (
          λ h. inr (only.0 (sym to ∙ h)),
          λ access. elim access [ inl p ↦ absurd (cc (e, ap is_empty p)) | inr q ↦ to ∙ only.1 q ],
        )
  ]
    where
      empty_text : (xs : Text) → is_empty xs ≡ true → xs ≡ []
      empty_text [] h = refl
      empty_text (x ∷ xs) h = cc h

  -- Where the characters of an encoding are as many as its text's bits divided by six, rounded up,
  -- a request becomes an event exactly if no password is configured or the header is Basic, a
  -- space and the encoded credentials, and the path starts with the event's path.
  pub handle_request-passes :
      (config : Config) (authorization : Option Text) (path : List Text) (event : Event)
      → (handle_request base64_chars config authorization path ≡ passes (sends event))
        ↔ (HasAccess base64_chars config authorization × StartsWith event path)
  unfolding handle_request
  handle_request-passes config authorization path event =
      let access = authorize_iff config authorization in
      let starts = handle_request_iff path event in
      let passing =
        passed_iff (authorize base64_chars config authorization)
          (HttpController.handle_request path) (sends event) in
      (
        λ h. let (free, sent) = passing.0 h in (access.0 free, starts.0 sent),
        λ (a, s). passing.1 (access.1 a, starts.1 s),
      )
