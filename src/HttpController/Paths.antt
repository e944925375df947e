-- ===== src/HttpController/Paths.antt =====
-- The path of each event.
use twitch_chat_worker.Base.{
  ℕ, zero, suc, ◌+◌, ◌-◌, ◌*◌, ◌/◌, ◌%◌, ◌^◌, ◌≤◌, ◌<◌, ◌≡◌, refl, sym, ap, ap₂, subst, ◌∙◌, ◌≢◌,
  ◌↔◌, ◌⊎◌, inl, inr, Bool, true, false, ◌&&◌, ◌||◌, not, Option, none, some, List, [], ◌∷◌, ◌++◌,
  map, append-nil, append_assoc, arith, u32_mod, ltb, leb, eqb, if◌then◌else◌, Bool-cases, eqb_iff,
  length, get_elem?, take, filter, All, All-append,
}
use twitch_chat_worker.Base.Key.{Text, codes, text_key, number_key, int_key, ◌==◌, eq_iff, eq_refl}
use twitch_chat_worker.HttpController.{
  Event, Handled, bad_request, not_found, sends, match_handle, match_irc, match_third, or_else,
  stats_events, irc_events, channel_events, account_events, app_events, bot_events, handle_request,
  stats_irc, stats_account, stats_channel, stats_bot, stats_storage, stats_db, stats_so5disp,
  irc_reload, irc_custom, channel_join, channel_leave, channel_message, account_reload, account_add,
  account_remove, app_shutdown, app_version, bot_add, bot_remove, bot_reload, bot_reloadall,
}

abbrev pub path_of : Event → List Text
path_of stats_irc = codes "stats" ∷ codes "irc" ∷ []
path_of stats_account = codes "stats" ∷ codes "account" ∷ []
path_of stats_channel = codes "stats" ∷ codes "channel" ∷ []
path_of stats_bot = codes "stats" ∷ codes "bot" ∷ []
path_of stats_storage = codes "stats" ∷ codes "storage" ∷ []
path_of stats_db = codes "stats" ∷ codes "db" ∷ []
path_of stats_so5disp = codes "stats" ∷ codes "so5disp" ∷ []
path_of irc_reload = codes "irc" ∷ codes "reload" ∷ []
path_of irc_custom = codes "irc" ∷ codes "custom" ∷ []
path_of channel_join = codes "irc" ∷ codes "channel" ∷ codes "join" ∷ []
path_of channel_leave = codes "irc" ∷ codes "channel" ∷ codes "leave" ∷ []
path_of channel_message = codes "irc" ∷ codes "channel" ∷ codes "message" ∷ []
path_of account_reload = codes "irc" ∷ codes "account" ∷ codes "reload" ∷ []
path_of account_add = codes "irc" ∷ codes "account" ∷ codes "add" ∷ []
path_of account_remove = codes "irc" ∷ codes "account" ∷ codes "remove" ∷ []
path_of app_shutdown = codes "app" ∷ codes "shutdown" ∷ []
path_of app_version = codes "app" ∷ codes "version" ∷ []
path_of bot_add = codes "bot" ∷ codes "add" ∷ []
path_of bot_remove = codes "bot" ∷ codes "remove" ∷ []
path_of bot_reload = codes "bot" ∷ codes "reload" ∷ []
path_of bot_reloadall = codes "bot" ∷ codes "reloadall" ∷ []

handle_request-path_of :
    (event : Event) (rest : List Text) → handle_request (path_of event ++ rest) ≡ sends event
unfolding handle_request match_handle match_irc match_third twitch_chat_worker.Base.Key.text_eq
handle_request-path_of stats_irc rest = refl
handle_request-path_of stats_account rest = refl
handle_request-path_of stats_channel rest = refl
handle_request-path_of stats_bot rest = refl
handle_request-path_of stats_storage rest = refl
handle_request-path_of stats_db rest = refl
handle_request-path_of stats_so5disp rest = refl
handle_request-path_of irc_reload rest = refl
handle_request-path_of irc_custom rest = refl
handle_request-path_of channel_join rest = refl
handle_request-path_of channel_leave rest = refl
handle_request-path_of channel_message rest = refl
handle_request-path_of account_reload rest = refl
handle_request-path_of account_add rest = refl
handle_request-path_of account_remove rest = refl
handle_request-path_of app_shutdown rest = refl
handle_request-path_of app_version rest = refl
handle_request-path_of bot_add rest = refl
handle_request-path_of bot_remove rest = refl
handle_request-path_of bot_reload rest = refl
handle_request-path_of bot_reloadall rest = refl

-- Every entry's path is the prefix and its name.
abbrev AllUnder : List Text → List (Text × Event) → Type 0
AllUnder prefix args = All (λ x. path_of x.1 ≡ prefix ++ x.0 ∷ []) args

match_handle-path_of :
    (prefix : List Text) (name : Text) (args : List (Text × Event)) (event : Event)
    → AllUnder prefix args
    → match_handle name args ≡ sends event
    → path_of event ≡ prefix ++ name ∷ []
unfolding match_handle
match_handle-path_of prefix name [] event all h = absurd (cc)
match_handle-path_of prefix name ((arg, other) ∷ args) event (p, all) h =
    elim (Bool-cases (name == arg)) [
      | inl e ↦
          let same_event : other ≡ event = ground (arith, e, h) in
          ap path_of (sym same_event) ∙ p ∙ ap (λ n. prefix ++ n ∷ []) (sym ((eq_iff name arg).0 e))
      | inr e ↦ match_handle-path_of prefix name args event all (ground (arith, e, h))
    ]

-- The path starts with that of the event.
abbrev pub StartsWith : Event → List Text → Type 0
StartsWith event path = (rest : List Text) × (path ≡ path_of event ++ rest)

second_starts :
    (key : Text) (args : List (Text × Event)) (first second : Text) (rest : List Text)
    (event : Event)
    → AllUnder (key ∷ []) args
    → (first == key) ≡ true
    → match_handle second args ≡ sends event
    → StartsWith event (first ∷ second ∷ rest)
second_starts key args first second rest event all e h = (
  rest,
  ap (λ k. k ∷ second ∷ rest) ((eq_iff first key).0 e)
      ∙ ap (λ p. p ++ rest) (sym (match_handle-path_of (key ∷ []) second args event all h)),
)

third_starts :
    (key : Text) (args : List (Text × Event)) (first second third : Text) (rest : List Text)
    (event : Event)
    → AllUnder (codes "irc" ∷ key ∷ []) args
    → (first == codes "irc") ≡ true
    → (second == key) ≡ true
    → match_handle third args ≡ sends event
    → StartsWith event (first ∷ second ∷ third ∷ rest)
third_starts key args first second third rest event all e f h = (
  rest,
  ap₂ (λ k l. k ∷ l ∷ third ∷ rest) ((eq_iff first (codes "irc")).0 e) ((eq_iff second key).0 f)
      ∙ ap (λ p. p ++ rest)
          (sym (match_handle-path_of (codes "irc" ∷ key ∷ []) third args event all h)),
)

match_third-starts :
    (first second : Text) (rest : List Text) (event : Event)
    → (first == codes "irc") ≡ true
    → match_third second rest ≡ sends event
    → StartsWith event (first ∷ second ∷ rest)
unfolding match_third
match_third-starts first second [] event e h = absurd (cc)
match_third-starts first second (third ∷ rest) event e h =
    elim (Bool-cases (second == codes "channel")) [
      | inl f ↦
          third_starts (codes "channel") channel_events first second third rest event
            (refl, (refl, (refl, tt))) e f (ground (arith, f, h))
      | inr f ↦ elim (Bool-cases (second == codes "account")) [
        | inl g ↦
            third_starts (codes "account") account_events first second third rest event
              (refl, (refl, (refl, tt))) e g (ground (arith, f, g, h))
        | inr g ↦ absurd (ground (arith, f, g, h))
      ]
    ]

or_else-sends :
    (a b : Handled) (event : Event)
    → or_else a b ≡ sends event
    → (a ≡ sends event) ⊎ (b ≡ sends event)
or_else-sends (sends other) b event h = inl h
or_else-sends bad_request b event h = absurd (cc)
or_else-sends not_found b event h = inr h

match_irc-starts :
    (first second : Text) (rest : List Text) (event : Event)
    → (first == codes "irc") ≡ true
    → match_irc second rest ≡ sends event
    → StartsWith event (first ∷ second ∷ rest)
unfolding match_irc
match_irc-starts first second rest event e h =
    elim (or_else-sends (match_handle second irc_events) (match_third second rest) event h) [
      | inl k ↦
          second_starts (codes "irc") irc_events first second rest event (refl, (refl, tt)) e k
      | inr k ↦ match_third-starts first second rest event e k
    ]

handle_request-starts :
    (path : List Text) (event : Event) → handle_request path ≡ sends event → StartsWith event path
unfolding handle_request
handle_request-starts [] event h = absurd (cc)
handle_request-starts (first ∷ []) event h = absurd (cc)
handle_request-starts (first ∷ second ∷ rest) event h = elim (Bool-cases (first == codes "stats")) [
  | inl e ↦
      second_starts (codes "stats") stats_events first second rest event
        (refl, (refl, (refl, (refl, (refl, (refl, (refl, tt))))))) e (ground (arith, e, h))
  | inr e ↦ elim (Bool-cases (first == codes "irc")) [
    | inl f ↦ match_irc-starts first second rest event f (ground (arith, e, f, h))
    | inr f ↦ elim (Bool-cases (first == codes "app")) [
      | inl g ↦
          second_starts (codes "app") app_events first second rest event (refl, (refl, tt)) g
            (ground (arith, e, f, g, h))
      | inr g ↦ elim (Bool-cases (first == codes "bot")) [
        | inl k ↦
            second_starts (codes "bot") bot_events first second rest event
              (refl, (refl, (refl, (refl, tt)))) k (ground (arith, e, f, g, k, h))
        | inr k ↦ absurd (ground (arith, e, f, g, k, h))
      ]
    ]
  ]
]

-- Each event has one path, and is sent for the requests whose path starts with it and for no
-- others.
pub handle_request_iff :
    (path : List Text) (event : Event) → (handle_request path ≡ sends event) ↔ StartsWith event path
handle_request_iff path event = (
  handle_request-starts path event,
  λ (rest, e). ap handle_request e ∙ handle_request-path_of event rest,
)
