-- ===== src/DbController/BotRows.antt =====
-- `loadBotConfigurations` and `loadBotConfiguration` of DBController.cpp, and how they agree.
use twitch_chat_worker.Base.{
  ◌≡◌, refl, ap, ◌∙◌, ◌⊎◌, inl, inr, Bool, true, false, Option, none, some, List, [], ◌∷◌, ◌++◌,
  map, append-nil, append_assoc, if◌then◌else◌, Bool-cases, filter, All,
}
use twitch_chat_worker.Base.Key.{Text, text_key, number_key, int_key, ◌==◌}
use twitch_chat_worker.Base.Int.{ℤ, pos}
use twitch_chat_worker.Base.Dict.{Dict, lookup, emplace, update, value_or, lookup-update-emplace}
use twitch_chat_worker.Base.Fault.{◌>>=◌}
use twitch_chat_worker.DbController.{Row, Reply, column, number_at, each_row, rows_of}

-- `EventHandlerConfiguration`
pub record HandlerConfig : Type 0 where
  pub id : ℤ
  pub type_id : ℤ
  pub text : Text
  pub additional : Text

-- `BotConfiguration`
pub record BotConfig : Type 0 where
  pub bot_id : ℤ
  pub user_id : ℤ
  pub account : Text
  pub channel : Text
  pub handlers : List HandlerConfig

abbrev pub no_config : BotConfig
no_config = record { bot_id = pos 0; user_id = pos 0; account = []; channel = []; handlers = [] }

-- A row of the join: a bot, an account, a channel and a handler.
pub record BotRow : Type 0 where
  pub id : ℤ
  pub user_id : ℤ
  pub account : Text
  pub channel : Text
  pub handler : HandlerConfig

unfoldable pub read_bot_row : Row → Option BotRow
read_bot_row row = do
  id ← number_at 0 row
  user ← number_at 1 row
  account ← column 2 row
  channel ← column 3 row
  handler ← number_at 4 row
  type ← number_at 5 row
  text ← column 6 row
  additional ← column 7 row
  some (record {
    id = id;
    user_id = user;
    account = account;
    channel = channel;
    handler = record { id = handler; type_id = type; text = text; additional = additional };
  })

abbrev pub with_row : BotRow → BotConfig → BotConfig
with_row r c = record {
  bot_id = r.id;
  user_id = r.user_id;
  account = r.account;
  channel = r.channel;
  handlers = c.handlers ++ r.handler ∷ [];
}

-- The loop of `loadBotConfigurations`: `configurations[id]` makes an entry if there is none.
unfoldable pub grouped : List BotRow → Dict ℤ BotConfig → Dict ℤ BotConfig
grouped [] m = m
grouped (r ∷ rs) m = grouped rs (update r.id (with_row r) (emplace r.id no_config m))

unfoldable pub load_bot_configurations : Reply → Option (Dict ℤ BotConfig)
unfolding grouped read_bot_row
load_bot_configurations reply = do rs ← each_row read_bot_row (rows_of reply); some (grouped rs [])

abbrev pub handlers_of : List BotRow → List HandlerConfig
handlers_of rs = map (λ r. r.handler) rs

-- The first row, with the handlers of all.
abbrev pub configured : List BotRow → BotConfig
configured [] = no_config
configured (r ∷ rs) = record {
  bot_id = r.id;
  user_id = r.user_id;
  account = r.account;
  channel = r.channel;
  handlers = handlers_of (r ∷ rs);
}

-- A row that has the column 7 has those before it, so that reading all of them faults no more.
unfoldable pub load_bot_configuration : Reply → Option BotConfig
unfolding read_bot_row
load_bot_configuration reply = do rs ← each_row read_bot_row (rows_of reply); some (configured rs)

-- What `WHERE bot.id = id` leaves of the rows.
abbrev pub rows_with : ℤ → List BotRow → List BotRow
rows_with id rs = filter (λ r. r.id == id) rs

-- The same bot, user, account and channel.
pub record Agrees (r s : BotRow) : Type 0 where
  pub same_id : s.id ≡ r.id
  pub same_user : s.user_id ≡ r.user_id
  pub same_account : s.account ≡ r.account
  pub same_channel : s.channel ≡ r.channel

abbrev pub AllAgree : List BotRow → Type 0
AllAgree [] = Unit
AllAgree (r ∷ rs) = All (Agrees r) rs

abbrev pub is_nil : List BotRow → Bool
is_nil [] = true
is_nil (r ∷ rs) = false

-- The rows of one bot, added one after another.
abbrev add_rows : List BotRow → Option BotConfig → Option BotConfig
add_rows [] o = o
add_rows (r ∷ rs) o = add_rows rs (some (with_row r (value_or no_config o)))

lookup-grouped :
    (id : ℤ) (rs : List BotRow) (m : Dict ℤ BotConfig)
    → lookup id (grouped rs m) ≡ add_rows (rows_with id rs) (lookup id m)
unfolding grouped
lookup-grouped id [] m = refl
lookup-grouped id (r ∷ rs) m =
    lookup-grouped id rs (update r.id (with_row r) (emplace r.id no_config m))
    ∙ ap (add_rows (rows_with id rs)) (lookup-update-emplace r.id id (with_row r) no_config m)
    ∙ chosen (Bool-cases (r.id == id))
  where
    chosen :
        ((r.id == id) ≡ true) ⊎ ((r.id == id) ≡ false)
        → add_rows (rows_with id rs) (
            if r.id == id
            then some (with_row r (value_or no_config (lookup id m)))
            else lookup id m)
          ≡ add_rows (rows_with id (r ∷ rs)) (lookup id m)
    chosen (inl e) = rw (e)
    chosen (inr e) = rw (e)

add_rows-agree :
    (r : BotRow) (rs : List BotRow) (hs : List HandlerConfig)
    → All (Agrees r) rs
    → add_rows rs (some (record (configured (r ∷ [])) { handlers = hs }))
      ≡ some (record (configured (r ∷ [])) { handlers = hs ++ handlers_of rs })
add_rows-agree r [] hs h = rw (append-nil hs)
add_rows-agree r (s ∷ rs) hs (a, h) =
    rw (a.same_id, a.same_user, a.same_account, a.same_channel)
      (add_rows-agree r rs (hs ++ s.handler ∷ []) h
        ∙ ap (λ all. some (record (configured (r ∷ [])) { handlers = all }))
            (append_assoc hs (s.handler ∷ []) (handlers_of rs)))

add_rows-configured :
    (rs : List BotRow)
    → AllAgree rs
    → add_rows rs none ≡ (if is_nil rs then none else some (configured rs))
add_rows-configured [] h = refl
add_rows-configured (r ∷ rs) h = add_rows-agree r rs (r.handler ∷ []) h

-- Where the rows of a bot agree on its user, account and channel, the entry that
-- `loadBotConfigurations` has for it is what `loadBotConfiguration` makes of these rows alone, and
-- there is none without rows.
pub grouped-configured :
    (id : ℤ) (rs : List BotRow)
    → AllAgree (rows_with id rs)
    → lookup id (grouped rs [])
      ≡ (if is_nil (rows_with id rs) then none else some (configured (rows_with id rs)))
unfolding lookup
grouped-configured id rs h = lookup-grouped id rs [] ∙ add_rows-configured (rows_with id rs) h
