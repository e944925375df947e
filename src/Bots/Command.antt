-- ===== src/Bots/Command.antt =====
-- bot/handlers/BotMessageEventHandlerCommand.h and .cpp: a handler that answers a command. What stands
-- between a request's JSON and its fields is an argument, `absl::StartsWith` a parameter.
use twitch_chat_worker.Base.{
  Bool, false, ◌&&◌, ◌||◌, not, Option, none, some, List, [], ◌∷◌, ◌++◌, if◌then◌else◌,
}
use twitch_chat_worker.Base.Key.{Text, text_key, number_key, int_key, ◌==◌}
use twitch_chat_worker.Base.Int.{ℤ}
use twitch_chat_worker.Base.Dict.{value_or}
use twitch_chat_worker.Uri.{is_empty}
use twitch_chat_worker.DbController.BotRows.{BotConfig}
use twitch_chat_worker.MessageProcessor.{ChatMessage}

-- The texts and the boolean that `additional` holds where it should.
pub record Fields : Type 0 where
  pub route_text : Option Text
  pub route_user : Option Text
  pub params_mention : Option Bool

-- A text that does not parse, one on which `[]` throws, or the fields.
pub data Additional : Type 0 where
  discarded throws : Additional
  fields : Fields → Additional

-- `BotMessageEventHandlerCommand`
pub record Handler : Type 0 where
  pub id : ℤ
  pub valid : Bool
  pub command : Text
  pub user : Text
  pub text : Text
  pub mention : Bool

abbrev pub invalid : ℤ → Text → Handler
invalid id text = record {
  id = id;
  valid = false;
  command = [];
  user = [];
  text = text;
  mention = false;
}

-- The constructor: `additional` is not looked at without a text.
unfoldable pub new_handler : ℤ → Text → Additional → Option Handler
new_handler id text discarded = some (invalid id text)
new_handler id text throws = if is_empty text then some (invalid id text) else none
new_handler id text (fields f) =
    if is_empty text
    then some (invalid id text)
    else some (record {
      id = id;
      valid = not (is_empty (value_or [] f.route_text));
      command = value_or [] f.route_text;
      user = value_or [] f.route_user;
      text = text;
      mention = value_or false f.params_mention;
    })

-- `Chat::SendMessage`, with the account, the channel and the text, and `Bot::LogMessage`, with the user,
-- the bot, the handler and the text
pub data Out : Type 0 where
  send : Text → Text → Text → Out
  log : ℤ → ℤ → ℤ → Text → Out

unfoldable pub answer_text : Handler → Text → Text
answer_text h user = if h.mention then b'@' ∷ user ++ b' ' ∷ [] ++ h.text else h.text

abbrev pub answers : Handler → BotConfig → Text → List Out
answers h config text =
    send config.account config.channel text ∷ log config.user_id config.bot_id h.id text ∷ []

module _ (starts_with : Text → Text → Bool) where
  unfoldable pub handle_bot_message : Handler → BotConfig → ChatMessage → List Out
  unfolding answer_text
  handle_bot_message h config m =
      if not h.valid || not (starts_with m.text h.command)
      then []
      else if not (is_empty h.user) && not (m.user == h.user)
      then []
      else answers h config (answer_text h m.user)
