-- ===== src/MessageProcessor.antt =====
-- MessageProcessor.h and .cpp, with irc/IRCMessage.h and ChatMessage.h: a line of IRC becomes a chat
-- message. What the language detector says is a parameter; the identifier of a message is left out.
use twitch_chat_worker.Base.{ℕ, Bool, not, List, [], ◌∷◌, if◌then◌else◌}
use twitch_chat_worker.Base.Key.{Text, codes, text_key, number_key, int_key}
use twitch_chat_worker.Uri.{is_empty}
use twitch_chat_worker.Irc.Session.{Message}

-- `Chat::Message`
pub record ChatMessage : Type 0 where
  pub user : Text
  pub channel : Text
  pub text : Text
  pub lang : Text
  pub timestamp : ℕ
  pub valid : Bool

module _ (detect : Text → Text) where
  -- `language_recognition` is the only field of the configuration.
  unfoldable pub transform : Bool → Message → ChatMessage
  transform language_recognition m = record {
    user = m.nickname;
    channel = m.channel;
    text = m.text;
    lang = if language_recognition then detect m.text else codes "UNKNOWN";
    timestamp = m.timestamp;
    valid = not (is_empty m.text);
  }

  -- What goes to the listener.
  unfoldable pub evt_irc_message : Bool → Message → List ChatMessage
  evt_irc_message language_recognition m = transform language_recognition m ∷ []
