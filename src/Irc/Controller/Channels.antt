-- ===== src/Irc/Controller/Channels.antt =====
-- The HTTP handlers of irc/IRCController.cpp for commands and for channels.
use twitch_chat_worker.Base.{ℕ, Bool, true, false, Option, none, some, List, [], ◌∷◌, ◌++◌}
use twitch_chat_worker.Base.Key.{Text, codes, text_key, number_key, int_key}
use twitch_chat_worker.Base.Dict.{Dict}
use twitch_chat_worker.Base.Fault.{◌>>=◌}
use twitch_chat_worker.Irc.Controller.{
  Controller, Sent, send_message, send_irc, join_channel, leave_channel, find_agent,
  get_irc_client_by_name, get_irc_client_by_id, send_to,
}
use twitch_chat_worker.Irc.Controller.Requests.{
  Item, a_text, a_number, other_item, Field, item, array, Request, field, marks, flags, nested,
  Outcome, refuse, answer, put, int_to_string, on_object,
}

-- The client of an element, and the key under which it is answered; anything else is passed over.
unfoldable pub custom_to :
    Text → Option ℕ → Text → Dict Text Bool → Controller → Option (List Sent × Dict Text Bool)
custom_to command none key body c = some ([], put key false body)
custom_to command (some a) key body c = do
  out ← send_to a (send_irc a command) c
  some (out, put key true body)

unfoldable pub custom_item :
    Text → Item → Dict Text Bool → Controller → Option (List Sent × Dict Text Bool)
custom_item command (a_text acc) body c =
    custom_to command (get_irc_client_by_name acc c) acc body c
custom_item command (a_number id) body c =
    custom_to command (get_irc_client_by_id id c) (int_to_string id) body c
custom_item command other_item body c = some ([], body)

unfoldable pub custom_items :
    Text → List Item → Dict Text Bool → Controller → Option (List Sent × Dict Text Bool)
custom_items command [] body c = some ([], body)
custom_items command (x ∷ xs) body c = do
  (out, body') ← custom_item command x body c
  (rest, body'') ← custom_items command xs body' c
  some (out ++ rest, body'')

abbrev on_text : Text → (Text → Outcome) → Field → Controller → Outcome
on_text error k (item (a_text t)) c = k t
on_text error k (item (a_number n)) c = refuse 400 error c
on_text error k (item other_item) c = refuse 400 error c
on_text error k (array items) c = refuse 400 error c

abbrev on_array : Text → (List Item → Outcome) → Field → Controller → Outcome
on_array error k (item x) c = refuse 400 error c
on_array error k (array items) c = k items

unfoldable pub evt_http_custom : Request → Controller → Outcome
evt_http_custom req c =
    on_object 400
      (λ o.
        on_text (codes "Invalid data type")
          (λ command.
            on_array (codes "Invalid accounts type")
              (λ accounts. do
                (out, body) ← custom_items command accounts [] c
                answer c out (marks body))
              (field (codes "accounts") o) c)
          (field (codes "data") o) c)
      req c

-- The text elements, in their order.
unfoldable pub texts_of : List Item → List Text
texts_of [] = []
texts_of (a_text t ∷ xs) = t ∷ texts_of xs
texts_of (a_number n ∷ xs) = texts_of xs
texts_of (other_item ∷ xs) = texts_of xs

unfoldable pub put_all : List Text → Dict Text Bool → Dict Text Bool
put_all [] body = body
put_all (name ∷ names) body = put_all names (put name true body)

-- A message for each name to the agent at an address.
unfoldable pub send_each : ℕ → (Text → Sent) → List Text → Controller → Option (List Sent)
send_each a message [] c = some []
send_each a message (name ∷ names) c = do
  out ← send_to a (message name) c
  rest ← send_each a message names c
  some (out ++ rest)

unfoldable pub join_channels : Option ℕ → Field → Controller → Outcome
join_channels none channels c = refuse 404 (codes "Account not found") c
join_channels (some a) channels c =
    on_array (codes "Invalid channels type")
      (λ items. do
        out ← send_each a (join_channel a) (texts_of items) c
        answer c out (flags (codes "joined") (put_all (texts_of items) [])))
      channels c

abbrev join_for : Field → Field → Controller → Outcome
join_for (item (a_text name)) channels c = join_channels (get_irc_client_by_name name c) channels c
join_for (item (a_number id)) channels c = join_channels (get_irc_client_by_id id c) channels c
join_for (item other_item) channels c = refuse 400 (codes "Invalid accounts type") c
join_for (array items) channels c = refuse 400 (codes "Invalid accounts type") c

unfoldable pub evt_http_channel_join : Request → Controller → Outcome
evt_http_channel_join req c =
    on_object 400 (λ o. join_for (field (codes "account") o) (field (codes "channels") o) c) req c

-- The loop over the clients by name, for one channel.
unfoldable pub leave_all : Text → Dict Text ℕ → Controller → Option (List Sent)
leave_all chan [] c = some []
leave_all chan ((name, a) ∷ clients) c = do
  out ← send_to a (leave_channel a chan) c
  rest ← leave_all chan clients c
  some (out ++ rest)

unfoldable pub leave_each : List Text → Controller → Option (List Sent)
leave_each [] c = some []
leave_each (chan ∷ chans) c = do
  out ← leave_all chan c.by_name c
  rest ← leave_each chans c
  some (out ++ rest)

unfoldable pub evt_http_channel_leave : Request → Controller → Outcome
evt_http_channel_leave req c =
    on_object 400
      (λ o.
        on_array (codes "Invalid channels type")
          (λ items. do
            out ← leave_each (texts_of items) c
            answer c out (flags (codes "leaved") (put_all (texts_of items) [])))
          (field (codes "channels") o) c)
      req c

-- `channel.get<std::string>()` throws on anything but a text.
unfoldable pub all_texts : List Item → Option (List Text)
all_texts [] = some []
all_texts (a_text t ∷ xs) = do ts ← all_texts xs; some (t ∷ ts)
all_texts (a_number n ∷ xs) = none
all_texts (other_item ∷ xs) = none

unfoldable pub client_of : Item → Controller → Option ℕ
client_of (a_text name) c = get_irc_client_by_name name c
client_of (a_number id) c = get_irc_client_by_id id c
client_of other_item c = none

-- The messages of one account; its entry in the body starts anew.
unfoldable pub message_from :
    ℕ
    → Text
    → List Item
    → Dict Text (Dict Text Bool)
    → Controller
    → Option (List Sent × Dict Text (Dict Text Bool))
message_from a text channels body c = elim (find_agent a c.agents) [
  | none ↦ none
  | some g ↦ do
    chans ← all_texts channels
    out ← send_each a (λ chan. send_message a chan text) chans c
    some (out, put g.nick (put_all chans []) body)
]

unfoldable pub messages_from :
    List Item
    → Text
    → List Item
    → Dict Text (Dict Text Bool)
    → Controller
    → Option (List Sent × Dict Text (Dict Text Bool))
messages_from [] text channels body c = some ([], body)
messages_from (x ∷ xs) text channels body c = elim (client_of x c) [
  | none ↦ messages_from xs text channels body c
  | some a ↦ do
    (out, body') ← message_from a text channels body c
    (rest, body'') ← messages_from xs text channels body' c
    some (out ++ rest, body'')
]

unfoldable pub evt_http_channel_message : Request → Controller → Outcome
evt_http_channel_message req c =
    on_object 400
      (λ o.
        on_text (codes "Invalid text type")
          (λ text.
            on_array (codes "Invalid accounts type")
              (λ accounts.
                on_array (codes "Invalid channels type")
                  (λ channels. do
                    (out, body) ← messages_from accounts text channels [] c
                    answer c out (nested body))
                  (field (codes "channels") o) c)
              (field (codes "accounts") o) c)
          (field (codes "text") o) c)
      req c
