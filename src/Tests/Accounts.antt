-- ===== src/Tests/Accounts.antt =====
-- Runs of IRCController.cpp and DBController.cpp.
use twitch_chat_worker.Base.{
  ℕ, zero, suc, ◌+◌, ◌-◌, ◌*◌, ◌/◌, ◌%◌, ◌^◌, ◌≤◌, ◌<◌, ◌≡◌, refl, sym, ap, ap₂, subst, ◌∙◌, ◌≢◌,
  ◌↔◌, ◌⊎◌, inl, inr, Bool, true, false, ◌&&◌, ◌||◌, not, Option, none, some, List, [], ◌∷◌, ◌++◌,
  map, append-nil, append_assoc, arith, ltb, leb, eqb, if◌then◌else◌, Bool-cases, eqb_iff, length,
  get_elem?, filter, All, All-append,
}
use twitch_chat_worker.Base.Key.{Text, codes, text_key, number_key, int_key, ◌==◌, eq_iff, eq_refl}
use twitch_chat_worker.Base.Int.{ℤ, pos}
use twitch_chat_worker.Base.Dict.{lookup, has, insert_at, emplace}
use twitch_chat_worker.DbController.{Account, no_account, rows, load_account}
use twitch_chat_worker.DbController.BotRows.{
  BotRow, HandlerConfig, grouped, configured, rows_with, is_nil, grouped-configured,
}
use twitch_chat_worker.Irc.Controller.{
  Agent, Controller, shutdown, find_agent, reload_agent, add_new_irc_client, evt_send_message,
}
use twitch_chat_worker.Irc.Controller.Requests.{remove_account, answer, about}
use twitch_chat_worker.Irc.Controller.Pointers.{IsSound}
use twitch_chat_worker.Irc.Controller.Runs.{
  Reachable, started, added, Reachable-IsSound, message_for, evt_send_message-Reachable,
  reload-remove_account,
}

abbrev no_clients : Controller
no_clients = record { by_name = []; by_id = []; agents = []; fresh = 0 }

abbrev alice : Account
alice = record no_account { id = pos 7; nick = codes "alice" }

abbrev bob : Account
bob = record no_account { id = pos 8; nick = codes "bob" }

abbrev two_clients : Controller
two_clients = add_new_irc_client bob (add_new_irc_client alice no_clients)

two_clients-Reachable : Reachable two_clients
unfolding add_new_irc_client lookup emplace has insert_at twitch_chat_worker.Base.Key.int_eq
    twitch_chat_worker.Base.Key.text_eq
two_clients-Reachable = added bob (added alice started refl) refl

Reachable-IsSound_example : IsSound two_clients
Reachable-IsSound_example = Reachable-IsSound two_clients two_clients-Reachable

evt_send_message-Reachable_example :
    evt_send_message (codes "bob") (codes "#a") (codes "hi") two_clients
    ≡ some (
        message_for
          (lookup (codes "bob") two_clients.by_name)
          (codes "bob")
          (codes "#a")
          (codes "hi"))
evt_send_message-Reachable_example =
    evt_send_message-Reachable two_clients (codes "bob") (codes "#a") (codes "hi")
      two_clients-Reachable

abbrev renamed : Account
renamed = record bob { nick = codes "rob" }

abbrev bob_agent : Agent
bob_agent = record { address = 1; id = pos 8; nick = codes "bob" }

reload-remove_account_example :
    (c' : Controller) × (remove_account
        (pos 8)
        (record two_clients { agents = reload_agent 1 renamed two_clients.agents })
      ≡ answer c' (shutdown 1 ∷ []) (about (pos 8) (codes "Account removed")))
    × (evt_send_message (codes "bob") (codes "#a") (codes "hi") c' ≡ none)
unfolding add_new_irc_client lookup emplace has insert_at find_agent
    twitch_chat_worker.Base.Key.int_eq twitch_chat_worker.Base.Key.text_eq
    twitch_chat_worker.Base.Key.int_before twitch_chat_worker.Base.Key.text_before
reload-remove_account_example =
    reload-remove_account two_clients (pos 8) 1 bob_agent renamed (codes "#a") (codes "hi") refl
      refl refl refl

-- SELECT username, display, oauth, channels_limit, whisper, auth, command, sessions: the whisper limit 3
-- becomes the limit of commands.
mixed_limits :
    load_account (pos 7) (
      rows (
        (codes "alice"
          ∷ codes "Alice"
          ∷ codes "x"
          ∷ codes "20"
          ∷ codes "3"
          ∷ codes "2"
          ∷ codes "100"
          ∷ codes "1"
          ∷ [])
        ∷ []))
    ≡ some (record alice {
      user = codes "Alice";
      password = codes "x";
      command_per_sec_limit = pos 3;
      whisper_per_sec_limit = pos 2;
      auth_per_sec_limit = pos 100;
    })
unfolding load_account twitch_chat_worker.DbController.read_account
    twitch_chat_worker.Uri.Chars.to_number twitch_chat_worker.Uri.Chars.read_digits
mixed_limits = refl

abbrev handler : ℤ → HandlerConfig
handler id = record { id = id; type_id = pos 1; text = []; additional = [] }

abbrev bot_row : ℤ → ℤ → BotRow
bot_row id h = record {
  id = id;
  user_id = pos 3;
  account = codes "bot";
  channel = codes "a";
  handler = handler h;
}

abbrev bot_rows : List BotRow
bot_rows = bot_row (pos 1) (pos 10) ∷ bot_row (pos 2) (pos 11) ∷ bot_row (pos 1) (pos 12) ∷ []

grouped-configured_example : lookup (pos 1) (grouped bot_rows []) ≡ (
    if is_nil (rows_with (pos 1) bot_rows)
    then none
    else some (configured (rows_with (pos 1) bot_rows)))
unfolding twitch_chat_worker.Base.Key.int_eq
grouped-configured_example =
    grouped-configured (pos 1) bot_rows
      (record { same_id = refl; same_user = refl; same_account = refl; same_channel = refl }, tt)
