-- ===== src/Tests/Answers.antt =====
-- Runs of HttpController.cpp, common/ThreadPool.cpp, and of a line that a command answers.
use twitch_chat_worker.Base.{
  ℕ, zero, suc, ◌+◌, ◌-◌, ◌*◌, ◌/◌, ◌%◌, ◌^◌, ◌≤◌, ◌<◌, ◌≡◌, refl, sym, ap, ap₂, subst, ◌∙◌, ◌≢◌,
  ◌↔◌, ◌⊎◌, inl, inr, Bool, true, false, ◌&&◌, ◌||◌, not, Option, none, some, List, [], ◌∷◌, ◌++◌,
  map, append-nil, append_assoc, arith, u32_mod, ltb, leb, eqb, if◌then◌else◌, Bool-cases, eqb_iff,
  length, get_elem?, take, filter, All, All-append,
}
use twitch_chat_worker.Base.Key.{Text, codes, text_key, number_key, int_key, ◌==◌, eq_iff, eq_refl}
use twitch_chat_worker.Base.Int.{pos}
use twitch_chat_worker.HttpController.{
  handle_request, bad_request, not_found, match_handle, match_irc, match_third,
}
use twitch_chat_worker.ThreadPool.{
  Pool, new_pool, enqueue, takes, finishes, stops, returns, enqueues, constructed, stepped,
  all_taken,
}
use twitch_chat_worker.DbController.{Account, no_account}
use twitch_chat_worker.DbController.BotRows.{HandlerConfig, BotConfig, no_config}
use twitch_chat_worker.MessageProcessor.{ChatMessage, transform}
use twitch_chat_worker.Irc.Session.{Message}
use twitch_chat_worker.Bots.Command.{Additional, fields, Out, send, log}
use twitch_chat_worker.Bots.Answers.{bots_responses}
use twitch_chat_worker.Irc.Controller.{Controller, add_new_irc_client}

one_part : handle_request (codes "irc" ∷ []) ≡ bad_request
unfolding handle_request
one_part = refl

unknown_third : handle_request (codes "irc" ∷ codes "channel" ∷ codes "list" ∷ []) ≡ not_found
unfolding handle_request match_irc match_third match_handle twitch_chat_worker.Base.Key.text_eq
unknown_third = refl

-- One thread, one task, the stop.
abbrev joined : Pool
joined = record {
  tasks = [];
  stop = true;
  idle = 0;
  running = 0;
  returned = 1;
  accepted = 5 ∷ [];
  taken = 5 ∷ [];
  stuck = 0;
}

joined-Reachable : twitch_chat_worker.ThreadPool.Reachable 1 joined
unfolding enqueue
joined-Reachable =
    stepped
      (stepped
        (stepped (stepped (stepped constructed (enqueues 5 refl)) (takes 5 [] 0 refl refl refl))
          (finishes 0 refl))
        (stops refl))
      (returns 0 refl refl refl refl)

all_taken_example : (joined.taken ≡ joined.accepted) × (joined.running ≡ 0)
all_taken_example = all_taken 1 joined joined-Reachable (omega arith) refl

abbrev bot_config : BotConfig
bot_config = record no_config { bot_id = pos 1; account = codes "bot"; channel = codes "#a" }

abbrev greeting : HandlerConfig
greeting = record {
  id = pos 2;
  type_id = pos 2;
  text = codes "hello";
  additional = codes "the route and the parameters";
}

-- What is read of it.
abbrev hi : Text → Additional
hi additional =
    fields
      (record { route_text = some (codes "!hi"); route_user = none; params_mention = some true })

-- A script that does nothing.
abbrev no_lua : HandlerConfig → BotConfig → ChatMessage → List Out
no_lua h config m = []

abbrev bots : List BotConfig
bots =
    record bot_config { handlers = greeting ∷ [] }
    ∷ record bot_config { account = codes "eve"; handlers = greeting ∷ [] }
    ∷ []

abbrev line : Message
line = record {
  channel = codes "#a";
  nickname = codes "eve";
  text = codes "!hi all";
  timestamp = 0;
}

-- Whether the first text is the second's, up to the length of the second.
abbrev prefixed : Text → Text → Bool
prefixed s [] = true
prefixed [] (d ∷ t) = false
prefixed (c ∷ s) (d ∷ t) = eqb c d && prefixed s t

abbrev bot_account : Account
bot_account = record no_account { id = pos 7; nick = codes "bot" }

abbrev bot_client : Controller
bot_client =
    add_new_irc_client bot_account (record { by_name = []; by_id = []; agents = []; fresh = 0 })

-- The bot of another account answers eve, the one of her own account does not.
answered_once :
    bots_responses hi prefixed no_lua bots (transform (λ t. codes "en") true line)
    ≡ send (codes "bot") (codes "#a") (codes "@eve hello")
      ∷ log (pos 0) (pos 1) (pos 2) (codes "@eve hello")
      ∷ []
unfolding transform twitch_chat_worker.Base.Key.text_eq twitch_chat_worker.Base.Key.int_eq
answered_once = refl
