-- ===== src/Irc/Controller.antt =====
-- irc/IRCController.cpp: the clients of the accounts, by name and by id, and the requests for them. A
-- client is an agent at an address, of which only the account's id and name are kept; it is reloaded and
-- shut down at once. `none` is an exception, or the use of a client that is gone; what was sent before it is
-- not kept.
pub mod Pointers
pub mod Sound
pub mod Runs
pub mod Requests
pub mod Channels
use twitch_chat_worker.Base.{
  ℕ, zero, suc, ◌+◌, ◌-◌, ◌*◌, ◌/◌, ◌%◌, ◌^◌, ◌≤◌, ◌<◌, ◌≡◌, refl, sym, ap, ap₂, subst, ◌∙◌, ◌≢◌,
  ◌↔◌, ◌⊎◌, inl, inr, Bool, true, false, ◌&&◌, ◌||◌, not, Option, none, some, List, [], ◌∷◌, ◌++◌,
  map, append-nil, append_assoc, arith, ltb, leb, eqb, if◌then◌else◌, Bool-cases, eqb_iff, length,
  get_elem?, filter, All, All-append,
}
use twitch_chat_worker.Base.Key.{Text, codes, text_key, number_key, int_key, ◌==◌, eq_iff, eq_refl}
use twitch_chat_worker.Base.Int.{ℤ, pos, negsuc}
use twitch_chat_worker.Base.Dict.{
  Dict, lookup, has, insert_at, emplace, update, erase, lookup-emplace, lookup-update, lookup-erase,
  value_or, lookup-update-emplace,
}
use twitch_chat_worker.Base.Fault.{◌>>=◌}
use twitch_chat_worker.DbController.{Account, no_account}
use twitch_chat_worker.Uri.Chars.{decimal_on}

pub record Agent : Type 0 where
  pub address : ℕ
  pub id : ℤ
  pub nick : Text

pub record Controller : Type 0 where
  -- `ircClientsByName`
  pub by_name : Dict Text ℕ
  -- `ircClientsById`
  pub by_id : Dict ℤ ℕ
  -- the agents that live
  pub agents : List Agent
  -- the address of the next agent
  pub fresh : ℕ

-- What is sent, and to whom.
pub data Sent : Type 0 where
  send_message : ℕ → Text → Text → Sent
  send_irc : ℕ → Text → Sent
  join_channel : ℕ → Text → Sent
  leave_channel : ℕ → Text → Sent
  reload : ℕ → Account → Sent
  shutdown : ℕ → Sent
  -- to the statistics collector: the user, the channel and the text
  forward : Text → Text → Text → Sent

-- The agent that a pointer leads to.
unfoldable pub find_agent : ℕ → List Agent → Option Agent
find_agent a [] = none
find_agent a (g ∷ gs) = if eqb g.address a then some g else find_agent a gs

unfoldable pub drop_agent : ℕ → List Agent → List Agent
drop_agent a [] = []
drop_agent a (g ∷ gs) = let rest = drop_agent a gs in if eqb g.address a then rest else g ∷ rest

-- The agent's `evtReload`, which replaces its configuration
unfoldable pub reload_agent : ℕ → Account → List Agent → List Agent
reload_agent a account [] = []
reload_agent a account (g ∷ gs) =
    (if eqb g.address a then record g { id = account.id; nick = account.nick } else g)
    ∷ reload_agent a account gs

abbrev pub get_irc_client_by_name : Text → Controller → Option ℕ
get_irc_client_by_name name c = lookup name c.by_name

abbrev pub get_irc_client_by_id : ℤ → Controller → Option ℕ
get_irc_client_by_id id c = lookup id c.by_id

unfoldable pub add_new_irc_client : Account → Controller → Controller
unfolding emplace
add_new_irc_client account c = record {
  by_name = emplace account.nick c.fresh c.by_name;
  by_id = emplace account.id c.fresh c.by_id;
  agents = c.agents ++ record { address = c.fresh; id = account.id; nick = account.nick } ∷ [];
  fresh = suc c.fresh;
}

-- `so_evt_start`, over the accounts that are loaded
unfoldable pub so_evt_start : List Account → Controller → Controller
so_evt_start [] c = c
so_evt_start (account ∷ accounts) c = so_evt_start accounts (add_new_irc_client account c)

-- A message to the agent that a pointer leads to.
unfoldable pub send_to : ℕ → Sent → Controller → Option (List Sent)
send_to a message c = elim (find_agent a c.agents) [ none ↦ none | some g ↦ some (message ∷ []) ]

unfoldable pub evt_send_message : Text → Text → Text → Controller → Option (List Sent)
evt_send_message user channel text c = elim (get_irc_client_by_name user c) [
  | none ↦ some []
  | some a ↦ do
    out ← send_to a (send_message a channel text) c
    some (out ++ forward user channel text ∷ [])
]
