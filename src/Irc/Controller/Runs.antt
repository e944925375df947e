-- ===== src/Irc/Controller/Runs.antt =====
-- Runs of `IRCController`: the use of client pointers, with and without a change of name.
use twitch_chat_worker.Base.{
  ℕ, ◌≡◌, refl, ◌∙◌, false, Option, none, some, List, [], ◌∷◌, arith, eqb_iff,
}
use twitch_chat_worker.Base.Key.{Text, codes, text_key, number_key, int_key, ◌==◌}
use twitch_chat_worker.Base.Int.{ℤ}
use twitch_chat_worker.Base.Dict.{lookup, erase, lookup-erase}
use twitch_chat_worker.DbController.{Account}
use twitch_chat_worker.Irc.Controller.{
  Agent, Controller, Sent, send_message, forward, shutdown, find_agent, drop_agent, reload_agent,
  add_new_irc_client, send_to, evt_send_message,
}
use twitch_chat_worker.Irc.Controller.Requests.{remove_account, Response, answer, about}
use twitch_chat_worker.Irc.Controller.Pointers.{
  IsSound, started-IsSound, added-IsSound, find_agent-drop_agent, find_agent-reload_agent,
  reloaded_as,
}
use twitch_chat_worker.Irc.Controller.Sound.{
  without, remove_account-some, removed-IsSound, reloaded-IsSound,
}

-- Made by the handlers, from no clients; a reloaded account keeps its id and its name.
pub data Reachable : Controller → Type 0 where
  started : Reachable (record { by_name = []; by_id = []; agents = []; fresh = 0 })
  added :
      {c : Controller} (account : Account)
      → Reachable c
      → lookup account.id c.by_id ≡ none
      → Reachable (add_new_irc_client account c)
  removed :
      {c c' : Controller} (id : ℤ) (out : List Sent) (response : Response)
      → Reachable c
      → remove_account id c ≡ some (c', out, response)
      → Reachable c'
  reloaded :
      {c : Controller} (id : ℤ) (a : ℕ) (g : Agent) (account : Account)
      → Reachable c
      → lookup id c.by_id ≡ some a
      → find_agent a c.agents ≡ some g
      → account.id ≡ g.id
      → account.nick ≡ g.nick
      → Reachable (record c { agents = reload_agent a account c.agents })

-- However accounts are added (with an id that is not in use), removed and reloaded (without a
-- change of id and name), the pointers by id lead to living agents of that id, and the pointers by
-- name to living agents of that name, which stand among the pointers by id too.
pub Reachable-IsSound : (c : Controller) → Reachable c → IsSound c
Reachable-IsSound c started = started-IsSound
Reachable-IsSound c (added account r new) = added-IsSound _ (Reachable-IsSound _ r) account new
Reachable-IsSound c (removed id out response r h) =
    removed-IsSound _ c id out response (Reachable-IsSound _ r) h
Reachable-IsSound c (reloaded id a g account r at lives same_id same_nick) =
    reloaded-IsSound _ (Reachable-IsSound _ r) a g account lives same_id same_nick

-- A message for a name, by the pointer that is found.
abbrev pub message_for : Option ℕ → Text → Text → Text → List Sent
message_for none user channel text = []
message_for (some a) user channel text =
    send_message a channel text ∷ forward user channel text ∷ []

-- In such a state a message for a name goes to the agent of that name, if there is one, and to the
-- statistics; no gone agent is used.
pub evt_send_message-Reachable :
    (c : Controller) (user channel text : Text)
    → Reachable c
    → evt_send_message user channel text c
      ≡ some (message_for (lookup user c.by_name) user channel text)
unfolding evt_send_message send_to
evt_send_message-Reachable c user channel text r = by_pointer (lookup user c.by_name) refl
  where
    by_pointer :
        (o : Option ℕ)
        → lookup user c.by_name ≡ o
        → evt_send_message user channel text c
          ≡ some (message_for (lookup user c.by_name) user channel text)
    by_pointer none e = ground (arith, e)
    by_pointer (some a) e =
        let (g, lives, hn, hi) = (Reachable-IsSound c r).names user a e in ground (arith, e, lives)

-- A client that lives and whose pointer stands under its name and its id is reloaded with another
-- name and then removed: the removal succeeds, and the next message for the old name uses the
-- agent that is gone.
pub reload-remove_account :
    (c : Controller) (id : ℤ) (a : ℕ) (g : Agent) (account : Account) (channel text : Text)
    → lookup id c.by_id ≡ some a
    → lookup g.nick c.by_name ≡ some a
    → find_agent a c.agents ≡ some g
    → (account.nick == g.nick) ≡ false
    → (c' : Controller) × (remove_account id (record c { agents = reload_agent a account c.agents })
        ≡ answer c' (shutdown a ∷ []) (about id (codes "Account removed")))
      × (evt_send_message g.nick channel text c' ≡ none)
unfolding evt_send_message send_to
reload-remove_account c id a g account channel text at named lives differs =
    let c1 = record c { agents = reload_agent a account c.agents } in
    let g1 = reloaded_as account g in
    let found : find_agent a c1.agents ≡ some g1 =
      find_agent-reload_agent a a account c.agents ∙ rw ((eqb_iff a a).1 refl, lives) refl in
    let still : lookup g.nick (erase account.nick c.by_name) ≡ some a =
      lookup-erase account.nick g.nick c.by_name ∙ rw (differs) named in
    let gone : find_agent a (drop_agent a c1.agents) ≡ none =
      find_agent-drop_agent a a c1.agents ∙ rw ((eqb_iff a a).1 refl) refl in
    (without id a g1 c1, remove_account-some c1 id a g1 at found, ground (arith, still, gone))
