-- ===== src/Irc/Client/Delivery.antt =====
-- On which session a command of `IRCClient` goes out.
use twitch_chat_worker.Base.{
  ℕ, ◌<◌, ◌≡◌, ◌^◌, refl, ap, ap₂, subst, ◌∙◌, Bool, true, List, [], ◌∷◌, some, length, get_elem?,
  eqb, eqb_iff, arith, Bool-cases, inl, inr,
}
use twitch_chat_worker.Base.Key.{Text}
use twitch_chat_worker.Irc.Session.{
  Session, Net, Command, Effect, sent, irc_cmd_msg, internal_irc_send,
}
use twitch_chat_worker.Irc.Session.Outgoing.{send_message_to}
use twitch_chat_worker.Irc.Client.State.{
  Client, find_session, put_session, on_session, on_pointer, send_by_next,
}
use twitch_chat_worker.Irc.Client.Commands.{send_message}
use twitch_chat_worker.Irc.Client.RoundRobin.{get_next_connected_session_round_robin_finds}
use twitch_chat_worker.Irc.Client.Live.{addresses}
use twitch_chat_worker.Irc.Client.Live.Channels.{listed}
use twitch_chat_worker.Irc.Client.Live.Steps.{Chosen, choice-Chosen}

find-listed :
    (a : ℕ) (ss : List Session)
    → listed a (addresses ss) ≡ true
    → (s : Session) × (find_session a ss ≡ some s) × (s.address ≡ a)
unfolding find_session
find-listed a [] h = absurd (ground (arith, h))
find-listed a (t ∷ ts) h = elim (Bool-cases (eqb t.address a)) [
  | inl e ↦ (t, rw (e) refl, (eqb_iff t.address a).0 e)
  | inr e ↦ let (s, f, g) = find-listed a ts (ground (arith, e, h)) in (s, rw (e) f, g)
]

-- The command that a method of the session sends.
Sends : Net → Command → (Session → Bool × Session × List Effect) → Type 0
Sends net cmd f =
    (s : Session)
    → net.accepts s.address cmd ≡ true
    → ((f s).0 ≡ true) × ((f s).2 ≡ sent s.address cmd ∷ [])

send_by_next_delivers :
    (net : Net) (c : Client) (cmd : Command) (f : Session → Bool × Session × List Effect) (j : ℕ)
    (s : Session)
    → Sends net cmd f
    → ((a : ℕ) → net.accepts a cmd ≡ true)
    → c.cur < length c.sessions
    → length c.sessions < 2 ^ 32
    → get_elem? c.sessions j ≡ some s
    → net.is_connected s.address ≡ true
    → (a : ℕ) × (c' : Client) × (send_by_next net f c ≡ some (true, c', sent a cmd ∷ []))
      × (net.is_connected a ≡ true)
unfolding send_by_next on_pointer on_session Sends
send_by_next_delivers net c cmd f j s sends accepts h l e y =
    (let (a, k, chosen, z, _) = get_next_connected_session_round_robin_finds net c j s h l e y in
      let (here, _) = subst (Chosen c) chosen (choice-Chosen net c) in
      let (t, found, same) = find-listed a c.sessions here in
      let c' : Client = record c { cur = k; sessions = put_session (f t).1 c.sessions } in
      let (answer, effects) = sends t (accepts t.address) in
      (
        a,
        c',
        rw (chosen) (
            rw (found)
              (ap₂ (λ b out. some (b, c', out)) answer (effects ∙ ap (λ x. sent x cmd ∷ []) same))),
        z,
      ))

send_message_to-Sends :
    (net : Net) (channel text : Text)
    → Sends net (irc_cmd_msg channel text) (send_message_to net channel text)
unfolding Sends send_message_to internal_irc_send
send_message_to-Sends net channel text s h = (rw (h) refl, rw (h) refl)

-- With the index within the vector, which is shorter than 2^32: if a session of the client is
-- connected and libircclient takes the message on every session, then a message to a channel goes
-- out exactly once, on a connected session, and the client answers `true`.
pub send_message_delivers :
    (net : Net) (c : Client) (channel text : Text) (j : ℕ) (s : Session)
    → ((a : ℕ) → net.accepts a (irc_cmd_msg channel text) ≡ true)
    → c.cur < length c.sessions
    → length c.sessions < 2 ^ 32
    → get_elem? c.sessions j ≡ some s
    → net.is_connected s.address ≡ true
    → (a : ℕ) × (c' : Client) × (send_message net channel text c
        ≡ some (true, c', sent a (irc_cmd_msg channel text) ∷ []))
      × (net.is_connected a ≡ true)
unfolding send_message
send_message_delivers net c channel text j s =
    send_by_next_delivers net c (irc_cmd_msg channel text) (send_message_to net channel text) j s
      (send_message_to-Sends net channel text)
