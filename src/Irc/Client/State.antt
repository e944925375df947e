-- ===== src/Irc/Client/State.antt =====
-- The state of `IRCClient`, its sessions behind their pointers, and the choice of a session.
use twitch_chat_worker.Base.{
  ℕ, zero, suc, ◌%◌, Bool, List, [], ◌∷◌, ◌++◌, Option, none, some, length, get_elem?, eqb,
  if◌then◌else◌, add32,
}
use twitch_chat_worker.Base.Fault.{◌>>=◌}
use twitch_chat_worker.Base.Int.{ℤ}
use twitch_chat_worker.Irc.Channels.{ChannelMap}
use twitch_chat_worker.Irc.Session.{Session, Net, Effect}

pub record Client : Type 0 where
  pub session_count : ℤ
  -- `connect_attemps_limit`
  pub attempts_limit : ℕ
  pub channels : ChannelMap
  pub sessions : List Session
  -- `curSessionRoundRobin`
  pub cur : ℕ
  -- the next address that `make_shared` returns
  pub fresh : ℕ

abbrev pub Step : Type 0
Step = Option (Client × List Effect)

-- The session that a pointer leads to.
unfoldable pub find_session : ℕ → List Session → Option Session
find_session a [] = none
find_session a (s ∷ ss) = if eqb s.address a then some s else find_session a ss

unfoldable pub put_session : Session → List Session → List Session
put_session s [] = []
put_session s (t ∷ ts) = if eqb t.address s.address then s ∷ ts else t ∷ put_session s ts

-- A method call on the session at an address.
unfoldable pub on_session {ℓ} :
    {R : Type ℓ}
    → ℕ
    → (Session → R × Session × List Effect)
    → Client
    → Option (R × Client × List Effect)
on_session a f c = do
  s ← find_session a c.sessions
  let (r, s', out) = f s
  some (r, record c { sessions = put_session s' c.sessions }, out)

-- The same where the method returns nothing.
unfoldable pub modify : ℕ → (Session → Session × List Effect) → Client → Step
modify a f c = do
  s ← find_session a c.sessions
  let (s', out) = f s
  some (record c { sessions = put_session s' c.sessions }, out)

-- A step for each session or for each name in turn.
unfoldable pub for_each {ℓ} : {A : Type ℓ} → List A → (A → Client → Step) → Client → Step
for_each [] f c = some (c, [])
for_each (x ∷ xs) f c = do
  (c', out) ← f x c
  (c'', out') ← for_each xs f c'
  some (c'', out ++ out')

unfoldable pub get_next_session_round_robin : Client → Option (ℕ × Client)
get_next_session_round_robin c =
    if eqb (length c.sessions) 1
    then (do s ← get_elem? c.sessions 0; some (s.address, c))
    else if eqb (length c.sessions) 0
    then none
    else (do
      s ← get_elem? c.sessions c.cur
      some (s.address, record c { cur = add32 c.cur 1 % length c.sessions }))

-- The loop of `getNextConnectedSessionRoundRobin`, with the rounds left and the pointer so far.
unfoldable pub next_connected : Net → ℕ → Option ℕ → Client → Option (Option ℕ × Client)
next_connected net zero session c = some (session, c)
next_connected net (suc n) session c = do
  (a, c') ← get_next_session_round_robin c
  let rest : Option (Option ℕ × Client) = next_connected net n (some a) c'
  if net.is_connected a then some (some a, c') else rest

unfoldable pub get_next_connected_session_round_robin : Net → Client → Option (Option ℕ × Client)
get_next_connected_session_round_robin net c = next_connected net (length c.sessions) none c

-- A method call through a pointer that may be null.
unfoldable pub on_pointer :
    Option ℕ
    → (Session → Bool × Session × List Effect)
    → Client
    → Option (Bool × Client × List Effect)
unfolding on_session
on_pointer none f c = none
on_pointer (some a) f c = on_session a f c

-- `sendMessage`, `sendRaw` and the other commands that go out on the next connected session
unfoldable pub send_by_next :
    Net → (Session → Bool × Session × List Effect) → Client → Option (Bool × Client × List Effect)
send_by_next net f c = do
  (session, c') ← get_next_connected_session_round_robin net c
  on_pointer session f c'

unfoldable pub forget : Option (Bool × Client × List Effect) → Step
forget r = r >>= λ p. some (p.1, p.2)

-- `sendPart` and `sendQuit` of the client: on every session
unfoldable pub send_to_all : (Session → Bool × Session × List Effect) → Client → Step
unfolding for_each forget
send_to_all f c = for_each c.sessions (λ s c'. forget (on_session s.address f c')) c
