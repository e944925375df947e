-- ===== src/Irc/Client/Live/Steps.antt =====
-- The session pointers in the channel list, over single handlers of `IRCClient`.
use twitch_chat_worker.Base.{
  ℕ, zero, suc, ◌≡◌, refl, sym, subst, inl, inr, Bool, true, Bool-cases, Option-cases, List, [],
  ◌∷◌, Option, none, some, length, get_elem?, eqb, if◌then◌else◌, arith,
}
use twitch_chat_worker.Base.Int.{ℤ}
use twitch_chat_worker.Base.Fault.{OnSome, OnSome-bind, OnSome-map, OnSome-any}
use twitch_chat_worker.Base.Key.{Text}
use twitch_chat_worker.Irc.Channels.{new_channel, in_list, detach_and_part_from_session}
use twitch_chat_worker.Irc.Session.{Session, Net, Effect, drop_connection}
use twitch_chat_worker.Irc.Session.Outgoing.{send_join}
use twitch_chat_worker.Irc.Client.State.{
  Client, Step, find_session, modify, get_next_session_round_robin, next_connected,
  get_next_connected_session_round_robin, on_pointer, send_by_next,
}
use twitch_chat_worker.Irc.Client.Handlers.{
  add_new_session, add_new_sessions, evt_reload, on_disconnected, session_disconnected,
  evt_logged_in_check, join_to_channel, evt_join_channel,
}
use twitch_chat_worker.Irc.Client.Live.{
  addresses, addresses-put_session, Same, Same-trans, on_session-Same, modify-Same,
}
use twitch_chat_worker.Irc.Client.Live.Channels.{
  listed, Points, AllLive, AllLive-add_channel, AllLive-load, AllLive-detach,
}

-- Every pointer in the channel list is null or leads to a session that the client holds.
abbrev pub IsLive : Client → Type 0
IsLive c = AllLive (addresses c.sessions) c.channels

unfoldable pub After : Step → Type 0
After r = OnSome (λ x. IsLive x.0) r

pub Same-IsLive : (c c' : Client) → Same c c' → IsLive c → IsLive c'
Same-IsLive c c' (p, q) h = rw (p, q) h

listed-find :
    (a : ℕ) (ss : List Session) (s : Session)
    → find_session a ss ≡ some s
    → listed a (addresses ss) ≡ true
unfolding find_session
listed-find a [] s h = absurd (ground (arith, h))
listed-find a (t ∷ ts) s h = ground (arith, h, listed-find a ts s)

listed-get_elem? :
    (i : ℕ) (ss : List Session) (s : Session)
    → get_elem? ss i ≡ some s
    → listed s.address (addresses ss) ≡ true
listed-get_elem? i [] s h = absurd (ground (arith, h))
listed-get_elem? zero (t ∷ ts) s h = ground (arith, h)
listed-get_elem? (suc i) (t ∷ ts) s h = ground (arith, h, listed-get_elem? i ts s h)

-- The pointer that a choice returns, and the sessions and channels it leaves.
abbrev pub Chosen : Client → Option (Option ℕ × Client) → Type 0
Chosen c r = OnSome (λ x. Points (addresses c.sessions) x.0 × Same c x.1) r

get_next_session_round_robin-Chosen :
    (c : Client)
    → OnSome
        (λ x. (listed x.0 (addresses c.sessions) ≡ true) × Same c x.1)
        (get_next_session_round_robin c)
unfolding get_next_session_round_robin
get_next_session_round_robin-Chosen c = elim (Bool-cases (eqb (length c.sessions) 1)) [
  | inl p ↦ elim (Option-cases (get_elem? c.sessions 0)) [
    | inl q ↦ rw (p, q) tt
    | inr (s, q) ↦ rw (p, q) (listed-get_elem? 0 c.sessions s q, (refl, refl))
  ]
  | inr p ↦ elim (Bool-cases (eqb (length c.sessions) 0)) [
    | inl r ↦ rw (p, r) tt
    | inr r ↦ elim (Option-cases (get_elem? c.sessions c.cur)) [
      | inl q ↦ rw (p, r, q) tt
      | inr (s, q) ↦ rw (p, r, q) (listed-get_elem? c.cur c.sessions s q, (refl, refl))
    ]
  ]
]

next_connected-Chosen :
    (net : Net) (n : ℕ) (session : Option ℕ) (c c' : Client)
    → Points (addresses c.sessions) session
    → Same c c'
    → Chosen c (next_connected net n session c')
unfolding next_connected
next_connected-Chosen net zero session c c' h k = (h, k)
next_connected-Chosen net (suc n) session c c' h k =
    OnSome-bind (λ x. (listed x.0 (addresses c'.sessions) ≡ true) × Same c' x.1)
      (λ x. Points (addresses c.sessions) x.0 × Same c x.1) (get_next_session_round_robin c')
      (λ x.
        if net.is_connected x.0 then some (some x.0, x.1) else next_connected net n (some x.0) x.1)
      (get_next_session_round_robin-Chosen c')
      (λ x l.
        (let l' : listed x.0 (addresses c.sessions) ≡ true =
            subst (λ live. listed x.0 live ≡ true) k.0 l.0 in
          let k' : Same c x.1 = Same-trans c c' x.1 k l.1 in
          elim (Bool-cases (net.is_connected x.0)) [
            | inl p ↦ rw (p) (l', k')
            | inr p ↦ rw (p) (next_connected-Chosen net n (some x.0) c x.1 l' k')
          ]))

pub choice-Chosen :
    (net : Net) (c : Client) → Chosen c (get_next_connected_session_round_robin net c)
unfolding get_next_connected_session_round_robin
choice-Chosen net c = next_connected-Chosen net (length c.sessions) none c c tt (refl, refl)

pub on_pointer-Same :
    (r : Option ℕ) (f : Session → Bool × Session × List Effect) (c : Client)
    → OnSome (λ x. Same c x.1) (on_pointer r f c)
unfolding on_pointer
on_pointer-Same none f c = tt
on_pointer-Same (some a) f c = on_session-Same a f c

pub send_by_next-Same :
    (net : Net) (f : Session → Bool × Session × List Effect) (c : Client)
    → OnSome (λ x. Same c x.1) (send_by_next net f c)
unfolding send_by_next
send_by_next-Same net f c =
    OnSome-bind (λ x. Points (addresses c.sessions) x.0 × Same c x.1) (λ x. Same c x.1)
      (get_next_connected_session_round_robin net c) (λ x. on_pointer x.0 f x.1)
      (choice-Chosen net c)
      (λ x h.
        OnSome-map (λ y k. Same-trans c x.1 y.1 h.1 k) (on_pointer x.0 f x.1)
          (on_pointer-Same x.0 f x.1))

-- A step that leaves the sessions and the channels alone.
pub After-Same : (c : Client) (r : Step) → OnSome (λ x. Same c x.0) r → IsLive c → After r
unfolding After
After-Same c r h l = OnSome-map (λ x k. Same-IsLive c x.0 k l) r h

channels-add_new_sessions :
    (n now : ℕ) (c : Client) → (add_new_sessions n now c).0.channels ≡ c.channels
unfolding add_new_sessions add_new_session
channels-add_new_sessions zero now c = refl
channels-add_new_sessions (suc n) now c = channels-add_new_sessions n now (add_new_session now c).0

pub evt_reload-IsLive :
    (now : ℕ) (count : ℤ) (names : List Text) (c : Client) → IsLive (evt_reload now count names c).0
unfolding evt_reload
evt_reload-IsLive now count names c = rw (channels-add_new_sessions _ now _) (AllLive-load _ names)

pub session_disconnected-IsLive : (a : ℕ) (c : Client) → IsLive c → After (session_disconnected a c)
unfolding session_disconnected After on_disconnected
session_disconnected-IsLive a c l =
    OnSome-bind (λ x. Same c x.0) (λ x. IsLive x.0) (modify a drop_connection c)
      (λ x. some (record x.0 { channels = detach_and_part_from_session a x.0.channels }, _))
      (modify-Same a drop_connection c)
      (λ x k. AllLive-detach (addresses x.0.sessions) a x.0.channels (Same-IsLive c x.0 k l))

pub evt_logged_in_check-IsLive : (a : ℕ) (c : Client) → IsLive c → After (evt_logged_in_check a c)
unfolding evt_logged_in_check After
evt_logged_in_check-IsLive a c l =
    OnSome-bind (λ _. Unit) (λ x. IsLive x.0) (find_session a c.sessions)
      (λ s. if s.logged then some (c, []) else session_disconnected a c)
      (OnSome-any (find_session a c.sessions))
      (λ s _. elim (Bool-cases s.logged) [
        | inl p ↦ rw (p) l
        | inr p ↦ rw (p) (session_disconnected-IsLive a c l)
      ])

join_to_channel-IsLive :
    (net : Net) (name : Text) (r : Option ℕ) (c : Client)
    → Points (addresses c.sessions) r
    → IsLive c
    → After (join_to_channel net name r c)
unfolding join_to_channel After
join_to_channel-IsLive net name r c p l = elim (Bool-cases (in_list name c.channels)) [
  | inl e ↦ rw (e) l
  | inr e ↦ rw (e) (
      OnSome-bind (λ x. Same c x.1) (λ x. IsLive x.0) (on_pointer r (send_join net name none) c) _
        (on_pointer-Same r (send_join net name none) c)
        (λ x k. elim (Bool-cases x.0) [
          | inl f ↦ rw (f) (
              AllLive-add_channel (addresses x.1.sessions)
                (record (new_channel name) { session = r }) x.1.channels
                (subst (λ live. Points live r) (sym k.0) p) (Same-IsLive c x.1 k l))
          | inr f ↦ rw (f) (Same-IsLive c x.1 k l)
        ]))
]

pub evt_join_channel-IsLive :
    (net : Net) (name : Text) (c : Client) → IsLive c → After (evt_join_channel net name c)
unfolding evt_join_channel After
evt_join_channel-IsLive net name c l =
    OnSome-bind (λ x. Points (addresses c.sessions) x.0 × Same c x.1) (λ x. IsLive x.0)
      (get_next_connected_session_round_robin net c) (λ x. join_to_channel net name x.0 x.1)
      (choice-Chosen net c)
      (λ x h.
        join_to_channel-IsLive net name x.0 x.1 (subst (λ live. Points live x.0) (sym h.1.0) h.0)
          (Same-IsLive c x.1 h.1 l))

-- The session that a method was called on is one of the client's.
pub modify-listed :
    (a : ℕ) (f : Session → Session × List Effect) (c : Client)
    → OnSome (λ r. Same c r.0 × (listed a (addresses r.0.sessions) ≡ true)) (modify a f c)
unfolding modify
modify-listed a f c = elim (Option-cases (find_session a c.sessions)) [
  | inl p ↦ rw (p) tt
  | inr (s, p) ↦
      let same = addresses-put_session (f s).0 c.sessions in
      rw (p) (
        (same, refl),
        subst (λ live. listed a live ≡ true) (sym same) (listed-find a c.sessions s p),
      )
]
