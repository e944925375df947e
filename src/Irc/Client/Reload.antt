-- ===== src/Irc/Client/Reload.antt =====
-- The sessions of a client at its start and after a reload (`so_evt_start`, `evtReload`).
use twitch_chat_worker.Base.{
  get_elem?-none, ℕ, zero, suc, ◌≤◌, ◌≡◌, refl, ap, sym, ◌∙◌, List, [], ◌∷◌, ◌++◌, length,
  length-append, none, max, arith, append_assoc, append-nil,
}
use twitch_chat_worker.Base.Int.{ℤ, pos, at_least}
use twitch_chat_worker.Base.Key.{Text}
use twitch_chat_worker.Irc.Session.{Session, new_session}
use twitch_chat_worker.Irc.Client.State.{Client, get_next_session_round_robin}
use twitch_chat_worker.Irc.Client.Handlers.{add_new_session, add_new_sessions, evt_reload}

-- Sessions made one after another at the time `now`: the next address, the next id, how many.
abbrev pub fresh_sessions : ℕ → ℕ → ℕ → ℕ → List Session
fresh_sessions now address id zero = []
fresh_sessions now address id (suc n) =
    new_session address id now ∷ fresh_sessions now (suc address) (suc id) n

add_new_sessions-sessions :
    (n now : ℕ) (c : Client)
    → (add_new_sessions n now c).0.sessions
      ≡ c.sessions ++ fresh_sessions now c.fresh (length c.sessions) n
unfolding add_new_sessions add_new_session
add_new_sessions-sessions zero now c = sym (append-nil c.sessions)
add_new_sessions-sessions (suc n) now c =
    (let s = new_session c.fresh (length c.sessions) now in
      let c' = (add_new_session now c).0 in
      let one_more : length (c.sessions ++ s ∷ []) ≡ suc (length c.sessions) =
        omega (arith, length-append c.sessions (s ∷ [])) in
      add_new_sessions-sessions n now c'
      ∙ ap (λ k. (c.sessions ++ s ∷ []) ++ fresh_sessions now (suc c.fresh) k n) one_more
      ∙ append_assoc c.sessions (s ∷ []) _)

add_new_sessions-cur : (n now : ℕ) (c : Client) → (add_new_sessions n now c).0.cur ≡ c.cur
unfolding add_new_sessions add_new_session
add_new_sessions-cur zero now c = refl
add_new_sessions-cur (suc n) now c = add_new_sessions-cur n now (add_new_session now c).0

length-fresh_sessions : (now address id n : ℕ) → length (fresh_sessions now address id n) ≡ n
length-fresh_sessions now address id zero = refl
length-fresh_sessions now address id (suc n) =
    ap suc (length-fresh_sessions now (suc address) (suc id) n)

get_next_session_round_robin-none :
    (c : Client)
    → 2 ≤ length c.sessions
    → length c.sessions ≤ c.cur
    → get_next_session_round_robin c ≡ none
unfolding get_next_session_round_robin
get_next_session_round_robin-none c h k = ground (arith, get_elem?-none c.sessions c.cur k)

-- A reload replaces the sessions by new ones, as many as the new configuration asks for and at
-- least one, with the ids from 0 on and the addresses from the next free one on, none logged in.
pub evt_reload-sessions :
    (now : ℕ) (count : ℤ) (names : List Text) (c : Client)
    → (evt_reload now count names c).0.sessions ≡ fresh_sessions now c.fresh 0 (at_least 1 count)
unfolding evt_reload
evt_reload-sessions now count names c = add_new_sessions-sessions (at_least 1 count) now _

-- A reload does not reset the round robin's index: if it brings the client down to `n` sessions, two
-- at least, and the index is not below `n`, then the next choice of a session reads behind the end of
-- the vector.
pub evt_reload_leaves_index :
    (now n : ℕ) (names : List Text) (c : Client)
    → 2 ≤ n
    → n ≤ c.cur
    → get_next_session_round_robin (evt_reload now (pos n) names c).0 ≡ none
unfolding evt_reload
evt_reload_leaves_index now n names c h k =
    (let c' = (evt_reload now (pos n) names c).0 in
      let count : length c'.sessions ≡ max 1 n =
        ap length (evt_reload-sessions now (pos n) names c)
        ∙ length-fresh_sessions now c.fresh 0 (max 1 n) in
      let index : c'.cur ≡ c.cur = add_new_sessions-cur (max 1 n) now _ in
      get_next_session_round_robin-none c' (omega (arith, count, h))
        (omega (arith, count, index, h, k)))
