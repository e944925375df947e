-- ===== src/Irc/Client/RoundRobin.antt =====
-- `getNextSessionRoundRobin` and `getNextConnectedSessionRoundRobin` of IRCClient.cpp.
use native.Mathlib.Nat.{mod_self, mod-eq_of_lt}
use native.Mathlib.Decide.{ℕ_discrete, dec_le}
use twitch_chat_worker.Base.{
  get_elem?-some, get_elem?-lt, ℕ, zero, suc, ◌+◌, ◌-◌, ◌%◌, ◌^◌, ◌<◌, ◌≡◌, refl, ap, ◌∙◌, ◌⊎◌, inl,
  inr, true, Bool-cases, Option, none, some, length, get_elem?, eqb, if◌then◌else◌, add32, arith,
}
use twitch_chat_worker.Irc.Session.{Session, Net}
use twitch_chat_worker.Irc.Client.State.{
  Client, get_next_session_round_robin, next_connected, get_next_connected_session_round_robin,
}

-- The index is within the vector, and the vector is short enough for 32-bit indices.
abbrev pub InRange : Client → Type 0
InRange c = (c.cur < length c.sessions) × (length c.sessions < 2 ^ 32)

-- The place after `i` among `size`, cyclically.
abbrev next_place : ℕ → ℕ → ℕ
next_place size i = if eqb (suc i) size then 0 else suc i

next_place_lem : (size i : ℕ) → i < size → size < 2 ^ 32 → add32 i 1 % size ≡ next_place size i
next_place_lem size i h k = elim (ℕ_discrete (suc i) size) [
  | yes p ↦ rw (wrap) (ground (arith, p, mod_self (suc i), ap (◌%◌ (suc i)) p))
  | no p ↦ rw (wrap) (ground (arith, p, mod-eq_of_lt {n = suc i} {m = size} (omega arith)))
]
  where
    wrap : add32 i 1 ≡ suc i
    wrap = omega arith

-- One choice takes the session at the index and moves the index on by one place.
pub get_next_session_round_robin_lem :
    (c : Client) (s : Session)
    → length c.sessions < 2 ^ 32
    → get_elem? c.sessions c.cur ≡ some s
    → get_next_session_round_robin c
      ≡ some (s.address, record c { cur = next_place (length c.sessions) c.cur })
unfolding get_next_session_round_robin
get_next_session_round_robin_lem c s h k =
    ground (arith, k, get_elem?-lt c.sessions c.cur s k, next_place_lem (length c.sessions) c.cur)

-- The session `d` places behind the index, cyclically, stands at place `j`.
abbrev Behind : ℕ → ℕ → Client → Type 0
Behind d j c = (c.cur + d ≡ j) ⊎ (c.cur + d ≡ j + length c.sessions)

-- A choice of the loop, followed by the test whether the session is connected.
next_connected-suc :
    (net : Net) (n : ℕ) (session : Option ℕ) (c : Client) (s : Session)
    → length c.sessions < 2 ^ 32
    → get_elem? c.sessions c.cur ≡ some s
    → let c' : Client = record c { cur = next_place (length c.sessions) c.cur } in
      next_connected net (suc n) session c ≡ (
        if net.is_connected s.address
        then some (some s.address, c')
        else next_connected net n (some s.address) c')
unfolding next_connected
next_connected-suc net n session c s h k = rw (get_next_session_round_robin_lem c s h k) refl

next_connected_total :
    (net : Net) (n : ℕ) (session : Option ℕ) (c : Client)
    → c.cur < length c.sessions
    → length c.sessions < 2 ^ 32
    → (r : Option ℕ) × (k : ℕ) × (next_connected net n session c ≡ some (r, record c { cur = k }))
      × (k < length c.sessions)
unfolding next_connected
next_connected_total net zero session c h l = (session, c.cur, refl, h)
next_connected_total net (suc n) session c h l =
    (let (s, e) = get_elem?-some c.sessions c.cur h in
      let k = next_place (length c.sessions) c.cur in
      let k_lt : k < length c.sessions = ground (arith, h) in
      let (r, k', e', h') =
        next_connected_total net n (some s.address) (record c { cur = k }) k_lt l in
      elim (Bool-cases (net.is_connected s.address)) [
        | inl p ↦ (some s.address, k, next_connected-suc net n session c s l e ∙ rw (p) refl, k_lt)
        | inr p ↦ (r, k', next_connected-suc net n session c s l e ∙ rw (p) e', h')
      ])

Behind-next_place :
    (d j cur size : ℕ)
    → cur < size
    → j < size
    → (cur + suc d ≡ j) ⊎ (cur + suc d ≡ j + size)
    → (next_place size cur + d ≡ j) ⊎ (next_place size cur + d ≡ j + size)
Behind-next_place d j cur size h i (inl p) = inl (ground (arith, p))
Behind-next_place d j cur size h i (inr p) = elim (ℕ_discrete (suc cur) size) [
  | yes q ↦ inl (ground (arith, p, q))
  | no q ↦ inr (ground (arith, p, q))
]

next_connected_finds :
    (net : Net) (n d j : ℕ) (session : Option ℕ) (c : Client) (s : Session)
    → c.cur < length c.sessions
    → length c.sessions < 2 ^ 32
    → get_elem? c.sessions j ≡ some s
    → net.is_connected s.address ≡ true
    → Behind d j c
    → d < n
    → (a : ℕ) × (k : ℕ) × (next_connected net n session c ≡ some (some a, record c { cur = k }))
      × (net.is_connected a ≡ true)
      × (k < length c.sessions)
next_connected_finds net zero d j session c s h l e y b i = absurd (omega arith)
next_connected_finds net (suc n) zero j session c s h l e y b i =
    (let e' : get_elem? c.sessions c.cur ≡ some s = elim b [
      | inl p ↦ ap (get_elem? c.sessions) (omega (arith, p)) ∙ e
      | inr p ↦ absurd (omega (arith, p))
    ] in
      (
        s.address,
        next_place (length c.sessions) c.cur,
        next_connected-suc net n session c s l e' ∙ rw (y) refl,
        y,
        ground (arith, h),
      ))
next_connected_finds net (suc n) (suc d) j session c s h l e y b i =
    (let (t, e') = get_elem?-some c.sessions c.cur h in
      let k = next_place (length c.sessions) c.cur in
      let k_lt : k < length c.sessions = ground (arith, h) in
      let c' : Client = record c { cur = k } in
      let b' : Behind d j c' =
        Behind-next_place d j c.cur (length c.sessions) h (get_elem?-lt c.sessions j s e) b in
      let (a, k', r, z, h') =
        next_connected_finds net n d j (some t.address) c' s k_lt l e y b' (omega arith) in
      elim (Bool-cases (net.is_connected t.address)) [
        | inl p ↦ (t.address, k, next_connected-suc net n session c t l e' ∙ rw (p) refl, p, k_lt)
        | inr p ↦ (a, k', next_connected-suc net n session c t l e' ∙ rw (p) r, z, h')
      ])

-- With the index within the vector, which is shorter than 2^32, the choice of a session never
-- reads outside it and changes nothing of the client but the index, which is within the vector
-- again.
pub get_next_connected_session_round_robin_total :
    (net : Net) (c : Client)
    → c.cur < length c.sessions
    → length c.sessions < 2 ^ 32
    → (r : Option ℕ) × (k : ℕ) × (get_next_connected_session_round_robin net c
        ≡ some (r, record c { cur = k }))
      × (k < length c.sessions)
unfolding get_next_connected_session_round_robin
get_next_connected_session_round_robin_total net c h l =
    next_connected_total net (length c.sessions) none c h l

-- With the index within the vector, which is shorter than 2^32: if any session of the vector is
-- connected, then the one that is chosen is connected, and the index is within the vector again.
pub get_next_connected_session_round_robin_finds :
    (net : Net) (c : Client) (j : ℕ) (s : Session)
    → c.cur < length c.sessions
    → length c.sessions < 2 ^ 32
    → get_elem? c.sessions j ≡ some s
    → net.is_connected s.address ≡ true
    → (a : ℕ) × (k : ℕ) × (get_next_connected_session_round_robin net c
        ≡ some (some a, record c { cur = k }))
      × (net.is_connected a ≡ true)
      × (k < length c.sessions)
unfolding get_next_connected_session_round_robin
get_next_connected_session_round_robin_finds net c j s h l e y =
    (let size = length c.sessions in
      let i : j < size = get_elem?-lt c.sessions j s e in
      elim (dec_le c.cur j) [
        | yes p ↦
            next_connected_finds net size (j - c.cur) j none c s h l e y (inl (omega arith))
              (omega arith)
        | no p ↦
            next_connected_finds net size (j + size - c.cur) j none c s h l e y (inr (omega arith))
              (omega arith)
      ])
