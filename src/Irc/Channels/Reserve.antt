-- ===== src/Irc/Channels/Reserve.antt =====
-- How channels are shared out among the sessions of an account.
use twitch_chat_worker.Base.{
  ℕ, zero, suc, ◌+◌, ◌-◌, ◌*◌, ◌/◌, ◌≤◌, ◌≡◌, refl, ap, ◌∙◌, true, Option, none, some, List, [],
  ◌∷◌, ◌++◌, append_assoc, append-nil, length, take, drop, length-drop, nil_of_length, ◌≢◌, sym,
  length-append, arith, if◌then◌else◌,
}
use twitch_chat_worker.Base.Key.{Text}
use twitch_chat_worker.Base.Int.{ℤ, pos, to_size}
use twitch_chat_worker.Irc.Channels.{
  Channel, ChannelMap, attach, attached, reserve_from, reserve_capacity,
  reserve_channels_for_session,
}

-- The names of the channels that no session serves, in the order of the map.
abbrev pub unattached : ChannelMap → List Text
unattached [] = []
unattached ((name, c) ∷ m) = if attached c then unattached m else c.name ∷ unattached m

-- The first `n` channels that no session serves are given to `irc`; all else stays.
abbrev pub attach_first : ℕ → ℕ → ChannelMap → ChannelMap
attach_first zero irc m = m
attach_first (suc n) irc [] = []
attach_first (suc n) irc ((name, c) ∷ m) =
    if attached c
    then (name, c) ∷ attach_first (suc n) irc m
    else (name, attach irc c) ∷ attach_first n irc m

-- With room for `suc n` more names the loop takes the first `suc n` channels that are free.
reserve_from_lem :
    (n capacity irc : ℕ) (result : List Text) (m : ChannelMap)
    → capacity ≡ length result + suc n
    → reserve_from capacity irc result m
      ≡ (result ++ take (suc n) (unattached m), attach_first (suc n) irc m)
unfolding reserve_from
reserve_from_lem n capacity irc result [] h = ap (λ r. (r, [])) (sym (append-nil result))
reserve_from_lem zero capacity irc result ((name, c) ∷ m) h =
    ground (arith, length-append result (c.name ∷ []), reserve_from_lem zero capacity irc result m)
reserve_from_lem (suc n) capacity irc result ((name, c) ∷ m) h = ground (
  arith,
  length-append result (c.name ∷ []),
  append_assoc result (c.name ∷ []) (take (suc n) (unattached m)),
  reserve_from_lem (suc n) capacity irc result m,
  reserve_from_lem n capacity irc (result ++ c.name ∷ []) m,
)

-- For a count of sessions that is not zero, the loop hands the session the first channels that no
-- session serves, at most the quotient of the channels by the sessions plus one, in the order of the
-- map; exactly these are attached to it, and no other entry changes.
pub reserve_channels_for_session_lem :
    (session_count : ℤ) (irc : ℕ) (m : ChannelMap)
    → to_size session_count ≢ 0
    → let capacity = length m / to_size session_count + 1 in
      reserve_channels_for_session session_count irc m
      ≡ some (take capacity (unattached m), attach_first capacity irc m)
unfolding reserve_channels_for_session reserve_capacity
reserve_channels_for_session_lem session_count irc m h =
    let n = length m / to_size session_count in
    ground (arith, reserve_from_lem n (suc n) irc [] m (omega arith))

-- The channels that are still free are those behind the ones handed out.
attached-attach : (irc : ℕ) (c : Channel) → attached (attach irc c) ≡ true
unfolding attached attach
attached-attach irc c = refl

pub unattached-attach_first :
    (n irc : ℕ) (m : ChannelMap) → unattached (attach_first n irc m) ≡ drop n (unattached m)
unattached-attach_first zero irc m = refl
unattached-attach_first (suc n) irc [] = refl
unattached-attach_first (suc n) irc ((name, c) ∷ m) = ground (
  arith,
  attached-attach irc c,
  unattached-attach_first (suc n) irc m,
  unattached-attach_first n irc m,
)

pub length-attach_first : (n irc : ℕ) (m : ChannelMap) → length (attach_first n irc m) ≡ length m
length-attach_first zero irc m = refl
length-attach_first (suc n) irc [] = refl
length-attach_first (suc n) irc ((name, c) ∷ m) =
    ground (arith, length-attach_first (suc n) irc m, length-attach_first n irc m)

length-unattached-le : (m : ChannelMap) → length (unattached m) ≤ length m
length-unattached-le [] = omega arith
length-unattached-le ((name, c) ∷ m) = ground (arith, length-unattached-le m)

-- The sessions log in one after another, each reserving its channels.
unfoldable pub reserve_all : ℤ → List ℕ → ChannelMap → Option ChannelMap
reserve_all session_count [] m = some m
reserve_all session_count (irc ∷ ircs) m = elim (reserve_channels_for_session session_count irc m) [
  | none ↦ none
  | some (names, m') ↦ reserve_all session_count ircs m'
]

reserve_all_lem :
    (session_count : ℤ) (ircs : List ℕ) (m : ChannelMap) (capacity : ℕ)
    → to_size session_count ≢ 0
    → capacity ≡ length m / to_size session_count + 1
    → (m' : ChannelMap) × (reserve_all session_count ircs m ≡ some m')
      × (length (unattached m') ≡ length (unattached m) - length ircs * capacity)
unfolding reserve_all
reserve_all_lem session_count [] m capacity h k = (m, refl, omega arith)
reserve_all_lem session_count (irc ∷ ircs) m capacity h k =
    (let m1 = attach_first capacity irc m in
      let (m', e, u) =
        reserve_all_lem session_count ircs m1 capacity h (
          k ∙ ap (λ n. n / to_size session_count + 1) (sym (length-attach_first capacity irc m))) in
      (
        m',
        ground (arith, reserve_channels_for_session_lem session_count irc m h, e, k),
        omega (
          arith,
          u,
          ap length (unattached-attach_first capacity irc m),
          length-drop capacity (unattached m),
        ),
      ))

-- For a configured number of sessions that is not zero: once at least so many sessions have logged
-- in, one after another, and none has disconnected meanwhile, every channel of the account is
-- served by a session.
pub every_channel_reserved :
    (session_count : ℤ) (ircs : List ℕ) (m : ChannelMap)
    → to_size session_count ≢ 0
    → to_size session_count ≤ length ircs
    → (m' : ChannelMap) × (reserve_all session_count ircs m ≡ some m') × (unattached m' ≡ [])
every_channel_reserved session_count ircs m h k =
    (let n = length m / to_size session_count + 1 in
      let (m', e, u) = reserve_all_lem session_count ircs m n h refl in
      (m', e, nil_of_length (unattached m') (omega (arith, u, enough))))
  where
    enough : length (unattached m) ≤ length ircs * (length m / to_size session_count + 1)
    enough = grind (arith, length-unattached-le m)

-- An account that is configured with no session at all divides by zero at its first login, although
-- a client starts at least one session for it.
pub reserve_without_sessions :
    (irc : ℕ) (m : ChannelMap) → reserve_channels_for_session (pos 0) irc m ≡ none
unfolding reserve_channels_for_session reserve_capacity
reserve_without_sessions irc m = refl
