-- ===== src/Irc/Channels/Attach.antt =====
-- What the loss of a session does to the channels that it served.
use twitch_chat_worker.Base.{
  ℕ, ◌≡◌, refl, ap, Bool, true, false, Bool-cases, inl, inr, List, [], ◌∷◌, eqb, eqb_iff,
  if◌then◌else◌, Option, none, some, arith,
}
use twitch_chat_worker.Base.Key.{Text}
use twitch_chat_worker.Irc.Channels.{
  Channel, ChannelMap, attached_to, detach, set_joined, detach_and_part_from_session,
}

-- The names of the channels that a session serves, and of those that another one serves.
abbrev pub served_by : ℕ → ChannelMap → List Text
served_by a [] = []
served_by a ((name, c) ∷ m) = if attached_to a c then name ∷ served_by a m else served_by a m

attached_to-other :
    (a b : ℕ) (c : Channel) → eqb a b ≡ false → attached_to b c ≡ true → attached_to a c ≡ false
unfolding attached_to
attached_to-other a b c h k = by_session c.session k
  where
    by_session :
        (s : Option ℕ)
        → (elim s as (λ _. Bool) [ none ↦ false | some x ↦ eqb x b ]) ≡ true
        → (elim s as (λ _. Bool) [ none ↦ false | some x ↦ eqb x a ]) ≡ false
    by_session none p = refl
    by_session (some x) p = ground (arith, p, h)

attached_to-detached : (a : ℕ) (c : Channel) → attached_to a (set_joined false (detach c)) ≡ false
unfolding attached_to set_joined detach
attached_to-detached a c = refl

-- Once a session is lost it serves no channel any more, and every other session serves the channels
-- that it served before.
pub served_by-detach_and_part_from_session :
    (a b : ℕ) (m : ChannelMap)
    → served_by a (detach_and_part_from_session b m) ≡ (if eqb a b then [] else served_by a m)
unfolding detach_and_part_from_session
served_by-detach_and_part_from_session a b [] = ground arith
served_by-detach_and_part_from_session a b ((name, c) ∷ m) = elim (Bool-cases (eqb a b)) [
  | inl e ↦
      let same : a ≡ b = (eqb_iff a b).0 e in
      ground (
        arith,
        e,
        same,
        attached_to-detached b c,
        ap (λ n. attached_to n c) same,
        served_by-detach_and_part_from_session a b m,
      )
  | inr e ↦ ground (
    arith,
    e,
    attached_to-other a b c e,
    attached_to-detached a c,
    served_by-detach_and_part_from_session a b m,
  )
]
