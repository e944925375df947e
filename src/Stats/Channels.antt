-- ===== src/Stats/Channels.antt =====
-- StatsCollector.cpp: what is counted of a channel's messages, and what requests that list channels
-- read of it.
pub mod Returns
pub mod Traffic
use twitch_chat_worker.Base.{
  ℕ, suc, ◌+◌, ◌≡◌, refl, ap, subst, Bool-cases, Option-cases, inl, inr, Option, none, some, List,
  [], ◌∷◌, ◌++◌, if◌then◌else◌, arith, ltb,
}
use twitch_chat_worker.Base.Fault.{◌>>=◌, OnSome, OnSome-bind}
use twitch_chat_worker.Base.Key.{Text, text_key, ◌==◌, eq_iff}
use twitch_chat_worker.Base.Dict.{
  Dict, has, lookup, emplace, erase, lookup-emplace, lookup-update, lookup-erase,
}
use twitch_chat_worker.Stats.{
  ChannelStats, no_channel_stats, int_max, stats_of, Collector, Answer, answered, failed_to_parse,
  invalid_type, array, read_channels, at_key, evt_recv_message_metric, evt_send_message_metric,
  evt_http_channels_stats,
}

-- Received messages, or sent ones.
pub data Side : Type 0 where
  incoming outgoing : Side

abbrev pub count : Side → ChannelStats → ℕ
count incoming s = s.in_count
count outgoing s = s.out_count

-- The messages of a channel that no request has read yet.
unfoldable pub unread : Side → Text → Dict Text ChannelStats → ℕ
unfolding stats_of
unread side name m = count side (stats_of name m)

-- The messages of a channel in an answer.
unfoldable pub read : Side → Text → List (Text × ChannelStats) → ℕ
read side name [] = 0
read side name ((k, s) ∷ answer) = (if k == name then count side s else 0) + read side name answer

unread-erase :
    (side : Side) (k name : Text) (m : Dict Text ChannelStats)
    → unread side name (erase k m) ≡ (if k == name then 0 else unread side name m)
unfolding unread stats_of
unread-erase incoming k name m = ground (arith, lookup-erase k name m)
unread-erase outgoing k name m = ground (arith, lookup-erase k name m)

-- What the answer tells of a channel and what is left of it make up what there was.
pub read_channels-unread :
    (side : Side) (name : Text) (names : List (Option Text)) (m : Dict Text ChannelStats)
    → OnSome
        (λ r. read side name r.0 + unread side name r.1 ≡ unread side name m)
        (read_channels names m)
unfolding read_channels read unread
read_channels-unread side name [] m = omega arith
read_channels-unread side name (none ∷ names) m = tt
read_channels-unread side name (some k ∷ names) m =
    OnSome-bind (λ r. read side name r.0 + unread side name r.1 ≡ unread side name (erase k m))
      (λ r. read side name r.0 + unread side name r.1 ≡ unread side name m)
      (read_channels names (erase k m)) _ (read_channels-unread side name names (erase k m))
      (λ r h. elim (Bool-cases (k == name)) [
        | inl e ↦
            let same : k ≡ name = (eq_iff k name).0 e in
            let there : unread side k m ≡ unread side name m = ap (λ n. unread side n m) same in
            let told : count side (stats_of k m) ≡ unread side k m = refl in
            ground (arith, e, h, told, there, unread-erase side k name m)
        | inr e ↦ ground (arith, e, h, unread-erase side k name m)
      ])

count-no_channel_stats : (side : Side) → count side no_channel_stats ≡ 0
count-no_channel_stats incoming = refl
count-no_channel_stats outgoing = refl

pub unread-at_key :
    (side : Side) (k name : Text) (f : ChannelStats → ChannelStats) (m : Dict Text ChannelStats)
    (n : ℕ)
    → ((s : ChannelStats) → count side (f s) ≡ count side s + n)
    → unread side name (at_key k no_channel_stats f m)
      ≡ unread side name m + (if k == name then n else 0)
unfolding unread stats_of at_key has
unread-at_key side k name f m n g =
    let updated = lookup-update k name f (emplace k no_channel_stats m) in
    let emplaced = lookup-emplace k name no_channel_stats m in
    elim (Bool-cases (k == name)) [
      | inr e ↦ ground (arith, e, updated, emplaced)
      | inl e ↦
          let same : lookup k m ≡ lookup name m = ap (λ j. lookup j m) ((eq_iff k name).0 e) in
          elim (Option-cases (lookup name m)) [
            | inl p ↦ ground (
              arith,
              e,
              p,
              same,
              count-no_channel_stats side,
              g no_channel_stats,
              updated,
              emplaced,
            )
            | inr (s, p) ↦ ground (arith, e, p, same, g s, updated, emplaced)
          ]
    ]
