-- ===== src/Stats/Channels/Traffic.antt =====
-- StatsCollector.cpp: sequences of messages and of requests that list channels.
use twitch_chat_worker.Base.{
  ℕ, suc, ◌+◌, ◌≡◌, refl, subst, Bool-cases, Option-cases, inl, inr, Option, some, List, [], ◌∷◌,
  ◌++◌, if◌then◌else◌, arith, ltb, Bool, false,
}
use twitch_chat_worker.Base.Fault.{◌>>=◌, OnSome, OnSome-bind}
use twitch_chat_worker.Base.Key.{Text, text_key, ◌==◌}
use twitch_chat_worker.Stats.{
  ChannelStats, no_channel_stats, int_max, stats_of, Collector, Answer, answered, failed_to_parse,
  invalid_type, array, read_channels, at_key, evt_recv_message_metric, evt_send_message_metric,
  evt_http_channels_stats,
}
use twitch_chat_worker.Stats.Channels.{
  Side, incoming, outgoing, unread, read, read_channels-unread, unread-at_key,
}

-- What reaches the collector of a channel's messages, and the requests that list channels.
pub data Metric : Type 0 where
  received sent : ℕ → Text → Metric
  listed : List (Option Text) → Metric

unfoldable pub content : Answer (List (Text × ChannelStats)) → List (Text × ChannelStats)
content (answered channels) = channels
content failed_to_parse = []
content invalid_type = []

-- One of them: what is answered, and the collector.
unfoldable pub take_metric : Metric → Collector → Option (List (Text × ChannelStats) × Collector)
unfolding content
take_metric (received now channel) c = evt_recv_message_metric now channel c >>= λ c'. some ([], c')
take_metric (sent now channel) c = evt_send_message_metric now channel c >>= λ c'. some ([], c')
take_metric (listed names) c =
    evt_http_channels_stats (array names) c >>= λ r. some (content r.0, r.1)

unfoldable pub take_metrics :
    List Metric → Collector → Option (List (Text × ChannelStats) × Collector)
take_metrics [] c = some ([], c)
take_metrics (e ∷ es) c = do
  (answer, c') ← take_metric e c
  (rest, c'') ← take_metrics es c'
  some (answer ++ rest, c'')

-- Whether it is a message of a channel on a side.
abbrev pub is_of : Side → Text → Metric → Bool
is_of incoming name (received now k) = k == name
is_of outgoing name (sent now k) = k == name
is_of _ name _ = false

abbrev pub happened : Side → Text → List Metric → ℕ
happened side name [] = 0
happened side name (e ∷ es) = (if is_of side name e then 1 else 0) + happened side name es

read-append :
    (side : Side) (name : Text) (xs ys : List (Text × ChannelStats))
    → read side name (xs ++ ys) ≡ read side name xs + read side name ys
unfolding read
read-append side name [] ys = omega arith
read-append side name ((k, s) ∷ xs) ys = omega (arith, read-append side name xs ys)

-- What is answered and what stays unread make up what was unread and `n` more.
abbrev pub Conserves : Side → Text → ℕ → Collector → List (Text × ChannelStats) × Collector → Type 0
Conserves side name n c r =
    read side name r.0 + unread side name r.1.channels_stats ≡ unread side name c.channels_stats + n

evt_recv_message_metric-unread :
    (side : Side) (now : ℕ) (k name : Text) (c : Collector)
    → OnSome
        (λ c'.
          unread side name c'.channels_stats
          ≡ unread side name c.channels_stats + (if is_of side name (received now k) then 1 else 0))
        (evt_recv_message_metric now k c)
unfolding evt_recv_message_metric
evt_recv_message_metric-unread side now k name c =
    elim (Bool-cases (ltb (stats_of k c.channels_stats).in_count int_max)) [
      | inr e ↦ rw (e, evt_recv_message_metric) tt
      | inl e ↦ rw (e, evt_recv_message_metric) (by_side side)
    ]
  where
    new : ChannelStats → ChannelStats
    new s = record s { in_count = suc s.in_count; updated = now }

    by_side :
        (side : Side)
        → unread side name (at_key k no_channel_stats new c.channels_stats)
          ≡ unread side name c.channels_stats + (if is_of side name (received now k) then 1 else 0)
    by_side incoming = unread-at_key incoming k name new c.channels_stats 1 (λ s. omega arith)
    by_side outgoing =
        ground (arith, unread-at_key outgoing k name new c.channels_stats 0 (λ s. omega arith))

evt_send_message_metric-unread :
    (side : Side) (now : ℕ) (k name : Text) (c : Collector)
    → OnSome
        (λ c'.
          unread side name c'.channels_stats
          ≡ unread side name c.channels_stats + (if is_of side name (sent now k) then 1 else 0))
        (evt_send_message_metric now k c)
unfolding evt_send_message_metric
evt_send_message_metric-unread side now k name c =
    elim (Bool-cases (ltb (stats_of k c.channels_stats).out_count int_max)) [
      | inr e ↦ rw (e, evt_send_message_metric) tt
      | inl e ↦ rw (e, evt_send_message_metric) (by_side side)
    ]
  where
    new : ChannelStats → ChannelStats
    new s = record s { out_count = suc s.out_count; updated = now }

    by_side :
        (side : Side)
        → unread side name (at_key k no_channel_stats new c.channels_stats)
          ≡ unread side name c.channels_stats + (if is_of side name (sent now k) then 1 else 0)
    by_side incoming =
        ground (arith, unread-at_key incoming k name new c.channels_stats 0 (λ s. omega arith))
    by_side outgoing = unread-at_key outgoing k name new c.channels_stats 1 (λ s. omega arith)

pub take_metric-Conserves :
    (side : Side) (name : Text) (e : Metric) (c : Collector)
    → OnSome (Conserves side name (if is_of side name e then 1 else 0) c) (take_metric e c)
unfolding take_metric read evt_http_channels_stats content
take_metric-Conserves side name (received now k) c =
    OnSome-bind _ (Conserves side name (if is_of side name (received now k) then 1 else 0) c)
      (evt_recv_message_metric now k c) (λ c'. some ([], c'))
      (evt_recv_message_metric-unread side now k name c) (λ c' h. omega (arith, h))
take_metric-Conserves side name (sent now k) c =
    OnSome-bind _ (Conserves side name (if is_of side name (sent now k) then 1 else 0) c)
      (evt_send_message_metric now k c) (λ c'. some ([], c'))
      (evt_send_message_metric-unread side now k name c) (λ c' h. omega (arith, h))
take_metric-Conserves side name (listed names) c =
    elim (Option-cases (read_channels names c.channels_stats)) [
      | inl p ↦ rw (p) tt
      | inr (r, p) ↦
          let told =
            subst
              (OnSome (λ x.
                read side name x.0 + unread side name x.1 ≡ unread side name c.channels_stats))
              p (read_channels-unread side name names c.channels_stats) in
          let unlisted : is_of side name (listed names) ≡ false = is_of-listed side in
          rw (p, unlisted) (omega (arith, told))
    ]
  where
    is_of-listed : (side : Side) → is_of side name (listed names) ≡ false
    is_of-listed incoming = refl
    is_of-listed outgoing = refl

-- Over any sequence that returns.
pub take_metrics-Conserves :
    (side : Side) (name : Text) (es : List Metric) (c : Collector)
    → OnSome (Conserves side name (happened side name es) c) (take_metrics es c)
unfolding take_metrics read
take_metrics-Conserves side name [] c = omega arith
take_metrics-Conserves side name (e ∷ es) c =
    OnSome-bind (Conserves side name (if is_of side name e then 1 else 0) c)
      (Conserves side name (happened side name (e ∷ es)) c) (take_metric e c) _
      (take_metric-Conserves side name e c)
      (λ x h.
        OnSome-bind (Conserves side name (happened side name es) x.1)
          (Conserves side name (happened side name (e ∷ es)) c) (take_metrics es x.1)
          (λ y. some (x.0 ++ y.0, y.1)) (take_metrics-Conserves side name es x.1)
          (λ y k. omega (arith, h, k, read-append side name x.0 y.0)))
