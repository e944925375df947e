-- ===== src/Stats/Channels/Returns.antt =====
-- StatsCollector.cpp: when a sequence of messages and requests is taken to its end, and what becomes of
-- the messages.
use twitch_chat_worker.Base.{
  ◌+◌, ◌≡◌, refl, subst, Option, none, some, List, [], ◌∷◌, ◌++◌, if◌then◌else◌, arith, ltb, ◌≤◌,
  Bool, true, false, All,
}
use twitch_chat_worker.Base.Fault.{◌>>=◌, OnSome}
use twitch_chat_worker.Base.Key.{Text, text_key, eq_refl}
use twitch_chat_worker.Base.Dict.{Dict, erase}
use twitch_chat_worker.Stats.{
  ChannelStats, int_max, stats_of, Collector, read_channels, evt_recv_message_metric,
  evt_send_message_metric, evt_http_channels_stats,
}
use twitch_chat_worker.Stats.Channels.{Side, incoming, outgoing, unread, read}
use twitch_chat_worker.Stats.Channels.Traffic.{
  Metric, received, sent, listed, take_metric, take_metrics, happened, take_metric-Conserves,
  take_metrics-Conserves,
}

-- Every name that is listed is a string.
abbrev pub AllNamed : List (Option Text) → Type 0
AllNamed [] = Unit
AllNamed (none ∷ names) = ⊥
AllNamed (some name ∷ names) = AllNamed names

abbrev pub IsNamed : Metric → Type 0
IsNamed (listed names) = AllNamed names
IsNamed _ = Unit

-- No counter goes beyond an `int`, even if it is not read meanwhile.
abbrev pub Fits : List Metric → Collector → Type 0
Fits es c =
    (side : Side) (name : Text)
    → unread side name c.channels_stats + happened side name es ≤ int_max

read_channels-returns :
    (names : List (Option Text)) (m : Dict Text ChannelStats)
    → AllNamed names
    → (r : List (Text × ChannelStats) × Dict Text ChannelStats) × (read_channels names m ≡ some r)
unfolding read_channels
read_channels-returns [] m h = (([], m), refl)
read_channels-returns (none ∷ names) m h = absurd h
read_channels-returns (some name ∷ names) m h =
    let (r, e) = read_channels-returns names (erase name m) h in
    (((name, stats_of name m) ∷ r.0, r.1), rw (e) refl)

-- What is guarded by a test that holds.
guarded :
    (test : Bool) (c : Collector)
    → test ≡ true
    → (r : List (Text × ChannelStats) × Collector) × (((if test then some c else none) >>= λ c'.
          some ([], c'))
        ≡ some r)
guarded true c h = (([], c), refl)
guarded false c h = absurd (cc (h))

take_metric-returns :
    (e : Metric) (es : List Metric) (c : Collector)
    → IsNamed e
    → Fits (e ∷ es) c
    → (r : List (Text × ChannelStats) × Collector) × (take_metric e c ≡ some r)
unfolding take_metric evt_recv_message_metric evt_send_message_metric evt_http_channels_stats unread
take_metric-returns (received now k) es c h fits =
    guarded (ltb (stats_of k c.channels_stats).in_count int_max) _
      (ground (arith, fits incoming k, eq_refl k))
take_metric-returns (sent now k) es c h fits =
    guarded (ltb (stats_of k c.channels_stats).out_count int_max) _
      (ground (arith, fits outgoing k, eq_refl k))
take_metric-returns (listed names) es c h fits =
    let (r, e) = read_channels-returns names c.channels_stats h in
    ((r.0, record c { channels_stats = r.1 }), rw (e) refl)

Fits-take_metric :
    (e : Metric) (es : List Metric) (c : Collector) (r : List (Text × ChannelStats) × Collector)
    → take_metric e c ≡ some r
    → Fits (e ∷ es) c
    → Fits es r.1
Fits-take_metric e es c r h fits side name =
    let told = subst (OnSome _) h (take_metric-Conserves side name e c) in
    let room = fits side name in omega (arith, told, room)

-- A sequence of received and sent messages and of requests that list channels, all names in which
-- are strings, is taken to its end if for each channel and each side the messages that were unread
-- and those of the sequence come to at most 2^31 - 1. Then no message of a channel is lost from
-- the answers and none is counted twice, received or sent: those that the answers count and those
-- that are still unread make up those that were unread before and those of the sequence.
pub take_metrics_lem :
    (es : List Metric) (c : Collector)
    → All IsNamed es
    → Fits es c
    → (answer : List (Text × ChannelStats)) × (c' : Collector) × (take_metrics es c
        ≡ some (answer, c'))
      × ((side : Side) (name : Text)
          → read side name answer + unread side name c'.channels_stats
            ≡ unread side name c.channels_stats + happened side name es)
unfolding take_metrics
take_metrics_lem es c named fits =
    let (r, e) = returned es c named fits in
    (r.0, r.1, e, λ side name. subst (OnSome _) e (take_metrics-Conserves side name es c))
  where
    returned :
        (es : List Metric) (c : Collector)
        → All IsNamed es
        → Fits es c
        → (r : List (Text × ChannelStats) × Collector) × (take_metrics es c ≡ some r)
    returned [] c named fits = (([], c), refl)
    returned (e ∷ es) c (h, hs) fits =
        let (r, p) = take_metric-returns e es c h fits in
        let (q, t) = returned es r.1 hs (Fits-take_metric e es c r p fits) in
        ((r.0 ++ q.0, q.1), rw (p, t) refl)
