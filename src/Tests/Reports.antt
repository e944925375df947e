-- ===== src/Tests/Reports.antt =====
-- StatsCollector.cpp: two channels, one account.
use twitch_chat_worker.Base.{arith, ◌+◌, ◌≡◌, refl, some, List, [], ◌∷◌}
use twitch_chat_worker.Base.Key.{Text, codes, text_key, text_eq, text_before}
use twitch_chat_worker.Base.Dict.{lookup, has, insert_at, emplace, update, erase}
use twitch_chat_worker.Irc.Statistic.{Statistic, empty}
use twitch_chat_worker.Stats.{
  ChannelStats, no_channel_stats, stats_of, Collector, at_key, read_channels,
  evt_recv_message_metric, evt_http_channels_stats,
}
use twitch_chat_worker.Stats.Channels.{Side, incoming, outgoing, read, unread}
use twitch_chat_worker.Stats.Channels.Traffic.{
  Metric, received, listed, take_metric, take_metrics, happened,
}
use twitch_chat_worker.Stats.Channels.Returns.{Fits, take_metrics_lem}

abbrev collector : Collector
collector = record {
  all_irc_stats = empty;
  irc_client_channels = [];
  irc_stats = (codes "bob", record empty { join = 3 } ∷ []) ∷ [];
  channels_stats = (codes "a", record { in_count = 2; out_count = 0; updated = 1 }) ∷ [];
  ch_pool_stats = [];
  disp_stats = [];
}

-- A message of "a", then a request that names "a" twice, then a message of each.
abbrev metrics : List Metric
metrics =
    received 5 (codes "a")
    ∷ listed (some (codes "a") ∷ some (codes "a") ∷ [])
    ∷ received 6 (codes "a")
    ∷ received 7 (codes "b")
    ∷ []

abbrev answer : List (Text × ChannelStats)
answer =
    (codes "a", record { in_count = 3; out_count = 0; updated = 5 })
    ∷ (codes "a", no_channel_stats)
    ∷ []

abbrev after : Collector
after = record collector {
  channels_stats =
      (codes "a", record { in_count = 1; out_count = 0; updated = 6 })
      ∷ (codes "b", record { in_count = 1; out_count = 0; updated = 7 })
      ∷ [];
}

taken : take_metrics metrics collector ≡ some (answer, after)
unfolding take_metrics take_metric evt_recv_message_metric evt_http_channels_stats read_channels
    stats_of at_key lookup has insert_at emplace update erase text_eq text_before
taken = refl

metrics-Fits : Fits metrics collector
unfolding unread stats_of lookup
metrics-Fits incoming name = ground arith
metrics-Fits outgoing name = ground arith

take_metrics_lem_example :
    (told : List (Text × ChannelStats)) × (c : Collector) × (take_metrics metrics collector
      ≡ some (told, c))
    × ((side : Side) (name : Text)
        → read side name told + unread side name c.channels_stats
          ≡ unread side name collector.channels_stats + happened side name metrics)
take_metrics_lem_example =
    take_metrics_lem metrics collector (tt, (tt, (tt, (tt, tt)))) metrics-Fits

-- The account's second session reports.
abbrev report : Statistic
report = record empty { join = 1; rtt = 40 }
