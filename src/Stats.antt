-- ===== src/Stats.antt =====
-- StatsCollector.h, StatsCollector.cpp and the counters of db/ch/CHConnection.h: what the agents report,
-- added up until a request reads it. A body is what nlohmann::json makes of a request; an answer is its
-- content before it is printed. `none` is an exception or an index out of range.
pub mod Channels
pub mod Accounts
pub mod Sessions
pub mod Inserts
use twitch_chat_worker.Base.{
  ℕ, zero, suc, ◌+◌, ◌-◌, ◌^◌, Bool, true, false, ◌||◌, Option, none, some, List, [], ◌∷◌, ◌++◌,
  length, take, replicate, max, leb, ltb, eqb, if◌then◌else◌, add32,
}
use twitch_chat_worker.Base.Fault.{◌>>=◌}
use twitch_chat_worker.Base.Key.{Text, text_key}
use twitch_chat_worker.Base.Dict.{Dict, lookup, emplace, update, erase}
use twitch_chat_worker.Irc.Statistic.{Statistic, empty, add}

pub record ChannelStats : Type 0 where
  pub in_count : ℕ
  pub out_count : ℕ
  pub updated : ℕ

abbrev pub no_channel_stats : ChannelStats
no_channel_stats = record { in_count = 0; out_count = 0; updated = 0 }

pub record ChStatistics : Type 0 where
  pub rtt : ℕ
  pub count : ℕ
  pub rows : ℕ
  pub failed : ℕ

abbrev pub no_ch_statistics : ChStatistics
no_ch_statistics = record { rtt = 0; count = 0; rows = 0; failed = 0 }

-- `CHStatistics::operator+`
unfoldable pub add_ch : ChStatistics → ChStatistics → ChStatistics
add_ch a b = record {
  rtt = if ltb 0 b.rtt then b.rtt else a.rtt;
  count = add32 a.count b.count;
  rows = add32 a.rows b.rows;
  failed = add32 a.failed b.failed;
}

pub record Collector : Type 0 where
  pub all_irc_stats : Statistic
  pub irc_client_channels : Dict Text (List (Text × ℕ))
  pub irc_stats : Dict Text (List Statistic)
  pub channels_stats : Dict Text ChannelStats
  pub ch_pool_stats : List ChStatistics
  pub disp_stats : Dict Text ℕ

-- `f(m[k])`, where `m[k]` is `d` if the key is new
unfoldable pub at_key : {V : Type 0} → Text → V → (V → V) → Dict Text V → Dict Text V
at_key k d f m = update k f (emplace k d m)

-- `resize`
unfoldable pub resize : {A : Type 0} → ℕ → A → List A → List A
resize n d xs = take n xs ++ replicate (n - length xs) d

-- `xs[i] += x`, which is undefined out of range (`none`)
unfoldable pub add_at : ℕ → Statistic → List Statistic → Option (List Statistic)
add_at i x [] = none
add_at zero x (y ∷ ys) = some (add y x ∷ ys)
add_at (suc i) x (y ∷ ys) = add_at i x ys >>= λ zs. some (y ∷ zs)

unfoldable pub evt_quantity : Text → ℕ → Collector → Collector
evt_quantity prefix value c = record c { disp_stats = at_key prefix 0 (λ _. value) c.disp_stats }

unfoldable pub session_stats : Text → Dict Text (List Statistic) → List Statistic
session_stats nick m = elim (lookup nick m) [ none ↦ [] | some stats ↦ stats ]

unfoldable pub evt_irc_metrics : ℕ → Text → Statistic → Collector → Option Collector
unfolding session_stats resize add_at at_key
evt_irc_metrics id nick stats c = do
  let old = session_stats nick c.irc_stats
  let sized = if leb (length old) id then resize (add32 id 1) empty old else old
  new ← add_at id stats sized
  some (record c {
    all_irc_stats = add c.all_irc_stats stats;
    irc_stats = at_key nick [] (λ _. new) c.irc_stats;
  })

unfoldable pub evt_irc_client_channels_metrics : Text → List (Text × ℕ) → Collector → Collector
unfolding at_key
evt_irc_client_channels_metrics nick channels c = record c {
  irc_client_channels = at_key nick [] (λ _. channels) c.irc_client_channels;
}

abbrev pub int_max : ℕ
int_max = 2 ^ 31 - 1

-- What `channelsStats[channel]` holds, a new one if there is none.
unfoldable pub stats_of : Text → Dict Text ChannelStats → ChannelStats
stats_of channel m = elim (lookup channel m) [ none ↦ no_channel_stats | some s ↦ s ]

-- A message at the time `now`; the counters are an `int`, whose overflow is undefined (`none`).
unfoldable pub evt_recv_message_metric : ℕ → Text → Collector → Option Collector
unfolding at_key stats_of
evt_recv_message_metric now channel c =
    if ltb (stats_of channel c.channels_stats).in_count int_max
    then some (record c {
      channels_stats =
          at_key channel no_channel_stats
            (λ s. record s { in_count = suc s.in_count; updated = now }) c.channels_stats;
    })
    else none

unfoldable pub evt_send_message_metric : ℕ → Text → Collector → Option Collector
unfolding at_key stats_of
evt_send_message_metric now channel c =
    if ltb (stats_of channel c.channels_stats).out_count int_max
    then some (record c {
      channels_stats =
          at_key channel no_channel_stats
            (λ s. record s { out_count = suc s.out_count; updated = now }) c.channels_stats;
    })
    else none

-- The loop of `evtCHPoolMetric`, which ends with the report.
unfoldable pub add_each : List ChStatistics → List ChStatistics → List ChStatistics
unfolding add_ch
add_each [] report = []
add_each (x ∷ xs) [] = x ∷ xs
add_each (x ∷ xs) (y ∷ ys) = add_ch x y ∷ add_each xs ys

unfoldable pub evt_ch_pool_metric : List ChStatistics → Collector → Collector
unfolding add_each resize
evt_ch_pool_metric report c = record c {
  ch_pool_stats =
      add_each
        (resize (max (length c.ch_pool_stats) (length report)) no_ch_statistics c.ch_pool_stats)
        report;
}

-- The requests that carry no list. The answers are the counters themselves.
unfoldable pub evt_http_so5_disp : Collector → Dict Text ℕ × Collector
evt_http_so5_disp c = (c.disp_stats, c)

unfoldable pub evt_http_storage_stats : Collector → List ChStatistics × Collector
evt_http_storage_stats c = (c.ch_pool_stats, record c { ch_pool_stats = [] })

unfoldable pub evt_http_irc_stats : Collector → Statistic × Collector
evt_http_irc_stats c = (c.all_irc_stats, record c { all_irc_stats = empty })

-- A body: empty, not JSON, JSON whose key cannot be read, without an array under the key, or an array,
-- in which `none` is no string.
pub data Body : Type 0 where
  empty_body discarded unreadable no_array : Body
  array : List (Option Text) → Body

pub data Answer (A : Type 0) : Type 0 where
  answered : A → Answer A
  failed_to_parse invalid_type : Answer A

-- The channels with their counters, from first to last.
unfoldable pub read_channels :
    List (Option Text)
    → Dict Text ChannelStats
    → Option (List (Text × ChannelStats) × Dict Text ChannelStats)
unfolding stats_of
read_channels [] m = some ([], m)
read_channels (none ∷ names) m = none
read_channels (some name ∷ names) m = do
  let stats = stats_of name m
  (rest, m') ← read_channels names (erase name m)
  some ((name, stats) ∷ rest, m')

unfoldable pub evt_http_channels_stats :
    Body → Collector → Option (Answer (List (Text × ChannelStats)) × Collector)
evt_http_channels_stats empty_body c =
    some (answered c.channels_stats, record c { channels_stats = [] })
evt_http_channels_stats discarded c = some (failed_to_parse, c)
evt_http_channels_stats unreadable c = none
evt_http_channels_stats no_array c = some (invalid_type, c)
evt_http_channels_stats (array names) c = do
  (answer, m) ← read_channels names c.channels_stats
  some (answered answer, record c { channels_stats = m })
