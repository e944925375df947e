-- ===== src/Db/Ch.antt =====
-- db/ch/CHConnection.h, CHConnection.cpp and CHConnectionPool.cpp: the connections to ClickHouse and
-- what they count. What ClickHouse and the clock answer comes with each call.
use twitch_chat_worker.Base.{ℕ, zero, suc, ◌-◌, Bool, List, [], ◌∷◌, add32, if◌then◌else◌}
use twitch_chat_worker.Base.Key.{text_key, number_key, int_key}
use twitch_chat_worker.Stats.{ChStatistics, no_ch_statistics}

-- How an insert ends: `conn->Insert` returns or throws.
pub record Insert : Type 0 where
  pub returns : Bool
  pub first : ℕ
  pub now : ℕ

-- The constructor, by whether the client's constructor returns: `established`.
unfoldable pub new_connection : Bool → Bool × ChStatistics
new_connection returns = (returns, no_ch_statistics)

-- `insert`, for a block of so many rows. A clock that goes back gives 0: what is not positive is
-- not taken over by the sums.
unfoldable pub insert : ℕ → Insert → ChStatistics → ChStatistics
insert rows answer stats =
    if answer.returns
    then record stats {
      count = add32 stats.count 1;
      rows = add32 stats.rows rows;
      rtt = answer.now - answer.first;
    }
    else record stats { failed = add32 stats.failed 1; rtt = answer.now - answer.first }

-- `getStats`: the statistics, and what is left.
abbrev pub get_stats : ChStatistics → ChStatistics × ChStatistics
get_stats stats = (stats, no_ch_statistics)

-- `createConnection`, for each connection of the pool: those in `all`.
unfoldable pub all_created : List Bool → List ChStatistics
unfolding new_connection
all_created [] = []
all_created (returns ∷ answers) =
    let all = all_created answers in
    let (connected, stats) = new_connection returns in if connected then stats ∷ all else all

-- `collectStats`: the report, and the connections after it.
unfoldable pub collect_stats : List ChStatistics → List ChStatistics × List ChStatistics
collect_stats [] = ([], [])
collect_stats (conn ∷ all) =
    let (report, left) = collect_stats all in
    let (stats, empty) = get_stats conn in (stats ∷ report, empty ∷ left)

-- `insert` of the connection that the lock gives, the i-th of `all`.
unfoldable pub insert_by : ℕ → ℕ → Insert → List ChStatistics → List ChStatistics
unfolding insert
insert_by i rows answer [] = []
insert_by zero rows answer (conn ∷ all) = insert rows answer conn ∷ all
insert_by (suc i) rows answer (conn ∷ all) = conn ∷ insert_by i rows answer all
