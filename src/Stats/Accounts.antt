-- ===== src/Stats/Accounts.antt =====
-- `evtHttpAccountsStats` of StatsCollector.cpp: the counters of the sessions of accounts, with the
-- channels that each session serves.
use twitch_chat_worker.Base.{
  ℕ, suc, ◌-◌, ◌^◌, Option, none, some, List, [], ◌∷◌, eqb, if◌then◌else◌,
}
use twitch_chat_worker.Base.Fault.{◌>>=◌}
use twitch_chat_worker.Base.Key.{Text, text_key}
use twitch_chat_worker.Base.Dict.{Dict, lookup, emplace, erase}
use twitch_chat_worker.Irc.Statistic.{Statistic}
use twitch_chat_worker.Stats.{
  Collector, Body, empty_body, discarded, unreadable, no_array, array, Answer, answered,
  failed_to_parse, invalid_type,
}

pub record SessionAnswer : Type 0 where
  pub nick : Text
  pub id : ℕ
  pub stats : Statistic
  pub channels : List Text

-- An empty list of unattached channels stands for the missing key.
pub record AccountAnswer : Type 0 where
  pub sessions : List SessionAnswer
  pub unattached_channels : List Text

-- The names of the channels with a session's id.
unfoldable pub joined_to : ℕ → List (Text × ℕ) → List Text
joined_to i [] = []
joined_to i ((name, id) ∷ channels) =
    let rest = joined_to i channels in if eqb id i then name ∷ rest else rest

-- The sessions from the id `i` on.
unfoldable pub dump_sessions : ℕ → Text → List Statistic → List (Text × ℕ) → List SessionAnswer
unfolding joined_to
dump_sessions i nick [] channels = []
dump_sessions i nick (s ∷ stats) channels =
    record { nick = nick; id = i; stats = s; channels = joined_to i channels }
    ∷ dump_sessions (suc i) nick stats channels

-- The channels without a session are looked for once for each session, so not without sessions.
unfoldable pub unattached_of : List Statistic → List (Text × ℕ) → List Text
unattached_of [] channels = []
unattached_of (s ∷ stats) channels = joined_to (2 ^ 32 - 1) channels

-- `dumpAccountWithSessions`, which makes an entry for the account's channels if there is none
unfoldable pub dump_account :
    Text
    → List Statistic
    → Dict Text (List (Text × ℕ))
    → AccountAnswer × Dict Text (List (Text × ℕ))
unfolding dump_sessions unattached_of
dump_account nick stats m =
    let channels : List (Text × ℕ) = elim (lookup nick m) [ none ↦ [] | some cs ↦ cs ] in
    (
      record {
        sessions = dump_sessions 0 nick stats channels;
        unattached_channels = unattached_of stats channels;
      },
      emplace nick [] m,
    )

unfoldable pub dump_all :
    Dict Text (List Statistic)
    → Dict Text (List (Text × ℕ))
    → List AccountAnswer × Dict Text (List (Text × ℕ))
unfolding dump_account
dump_all [] m = ([], m)
dump_all ((nick, stats) ∷ accounts) m =
    let (first, m') = dump_account nick stats m in
    let (rest, m'') = dump_all accounts m' in (first ∷ rest, m'')

-- The answer for every account, after which no counters are left.
unfoldable pub read_all : Collector → Answer (List AccountAnswer) × Collector
unfolding dump_all
read_all c =
    let (answer, m) = dump_all c.irc_stats c.irc_client_channels in
    (answered answer, record c { irc_stats = []; irc_client_channels = m })

-- The accounts of a list from first to last; unknown ones are passed over.
unfoldable pub read_accounts :
    List (Option Text) → Collector → Option (List AccountAnswer × Collector)
unfolding dump_account
read_accounts [] c = some ([], c)
read_accounts (none ∷ names) c = none
read_accounts (some nick ∷ names) c = elim (lookup nick c.irc_stats) [
  | none ↦ read_accounts names c
  | some stats ↦
      let (first, m) = dump_account nick stats c.irc_client_channels in
      (read_accounts names
          (record c { irc_stats = erase nick c.irc_stats; irc_client_channels = m })
        >>= λ r. some (first ∷ r.0, r.1))
]

unfoldable pub evt_http_accounts_stats :
    Body → Collector → Option (Answer (List AccountAnswer) × Collector)
unfolding read_all read_accounts
evt_http_accounts_stats empty_body c = some (read_all c)
evt_http_accounts_stats discarded c = some (failed_to_parse, c)
evt_http_accounts_stats unreadable c = none
evt_http_accounts_stats no_array c = some (invalid_type, c)
evt_http_accounts_stats (array []) c = some (read_all c)
evt_http_accounts_stats (array (name ∷ names)) c =
    read_accounts (name ∷ names) c >>= λ r. some (answered r.0, r.1)
