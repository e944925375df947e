-- ===== src/Tests/Requests.antt =====
-- Runs of db/pg/PGConnection.cpp, db/ch/CHConnection.h, DBController.cpp and of the reports of what
-- ClickHouse has got.
use twitch_chat_worker.Base.{
  ℕ, zero, suc, ◌+◌, ◌%◌, ◌≡◌, refl, true, false, none, some, List, [], ◌∷◌, ◌++◌, arith, u32_mod,
}
use twitch_chat_worker.Base.Key.{codes, text_key, number_key, int_key}
use twitch_chat_worker.DbController.{rows}
use twitch_chat_worker.DbController.Queries.{Hears, answered, query, query_lem}
use twitch_chat_worker.Db.Pg.{
  tuples_ok, fatal_error, Response, Login, Connection, no_connection_yet, Asked, each_result,
  request, read_row, read_rows, each_result_rows, request_rows, reset_connect, new_connection,
  retry_guard, ping,
}
use twitch_chat_worker.Db.Pg.Verdicts.{EndsWithTable}
use twitch_chat_worker.Db.Pg.Requests.{tables}
use twitch_chat_worker.Db.Pg.Attempts.{connects, any_first, tries, new_connection_lem}
use twitch_chat_worker.Db.Pg.Retries.{Within, ping_endless}
use twitch_chat_worker.Stats.{Collector, no_ch_statistics}
use twitch_chat_worker.Irc.Statistic.{empty}
use twitch_chat_worker.Stats.Inserts.{
  Counted, Event, inserts, gather_stats, storage_stats, run, total_rows, unread_rows, accepted_rows,
  run-rows,
}

abbrev one_name : Response
one_name = record {
  status = tuples_ok;
  ntuples = 1;
  nfields = 1;
  value = λ i j. codes "nick";
  now = 7;
}

abbrev lost : Response
lost = record { status = fatal_error; ntuples = 0; nfields = 0; value = λ i j. []; now = 7 }

abbrev down : Login
down = record { status_ok = false; made_nonblocking = false; now = 9 }

abbrev up : Login
up = record { status_ok = true; made_nonblocking = false; now = 9 }

-- The server answers in the second round.
abbrev recovers : ℕ → Asked
recovers zero = record { first = 5; responses = lost ∷ [] }
recovers (suc k) = record { first = 5; responses = one_name ∷ [] }

abbrev names : Asked
names = record { first = 6; responses = one_name ∷ [] }

query_lem_example :
    Hears
      (Within 1 (λ k. EndsWithTable (recovers k).responses))
      (EndsWithTable names.responses)
      (tables names.responses)
      (query 2 1 recovers (λ k. down) names (some no_connection_yet))
query_lem_example = query_lem 1 recovers (λ k. down) names no_connection_yet (omega arith) refl

recovered :
    query 2 1 recovers (λ k. down) names (some no_connection_yet)
    ≡ answered (rows ((codes "nick" ∷ []) ∷ [])) (record no_connection_yet {
      attempts = 1;
      requests_updated = 7;
      rtt = 1;
      count = 2;
      failed = 1;
    })
unfolding query ping retry_guard request request_rows each_result each_result_rows read_rows
    read_row reset_connect
recovered = refl

-- Two attempts fail, and the third succeeds.
abbrev third : ℕ → Login
third zero = down
third (suc zero) = down
third (suc (suc k)) = up

new_connection_lem_example :
    (s : Connection) × (new_connection 4 3 third ≡ some s)
    × (s.established ≡ any_first 4 (λ k. connects (third k)))
    × (s.attempts % u32_mod ≡ tries 4 (λ k. connects (third k)))
new_connection_lem_example = new_connection_lem 3 third (omega arith)

abbrev broken : ℕ → Asked
broken k = record { first = 5; responses = [] }

no_table : (k : ℕ) → ¬ EndsWithTable (broken k).responses
no_table k e = nothing e.before e.last e.after e.split
  where
    nothing : (xs : List Response) (y : Response) (ys : List Response) → ¬ ([] ≡ xs ++ y ∷ ys)
    nothing [] y ys h = cc h
    nothing (x ∷ xs) y ys h = cc h

ping_endless_example : ping 1000 5 broken (λ k. up) no_connection_yet ≡ none
ping_endless_example =
    ping_endless 1000 5 broken (λ k. up) no_connection_yet (omega arith) (omega arith) no_table refl

-- One connection; an insert that is accepted, one that is not, a report and a request.
abbrev events : List Event
events =
    inserts 0 3 (record { returns = true; first = 1; now = 2 })
    ∷ inserts 0 4 (record { returns = false; first = 3; now = 9 })
    ∷ gather_stats
    ∷ storage_stats
    ∷ []

abbrev new_collector : Collector
new_collector = record {
  all_irc_stats = empty;
  irc_client_channels = [];
  irc_stats = [];
  channels_stats = [];
  ch_pool_stats = [];
  disp_stats = [];
}

abbrev pool_of_one : Counted
pool_of_one = record { all = no_ch_statistics ∷ []; collector = new_collector }

run-rows_example :
    (total_rows (run events pool_of_one).0 + unread_rows (run events pool_of_one).1) % u32_mod
    ≡ (unread_rows pool_of_one + accepted_rows events) % u32_mod
run-rows_example = run-rows events pool_of_one (omega arith, (omega arith, tt))
