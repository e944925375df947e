-- ===== src/DbController/Queries.antt =====
-- DBController.cpp: how each load asks the data base, which gives the reply that it reads.
use twitch_chat_worker.Base.{
  ℕ, ◌+◌, ◌<◌, ◌≡◌, refl, ◌↔◌, Bool, true, false, Option, none, some, List, [], u32_mod,
}
use twitch_chat_worker.Base.Key.{Text, text_key, number_key, int_key}
use twitch_chat_worker.DbController.{Reply, no_connection, failed, rows}
use twitch_chat_worker.Db.Pg.{Login, Connection, Asked, request_rows, ping}
use twitch_chat_worker.Db.Pg.Verdicts.{EndsWithTable, false≢true}
use twitch_chat_worker.Db.Pg.Requests.{tables, request_rows_lem}
use twitch_chat_worker.Db.Pg.Attempts.{IsRefused}
use twitch_chat_worker.Db.Pg.Retries.{Within, ping_returns}

-- What the lock gives is called without a test: a null pointer. A ping may still be running.
pub data Query : Type 0 where
  null_pointer running : Query
  answered : Reply → Connection → Query

abbrev pub after_request : List (List Text) × Bool × Connection → Query
after_request (res, true, s) = answered (rows res) s
after_request (res, false, s) = answered failed s

abbrev pub after_ping : Asked → Option (Bool × Connection) → Query
after_ping request none = running
after_ping request (some (true, s)) =
    after_request (request_rows request.first request.responses [] s)
after_ping request (some (false, s)) = answered no_connection s

-- `dbl->ping()`, then `dbl->request(request, res)`
unfoldable pub query : ℕ → ℕ → (ℕ → Asked) → (ℕ → Login) → Asked → Option Connection → Query
query fuel retries asked logins request none = null_pointer
query fuel retries asked logins request (some s) =
    after_ping request (ping fuel retries asked logins s)

-- What a load must hear, by what the server answers.
pub data Heard (reached done : Type 0) (res : List (List Text)) : Reply → Type 0 where
  unreached : ¬ reached → Heard reached done res no_connection
  refused : reached → ¬ done → Heard reached done res failed
  served : reached → done → Heard reached done res (rows res)

abbrev pub Hears : Type 0 → Type 0 → List (List Text) → Query → Type 0
Hears reached done res q =
    (reply : Reply) × (s : Connection) × (q ≡ answered reply s) × Heard reached done res reply

after_request-Hears :
    (r : List (List Text) × Bool × Connection) (res : List (List Text)) (reached done : Type 0)
    → reached
    → r.0 ≡ res
    → (r.1 ≡ true) ↔ done
    → Hears reached done res (after_request r)
after_request-Hears (got, true, s) res reached done p e d =
    (rows got, s, refl, rw (e) (served p (d.0 refl)))
after_request-Hears (got, false, s) res reached done p e d =
    (failed, s, refl, refused p (λ h. false≢true (d.1 h)))

after_ping-Hears :
    (request : Asked) (r : Bool × Connection) (reached : Type 0)
    → (r.0 ≡ true) ↔ reached
    → Hears reached
        (EndsWithTable request.responses)
        (tables request.responses)
        (after_ping request (some r))
after_ping-Hears request (false, s) reached h =
    (no_connection, s, refl, unreached (λ p. false≢true (h.1 p)))
after_ping-Hears request (true, s) reached h =
    let (res, ends, _, _, _) = request_rows_lem request.first request.responses [] s in
    after_request-Hears (request_rows request.first request.responses [] s)
      (tables request.responses) reached (EndsWithTable request.responses) (h.0 refl) res ends

-- When the server refuses the reset in the round whose number is the number of retries, a number
-- below 2^32, the ping of a load ends within one round more than the retries, and the load reads
-- no_connection if none of these rounds gets an answer that ends with a table, the rows of all
-- tables if a round does and the answer to its own request ends with a table, and failed
-- otherwise.
pub query_lem :
    (retries : ℕ) (asked : ℕ → Asked) (logins : ℕ → Login) (request : Asked) (s : Connection)
    → retries < u32_mod
    → IsRefused (logins retries)
    → Hears
        (Within retries (λ k. EndsWithTable (asked k).responses))
        (EndsWithTable request.responses)
        (tables request.responses)
        (query (retries + 1) retries asked logins request (some s))
unfolding query
query_lem retries asked logins request s small down =
    let (r, runs, told) = ping_returns retries asked logins s small down in
    rw (runs)
      (after_ping-Hears request r (Within retries (λ k. EndsWithTable (asked k).responses)) told)
