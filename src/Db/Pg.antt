-- ===== src/Db/Pg.antt =====
-- db/pg/PGConnection.h and PGConnection.cpp: a connection to PostgreSQL. What libpq and the clock
-- answer comes with each call, as the answers in the order in which they are asked for.
pub mod Verdicts
pub mod Requests
pub mod Attempts
pub mod Retries
use twitch_chat_worker.Base.{
  ℕ, zero, suc, ◌+◌, ◌-◌, ◌*◌, ◌/◌, ◌%◌, ◌^◌, ◌≤◌, ◌<◌, ◌≡◌, refl, sym, ap, ap₂, subst, ◌∙◌, ◌≢◌,
  ◌↔◌, ◌⊎◌, inl, inr, Bool, true, false, ◌&&◌, ◌||◌, not, Option, none, some, List, [], ◌∷◌, ◌++◌,
  map, append-nil, append_assoc, arith, u32_mod, add32, ltb, leb, eqb, if◌then◌else◌, Bool-cases,
  eqb_iff, length, get_elem?, take, filter, All, All-append,
}
use twitch_chat_worker.Base.Key.{Text, codes, text_key, number_key, int_key, ◌==◌, eq_iff, eq_refl}
use twitch_chat_worker.Base.Int.{ℤ, pos, negsuc}
use twitch_chat_worker.Base.Dict.{
  Dict, lookup, has, insert_at, emplace, update, erase, lookup-emplace, lookup-update, lookup-erase,
  value_or, lookup-update-emplace,
}
use twitch_chat_worker.Base.Fault.{◌>>=◌, OnSome, OnSome-bind, OnSome-any, OnSome-map}
use twitch_chat_worker.Base

-- `PGresult`, with the `PQresultStatus` that the code tells apart.
pub data Status : Type 0 where
  tuples_ok fatal_error other_status : Status

pub record Response : Type 0 where
  pub status : Status
  pub ntuples : ℕ
  pub nfields : ℕ
  -- `PQgetvalue`, of the length that `PQgetlength` gives
  pub value : ℕ → ℕ → Text
  -- the clock when the result came
  pub now : ℕ

-- What `resetConnect` gets to hear.
pub record Login : Type 0 where
  -- `PQstatus(conn) == CONNECTION_OK`
  pub status_ok : Bool
  -- `PQsetnonblocking(conn, 1) == 0`
  pub made_nonblocking : Bool
  pub now : ℕ

-- `established` and `stats`
pub record Connection : Type 0 where
  pub established : Bool
  pub connects_updated : ℕ
  pub attempts : ℕ
  pub requests_updated : ℕ
  pub rtt : ℕ
  pub count : ℕ
  pub failed : ℕ

abbrev pub no_connection_yet : Connection
no_connection_yet = record {
  established = false;
  connects_updated = 0;
  attempts = 0;
  requests_updated = 0;
  rtt = 0;
  count = 0;
  failed = 0;
}

-- A `long long` difference put into an `unsigned int`.
abbrev pub since : ℕ → ℕ → ℕ
since first now = (now + u32_mod - first % u32_mod) % u32_mod

-- `stats.requests.rtt` and `updated`, for each result.
abbrev pub timed : ℕ → Response → Connection → Connection
timed first resp s = record s { rtt = since first resp.now; requests_updated = resp.now }

-- The status of one result: what `success` becomes, and the count of failures.
abbrev pub judge : Status → Bool × Connection → Bool × Connection
judge tuples_ok (success, s) = (true, s)
judge fatal_error (success, s) = (false, record s { failed = add32 s.failed 1 })
judge other_status (success, s) = (success, s)

-- The loop over `PQgetResult`.
unfoldable pub each_result : ℕ → List Response → Bool × Connection → Bool × Connection
each_result first [] r = r
each_result first (resp ∷ resps) (success, s) =
    each_result first resps (judge resp.status (success, timed first resp s))

-- `request(request)`
unfoldable pub request : ℕ → List Response → Connection → Bool × Connection
unfolding each_result
request first resps s =
    let (success, s) = each_result first resps (false, s) in
    (success, record s { count = add32 s.count 1 })

-- `row`, from column `j` on, when `n` columns are left.
unfoldable pub read_row : Response → ℕ → ℕ → ℕ → List Text
read_row resp i zero j = []
read_row resp i (suc n) j = resp.value i j ∷ read_row resp i n (j + 1)

-- The rows from `i` on, when `n` are left.
unfoldable pub read_rows : Response → ℕ → ℕ → List (List Text)
unfolding read_row
read_rows resp zero i = []
read_rows resp (suc n) i = read_row resp i resp.nfields 0 ∷ read_rows resp n (i + 1)

-- What a result appends to `result`.
abbrev pub rows_in : Response → Status → List (List Text)
rows_in resp tuples_ok = read_rows resp resp.ntuples 0
rows_in resp fatal_error = []
rows_in resp other_status = []

unfoldable pub each_result_rows :
    ℕ → List Response → List (List Text) → Bool × Connection → List (List Text) × Bool × Connection
unfolding read_rows
each_result_rows first [] result (success, s) = (result, success, s)
each_result_rows first (resp ∷ resps) result (success, s) =
    each_result_rows first resps (result ++ rows_in resp resp.status)
      (judge resp.status (success, timed first resp s))

-- `request(request, result)`
unfoldable pub request_rows :
    ℕ → List Response → List (List Text) → Connection → List (List Text) × Bool × Connection
unfolding each_result_rows
request_rows first resps result s = each_result_rows first resps result (false, s)

-- `resetConnect`
unfoldable pub reset_connect : Login → Connection → Bool × Connection
reset_connect login s =
    let counted = record s { attempts = add32 s.attempts 1 } in
    if not login.status_ok && not login.made_nonblocking
    then (false, counted)
    else (true, record counted { connects_updated = login.now })

-- What is answered from the second round on.
abbrev pub later {ℓ} : {A : Type ℓ} → (ℕ → A) → ℕ → A
later answers k = answers (suc k)

-- The loop of the constructor, on fuel: `i` wraps.
unfoldable pub connect : ℕ → ℕ → (ℕ → Login) → ℕ → Connection → Option Connection
connect zero retries logins i s = none
connect (suc fuel) retries logins i s =
    let (good, s) = reset_connect (logins 0) s in
    elim good [
      | true ↦ some (record s { established = true })
      | false ↦ elim (ltb retries (add32 i 1)) [
        | true ↦ some s
        | false ↦ connect fuel retries (later logins) (add32 i 1) s
      ]
    ]

unfoldable pub new_connection : ℕ → ℕ → (ℕ → Login) → Option Connection
new_connection fuel retries logins = connect fuel retries logins 0 no_connection_yet

-- `retryGuard`, on fuel: the call of a round, and the login that answers its reset.
unfoldable pub retry_guard :
    ℕ
    → ℕ
    → (ℕ → Connection → Bool × Connection)
    → (ℕ → Login)
    → ℕ
    → Connection
    → Option (Bool × Connection)
retry_guard zero retries func logins i s = none
retry_guard (suc fuel) retries func logins i s =
    let (good, s) = func 0 s in
    elim good [
      | true ↦ some (true, s)
      | false ↦
          let (connected, s) = reset_connect (logins 0) s in
          elim (not connected && eqb i retries) [
            | true ↦ some (false, s)
            | false ↦ retry_guard fuel retries (later func) (later logins) (add32 i 1) s
          ]
    ]

-- The answers of a round of `ping`: when it asks, and the results.
pub record Asked : Type 0 where
  pub first : ℕ
  pub responses : List Response

unfoldable pub ping : ℕ → ℕ → (ℕ → Asked) → (ℕ → Login) → Connection → Option (Bool × Connection)
ping fuel retries asked logins s =
    retry_guard fuel retries (λ k. request (asked k).first (asked k).responses) logins 0 s
