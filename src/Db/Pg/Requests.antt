-- ===== src/Db/Pg/Requests.antt =====
-- PGConnection::request: what the two overloads make of the results of a query.
use twitch_chat_worker.Base.{
  ℕ, zero, suc, ◌+◌, ◌%◌, ◌≡◌, refl, ap, ◌∙◌, ◌↔◌, Bool, true, false, List, [], ◌∷◌, ◌++◌, map,
  append-nil, append_assoc, arith, u32_mod, add32,
}
use twitch_chat_worker.Base.Key.{Text, text_key, number_key, int_key}
use twitch_chat_worker.Db.Pg.{
  Status, tuples_ok, fatal_error, other_status, Response, Connection, timed, judge, each_result,
  request, read_row, read_rows, rows_in, each_result_rows, request_rows,
}
use twitch_chat_worker.Db.Pg.Verdicts.{EndsWithTable, request_iff}

-- i, i + 1, ...
abbrev pub range_from : ℕ → ℕ → List ℕ
range_from i zero = []
range_from i (suc n) = i ∷ range_from (i + 1) n

-- The table that a result stands for.
abbrev pub table : Response → List (List Text)
table resp = map (λ i. map (resp.value i) (range_from 0 resp.nfields)) (range_from 0 resp.ntuples)

abbrev pub table_of : Status → Response → List (List Text)
table_of tuples_ok resp = table resp
table_of fatal_error resp = []
table_of other_status resp = []

abbrev pub tables : List Response → List (List Text)
tables [] = []
tables (resp ∷ resps) = table_of resp.status resp ++ tables resps

abbrev pub fatal : Status → ℕ
fatal fatal_error = 1
fatal tuples_ok = 0
fatal other_status = 0

abbrev pub fatals : List Response → ℕ
fatals [] = 0
fatals (resp ∷ resps) = fatal resp.status + fatals resps

read_row_lem :
    (resp : Response) (i n j : ℕ) → read_row resp i n j ≡ map (resp.value i) (range_from j n)
unfolding read_row
read_row_lem resp i zero j = refl
read_row_lem resp i (suc n) j = rw (read_row_lem resp i n (j + 1)) refl

read_rows_lem :
    (resp : Response) (n i : ℕ)
    → read_rows resp n i
      ≡ map (λ k. map (resp.value k) (range_from 0 resp.nfields)) (range_from i n)
unfolding read_rows
read_rows_lem resp zero i = refl
read_rows_lem resp (suc n) i =
    rw (read_rows_lem resp n (i + 1), read_row_lem resp i resp.nfields 0) refl

rows_in_lem : (resp : Response) (status : Status) → rows_in resp status ≡ table_of status resp
rows_in_lem resp tuples_ok = read_rows_lem resp resp.ntuples 0
rows_in_lem resp fatal_error = refl
rows_in_lem resp other_status = refl

-- The rows are added to what the vector holds, and all else is as in the other overload.
each_result_rows_lem :
    (first : ℕ) (resps : List Response) (result : List (List Text)) (r : Bool × Connection)
    → each_result_rows first resps result r
      ≡ (result ++ tables resps, (each_result first resps r).0, (each_result first resps r).1)
unfolding each_result_rows each_result
each_result_rows_lem first [] result r = rw (append-nil result) refl
each_result_rows_lem first (resp ∷ resps) result r =
    rw
      (
        each_result_rows_lem first resps (result ++ rows_in resp resp.status)
            (judge resp.status (r.0, timed first resp r.1)),
        rows_in_lem resp resp.status,
        append_assoc result (table_of resp.status resp) (tables resps),
      )
      refl

judge_failed :
    (status : Status) (success : Bool) (s : Connection)
    → (judge status (success, s)).1.failed % u32_mod ≡ (s.failed + fatal status) % u32_mod
judge_failed tuples_ok success s = omega arith
judge_failed fatal_error success s = omega arith
judge_failed other_status success s = omega arith

judge_count : (status : Status) (r : Bool × Connection) → (judge status r).1.count ≡ r.1.count
judge_count tuples_ok r = refl
judge_count fatal_error r = refl
judge_count other_status r = refl

each_result_stats :
    (first : ℕ) (resps : List Response) (r : Bool × Connection)
    → ((each_result first resps r).1.count ≡ r.1.count)
      × ((each_result first resps r).1.failed % u32_mod ≡ (r.1.failed + fatals resps) % u32_mod)
unfolding each_result
each_result_stats first [] r = (refl, omega arith)
each_result_stats first (resp ∷ resps) r =
    let next = judge resp.status (r.0, timed first resp r.1) in
    let (counted, errors) = each_result_stats first resps next in
    let here = judge_failed resp.status r.0 (timed first resp r.1) in
    (counted ∙ judge_count resp.status (r.0, timed first resp r.1), omega (arith, errors, here))

request-stats :
    (first : ℕ) (resps : List Response) (s : Connection)
    → ((request first resps s).1.count ≡ add32 s.count 1)
      × ((request first resps s).1.failed % u32_mod ≡ (s.failed + fatals resps) % u32_mod)
unfolding request
request-stats first resps s =
    let (counted, errors) = each_result_stats first resps (false, s) in
    (ap (λ n. add32 n 1) counted, errors)

request_rows-request :
    (first : ℕ) (resps : List Response) (result : List (List Text)) (s : Connection)
    → request_rows first resps result s ≡ (
      result ++ tables resps,
      (request first resps s).0,
      record (request first resps s).1 { count = s.count },
    )
unfolding request_rows request
request_rows-request first resps result s =
    each_result_rows_lem first resps result (false, s)
    ∙ ap
        (λ n. (
          result ++ tables resps,
          (each_result first resps (false, s)).0,
          record (each_result first resps (false, s)).1 { count = n },
        ))
        (each_result_stats first resps (false, s)).0

-- The rows of all tables are added to what the vector holds, a request succeeds exactly if its last
-- table or error is a table, errors are counted, and the request without rows does the same and
-- counts itself.
pub request_rows_lem :
    (first : ℕ) (resps : List Response) (result : List (List Text)) (s : Connection)
    → let (res, success, s') = request_rows first resps result s in
      (res ≡ result ++ tables resps)
      × ((success ≡ true) ↔ EndsWithTable resps)
      × ((request first resps s).0 ≡ success)
      × (s'.failed % u32_mod ≡ (s.failed + fatals resps) % u32_mod)
      × ((request first resps s).1 ≡ record s' { count = add32 s.count 1 })
request_rows_lem first resps result s =
    let (counted, errors) = request-stats first resps s in
    rw (request_rows-request first resps result s) (
      refl,
      request_iff first resps s,
      refl,
      errors,
      ap (λ n. record (request first resps s).1 { count = n }) counted,
    )
