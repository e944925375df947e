-- ===== src/Stats/Inserts.antt =====
-- Storage::evtGatherStats and StatsCollector::evtCHPoolMetric, evtHttpStorageStats: how what the
-- ClickHouse connections count gets into the answers.
use twitch_chat_worker.Base.{
  ℕ, zero, suc, ◌+◌, ◌-◌, ◌%◌, ◌≤◌, ◌<◌, ◌≡◌, refl, sym, ap, subst, List, [], ◌∷◌, ◌++◌, arith,
  u32_mod, if◌then◌else◌, length, replicate, take-all, length-append, length-replicate, max,
}
use twitch_chat_worker.Base.Key.{text_key, number_key, int_key}
use twitch_chat_worker.Db.Ch.{Insert, insert, collect_stats, insert_by}
use twitch_chat_worker.Stats.{
  ChStatistics, no_ch_statistics, add_ch, Collector, resize, add_each, evt_ch_pool_metric,
  evt_http_storage_stats,
}

-- The connections of the storage's pool, and the collector.
pub record Counted : Type 0 where
  pub all : List ChStatistics
  pub collector : Collector

-- An insert on a connection, a report, and a request for the statistics.
pub data Event : Type 0 where
  inserts : ℕ → ℕ → Insert → Event
  gather_stats storage_stats : Event

-- `evtGatherStats`, once the collector has handled the report.
unfoldable pub evt_gather_stats : Counted → Counted
evt_gather_stats s =
    let (report, left) = collect_stats s.all in
    record { all = left; collector = evt_ch_pool_metric report s.collector }

-- An event, and what is answered.
unfoldable pub step : Event → Counted → List ChStatistics × Counted
unfolding evt_http_storage_stats
step (inserts i rows answer) s = ([], record s { all = insert_by i rows answer s.all })
step gather_stats s = ([], evt_gather_stats s)
step storage_stats s =
    let (answer, collector) = evt_http_storage_stats s.collector in
    (answer, record s { collector = collector })

unfoldable pub run : List Event → Counted → List ChStatistics × Counted
unfolding step
run [] s = ([], s)
run (e ∷ es) s = let (answer, s) = step e s in let (answers, s) = run es s in (answer ++ answers, s)

-- The rows that the connections have counted, together.
abbrev pub total_rows : List ChStatistics → ℕ
total_rows [] = 0
total_rows (x ∷ xs) = x.rows + total_rows xs

-- Those that no answer has told yet.
abbrev pub unread_rows : Counted → ℕ
unread_rows s = total_rows s.all + total_rows s.collector.ch_pool_stats

abbrev accepted : Event → ℕ
accepted (inserts i rows answer) = if answer.returns then rows else 0
accepted gather_stats = 0
accepted storage_stats = 0

-- The rows of the inserts that ClickHouse has accepted.
abbrev pub accepted_rows : List Event → ℕ
accepted_rows [] = 0
accepted_rows (e ∷ es) = accepted e + accepted_rows es

-- Each insert is on a connection of the pool.
abbrev pub InPool : ℕ → List Event → Type 0
InPool n [] = Unit
InPool n (inserts i rows answer ∷ es) = (i < n) × InPool n es
InPool n (gather_stats ∷ es) = InPool n es
InPool n (storage_stats ∷ es) = InPool n es

total-append : (xs ys : List ChStatistics) → total_rows (xs ++ ys) ≡ total_rows xs + total_rows ys
total-append [] ys = omega arith
total-append (x ∷ xs) ys = omega (arith, total-append xs ys)

rows-insert_by :
    (i rows : ℕ) (answer : Insert) (all : List ChStatistics)
    → i < length all
    → total_rows (insert_by i rows answer all) % u32_mod
      ≡ (total_rows all + accepted (inserts i rows answer)) % u32_mod
unfolding insert_by insert
rows-insert_by i rows answer [] h = absurd (omega arith)
rows-insert_by zero rows answer (conn ∷ all) h = ground arith
rows-insert_by (suc i) rows answer (conn ∷ all) h =
    omega (arith, rows-insert_by i rows answer all (omega arith))

length-insert_by :
    (i rows : ℕ) (answer : Insert) (all : List ChStatistics)
    → length (insert_by i rows answer all) ≡ length all
unfolding insert_by
length-insert_by i rows answer [] = refl
length-insert_by zero rows answer (conn ∷ all) = refl
length-insert_by (suc i) rows answer (conn ∷ all) = ap suc (length-insert_by i rows answer all)

collect_stats_lem :
    (all : List ChStatistics)
    → ((collect_stats all).0 ≡ all)
      × (total_rows (collect_stats all).1 ≡ 0)
      × (length (collect_stats all).1 ≡ length all)
unfolding collect_stats
collect_stats_lem [] = (refl, refl, refl)
collect_stats_lem (conn ∷ all) =
    let (reported, zeroed, same) = collect_stats_lem all in
    (ap (◌∷◌ conn) reported, omega (arith, zeroed), ap suc same)

total-replicate : (n : ℕ) → total_rows (replicate n no_ch_statistics) ≡ 0
total-replicate zero = refl
total-replicate (suc n) = omega (arith, total-replicate n)

total-resize :
    (n : ℕ) (xs : List ChStatistics)
    → length xs ≤ n
    → total_rows (resize n no_ch_statistics xs) ≡ total_rows xs
unfolding resize
total-resize n xs h =
    rw (take-all n xs h, total-append xs (replicate (n - length xs) no_ch_statistics))
      (omega (arith, total-replicate (n - length xs)))

length-resize :
    (n : ℕ) (xs : List ChStatistics) → length xs ≤ n → length (resize n no_ch_statistics xs) ≡ n
unfolding resize
length-resize n xs h =
    rw (take-all n xs h, length-append xs (replicate (n - length xs) no_ch_statistics))
      (omega (arith, length-replicate (n - length xs) no_ch_statistics))

total-add_each :
    (xs report : List ChStatistics)
    → length report ≤ length xs
    → total_rows (add_each xs report) % u32_mod ≡ (total_rows xs + total_rows report) % u32_mod
unfolding add_each add_ch
total-add_each [] [] h = refl
total-add_each [] (y ∷ report) h = absurd (omega arith)
total-add_each (x ∷ xs) [] h = omega arith
total-add_each (x ∷ xs) (y ∷ report) h = omega (arith, total-add_each xs report (omega arith))

rows-evt_ch_pool_metric :
    (report : List ChStatistics) (c : Collector)
    → total_rows (evt_ch_pool_metric report c).ch_pool_stats % u32_mod
      ≡ (total_rows c.ch_pool_stats + total_rows report) % u32_mod
unfolding evt_ch_pool_metric
rows-evt_ch_pool_metric report c =
    let n = max (length c.ch_pool_stats) (length report) in
    let sized = length-resize n c.ch_pool_stats (omega arith) in
    let held = total-resize n c.ch_pool_stats (omega arith) in
    omega (
      arith,
      held,
      total-add_each (resize n no_ch_statistics c.ch_pool_stats) report (omega (arith, sized)),
    )

gather_stats-rows :
    (s : Counted)
    → ((0 + unread_rows (evt_gather_stats s)) % u32_mod ≡ (unread_rows s + 0) % u32_mod)
      × (length (evt_gather_stats s).all ≡ length s.all)
unfolding evt_gather_stats
gather_stats-rows s =
    let (reported, zeroed, same) = collect_stats_lem s.all in
    let told = ap total_rows reported in
    (omega (arith, told, zeroed, rows-evt_ch_pool_metric (collect_stats s.all).0 s.collector), same)

step-rows :
    (e : Event) (s : Counted)
    → InPool (length s.all) (e ∷ [])
    → ((total_rows (step e s).0 + unread_rows (step e s).1) % u32_mod
        ≡ (unread_rows s + accepted e) % u32_mod)
      × (length (step e s).1.all ≡ length s.all)
unfolding step
step-rows (inserts i rows answer) s (h, _) =
    (omega (arith, rows-insert_by i rows answer s.all h), length-insert_by i rows answer s.all)
step-rows gather_stats s _ = gather_stats-rows s
step-rows storage_stats s _ = (omega arith, refl)

InPool-cons :
    (n : ℕ) (e : Event) (es : List Event) → InPool n (e ∷ es) → InPool n (e ∷ []) × InPool n es
InPool-cons n (inserts i rows answer) es (h, hs) = ((h, tt), hs)
InPool-cons n gather_stats es hs = (tt, hs)
InPool-cons n storage_stats es hs = (tt, hs)

-- Over any sequence of insertions on connections of the pool, reports and requests, the rows that
-- the answers tell and those still unread make up, modulo 2^32, those unread before and the rows
-- of the insertions that ClickHouse accepted.
pub run-rows :
    (es : List Event) (s : Counted)
    → InPool (length s.all) es
    → (total_rows (run es s).0 + unread_rows (run es s).1) % u32_mod
      ≡ (unread_rows s + accepted_rows es) % u32_mod
unfolding run
run-rows [] s h = omega arith
run-rows (e ∷ es) s h =
    let (first, others) = InPool-cons (length s.all) e es h in
    let (kept, same) = step-rows e s first in
    let again = run-rows es (step e s).1 (subst (λ n. InPool n es) (sym same) others) in
    omega (arith, kept, again, total-append (step e s).0 (run es (step e s).1).0)
