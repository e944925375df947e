-- ===== src/Timer/Pass.antt =====
-- A pass of the timer's loop: what is called, and what is left.
use twitch_chat_worker.Base.{
  ℕ, zero, suc, ◌+◌, ◌≤◌, ◌<◌, ◌≡◌, refl, ap, ◌∙◌, inl, inr, true, false, Option, some, List, [],
  ◌∷◌, ◌++◌, append-nil, arith, ltb, leb, if◌then◌else◌, Bool-cases, length, All,
}
use twitch_chat_worker.Base.Key.{text_key, number_key, int_key}
use twitch_chat_worker.Base.Fault.{◌>>=◌}
use twitch_chat_worker.Timer.{Entry, Queue, insert, place, again, after_call, run_due}

abbrev pub AllDue : ℕ → Queue → Type 0
AllDue now q = All (λ e. e.key ≤ now) q

abbrev pub AllLater : ℕ → Queue → Type 0
AllLater now q = All (λ e. now < e.key) q

-- The repeating ones of the entries that were due, put in under `now` and their interval.
abbrev pub put_again : ℕ → Queue → Queue → Queue
put_again now [] queue = queue
put_again now (e ∷ due) queue = put_again now due (
    if ltb 0 e.repeat
    then insert (record { key = now + e.repeat; function = e.function; repeat = e.repeat }) queue
    else queue)

pub insert-AllLater :
    (now : ℕ) (x : Entry) (q : Queue) → now < x.key → AllLater now q → AllLater now (insert x q)
unfolding insert
insert-AllLater now x [] h l = (h, tt)
insert-AllLater now x (y ∷ q) h (p, l) = elim (Bool-cases (leb y.key x.key)) [
  | inl e ↦ rw (e) (p, insert-AllLater now x q h l)
  | inr e ↦ rw (e) (h, (p, l))
]

-- A later entry goes behind all that are due.
insert-append :
    (now : ℕ) (x : Entry) (due q : Queue)
    → now < x.key
    → AllDue now due
    → insert x (due ++ q) ≡ due ++ insert x q
unfolding insert
insert-append now x [] q h d = refl
insert-append now x (y ∷ due) q h (p, d) =
    let passed : leb y.key x.key ≡ true = ground (arith, h, p) in
    rw (passed, insert-append now x due q h d)

-- While nothing is due any more, the iterator may stand behind a new entry.
run_due-later :
    (rounds now : ℕ) (before after : Queue)
    → AllLater now after
    → run_due (suc rounds) now before after ≡ some ([], before ++ after)
unfolding run_due
run_due-later rounds now before [] l = rw (append-nil before)
run_due-later rounds now before (e ∷ after) (p, l) =
    let stops : ltb now e.key ≡ true = ground (arith, p) in rw (stops)

abbrev pub functions : Queue → List ℕ
functions [] = []
functions (e ∷ q) = e.function ∷ functions q

run_due-step :
    (rounds now : ℕ) (e : Entry) (before after : Queue)
    → e.key ≤ now
    → run_due (suc rounds) now before (e ∷ after) ≡ (
        run_due rounds now (after_call now e before after).0 (after_call now e before after).1
        >>= λ r. some (e.function ∷ r.0, r.1))
unfolding run_due
run_due-step rounds now e before after h =
    let goes_on : ltb now e.key ≡ false = ground (arith, h) in rw (goes_on)

place-later :
    (now : ℕ) (x : Entry) (later : Queue)
    → now < x.key
    → AllLater now later
    → AllLater now (place x [] later).1
      × ((place x [] later).0 ++ (place x [] later).1 ≡ insert x later)
unfolding place insert
place-later now x [] h l = (tt, refl)
place-later now x (y ∷ q) h (p, l) = elim (Bool-cases (leb y.key x.key)) [
  | inl e ↦ rw (e) ((p, insert-AllLater now x q h l), refl)
  | inr e ↦ rw (e) ((p, l), refl)
]

place-due :
    (now : ℕ) (x d : Entry) (due later : Queue)
    → now < x.key
    → AllDue now (d ∷ due)
    → place x [] (d ∷ due ++ later) ≡ ([], d ∷ due ++ insert x later)
unfolding place
place-due now x d due later h (p, ds) =
    let passed : leb d.key x.key ≡ true = ground (arith, h, p) in
    rw (passed, insert-append now x due later h ds)

-- With the functions of the entries that are due called, and the rest of the queue.
abbrev pub called : Queue → Queue → Option (List ℕ × Queue)
called due queue = some (functions due, queue)

abbrev pub PassesOver : ℕ → ℕ → Queue → Type 0
PassesOver rounds now due =
    (q : Queue)
    → AllLater now q
    → run_due rounds now [] (due ++ q) ≡ called due (put_again now due q)

-- Once more, if a pass over the other entries does what it should.
run_due-again :
    (rounds now : ℕ) (x : Entry) (due later : Queue)
    → now < x.key
    → AllDue now due
    → AllLater now later
    → ((q : Queue)
        → AllLater now q
        → run_due (suc rounds) now [] (due ++ q) ≡ called due (put_again now due q))
    → run_due (suc rounds) now (place x [] (due ++ later)).0 (place x [] (due ++ later)).1
      ≡ called due (put_again now due (insert x later))
run_due-again rounds now x [] later h d l ih =
    let split = place-later now x later h l in
    run_due-later rounds now (place x [] later).0 (place x [] later).1 split.0
    ∙ ap (called []) split.1
run_due-again rounds now x (d ∷ due) later h ds l ih =
    rw (place-due now x d due later h ds) (ih (insert x later) (insert-AllLater now x later h l))

run_due-call :
    (rounds now : ℕ) (e : Entry) (due later : Queue)
    → AllDue now due
    → AllLater now later
    → PassesOver (suc rounds) now due
    → (run_due
          (suc rounds)
          now
          (after_call now e [] (due ++ later)).0
          (after_call now e [] (due ++ later)).1
        >>= λ r. some (e.function ∷ r.0, r.1))
      ≡ called (e ∷ due) (put_again now (e ∷ due) later)
unfolding after_call run_due insert
run_due-call rounds now e due later d l ih = elim (Bool-cases (ltb 0 e.repeat)) [
  | inl f ↦
      let after : now < (again now e).key = ground (arith, f) in
      rw (f, after_call, run_due-again rounds now (again now e) due later after d l ih) refl
  | inr f ↦ rw (f, after_call, ih later l) refl
]

pub run_due-lem :
    (rounds now : ℕ) (due : Queue)
    → length due ≤ rounds
    → AllDue now due
    → PassesOver (suc rounds) now due
run_due-lem rounds now [] n d later l = run_due-later rounds now [] later l
run_due-lem zero now (e ∷ due) n d later l = absurd (omega arith)
run_due-lem (suc rounds) now (e ∷ due) n (p, d) later l =
    run_due-step (suc rounds) now e [] (due ++ later) p
    ∙ run_due-call rounds now e due later d l (run_due-lem rounds now due (omega (arith, n)) d)
