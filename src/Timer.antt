-- ===== src/Timer.antt =====
-- common/Timer.h and .cpp: functions that are called at a time or again and again. A function is a
-- number, and what it does is not modelled; times do not wrap.
pub mod Pass
pub mod Sorted
-- An entry of `queue`: its key, and the function with its interval.
use twitch_chat_worker.Base.{
  ℕ, zero, suc, ◌+◌, ◌-◌, ◌*◌, ◌/◌, ◌%◌, ◌^◌, ◌≤◌, ◌<◌, ◌≡◌, refl, sym, ap, ap₂, subst, ◌∙◌, ◌≢◌,
  ◌↔◌, ◌⊎◌, inl, inr, Bool, true, false, ◌&&◌, ◌||◌, not, Option, none, some, List, [], ◌∷◌, ◌++◌,
  map, append-nil, append_assoc, arith, u32_mod, ltb, leb, eqb, if◌then◌else◌, Bool-cases, eqb_iff,
  length, get_elem?, filter, All, All-append,
}
use twitch_chat_worker.Base.Key.{Text, codes, text_key, number_key, int_key, ◌==◌, eq_iff, eq_refl}
use twitch_chat_worker.Base.Int.{ℤ, pos, negsuc}
use twitch_chat_worker.Base.Dict.{
  Dict, lookup, has, insert_at, emplace, update, erase, lookup-emplace, lookup-update, lookup-erase,
  value_or, lookup-update-emplace,
}
use twitch_chat_worker.Base.Fault.{◌>>=◌, OnSome, OnSome-bind, OnSome-any, OnSome-map}

pub record Entry : Type 0 where
  pub key : ℕ
  pub function : ℕ
  -- 0 for any interval that is not positive
  pub repeat : ℕ

-- `std::multimap`, in the order of the keys.
abbrev pub Queue : Type 0
Queue = List Entry

-- Behind all entries with a key that is not greater.
unfoldable pub insert : Entry → Queue → Queue
insert x [] = x ∷ []
insert x (y ∷ ys) = let rest = insert x ys in if leb y.key x.key then y ∷ rest else x ∷ y ∷ ys

unfoldable pub set_timer : ℕ → ℕ → Queue → Queue
set_timer function timestamp queue =
    insert (record { key = timestamp; function = function; repeat = 0 }) queue

abbrev pub set_timeout : ℕ → ℕ → ℕ → Queue → Queue
set_timeout now function delay queue = set_timer function (now + delay) queue

-- The interval is kept in an `int`.
abbrev pub repeat_of : ℕ → ℕ
repeat_of interval = if ltb (interval % u32_mod) (2 ^ 31) then interval % u32_mod else 0

unfoldable pub set_interval : ℕ → ℕ → ℕ → Queue → Queue
set_interval now function interval queue =
    insert (record { key = now + interval; function = function; repeat = repeat_of interval }) queue

-- `extract` and `insert` under the key `now + repeat`, of what stands before the iterator `next`
-- and of what stands from it on.
unfoldable pub place : Entry → Queue → Queue → Queue × Queue
place x before [] = (insert x before, [])
place x before (next ∷ after) =
    if leb next.key x.key then (before, next ∷ insert x after) else (insert x before, next ∷ after)

abbrev pub again : ℕ → Entry → Entry
again now e = record e { key = now + e.repeat }

-- The entry at the iterator, once its function has been called.
unfoldable pub after_call : ℕ → Entry → Queue → Queue → Queue × Queue
unfolding place
after_call now e before after =
    if ltb 0 e.repeat then place (again now e) before after else (before, after)

-- The inner loop of `run`, on rounds: the functions that are called, and the queue.
unfoldable pub run_due : ℕ → ℕ → Queue → Queue → Option (List ℕ × Queue)
run_due zero now before after = none
run_due (suc rounds) now before [] = some ([], before)
run_due (suc rounds) now before (e ∷ after) =
    let left = after_call now e before after in
    let rest = run_due rounds now left.0 left.1 in
    if ltb now e.key
    then some ([], before ++ e ∷ after)
    else (rest >>= λ r. some (e.function ∷ r.0, r.1))

-- A pass over the whole queue.
abbrev pub pass : ℕ → ℕ → Queue → Option (List ℕ × Queue)
pass rounds now queue = run_due rounds now [] queue
