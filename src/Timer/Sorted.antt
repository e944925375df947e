-- ===== src/Timer/Sorted.antt =====
-- The timer's queue in the order of its keys, and a whole pass over it.
use twitch_chat_worker.Base.{
  ℕ, suc, ◌≤◌, ◌<◌, ◌≡◌, refl, sym, ap, subst, ◌∙◌, inl, inr, true, false, some, List, [], ◌∷◌,
  ◌++◌, arith, ltb, leb, Bool-cases, length, filter, All,
}
use twitch_chat_worker.Base.Key.{text_key, number_key, int_key}
use twitch_chat_worker.Base.Fault.{OnSome}
use twitch_chat_worker.Timer.{Entry, Queue, insert, again, pass, set_timer, set_interval}
use twitch_chat_worker.Timer.Pass.{
  AllDue, AllLater, put_again, functions, run_due-lem, insert-AllLater,
}

abbrev pub IsSorted : Queue → Type 0
IsSorted [] = Unit
IsSorted (e ∷ q) = All (λ f. e.key ≤ f.key) q × IsSorted q

abbrev pub due_of : ℕ → Queue → Queue
due_of now q = filter (λ e. leb e.key now) q

abbrev pub later_of : ℕ → Queue → Queue
later_of now q = filter (λ e. ltb now e.key) q

due_of-AllDue : (now : ℕ) (q : Queue) → AllDue now (due_of now q)
due_of-AllDue now [] = tt
due_of-AllDue now (e ∷ q) = elim (Bool-cases (leb e.key now)) [
  | inl h ↦ rw (h) (ground (arith, h), due_of-AllDue now q)
  | inr h ↦ rw (h) (due_of-AllDue now q)
]

later_of-AllLater : (now : ℕ) (q : Queue) → AllLater now (later_of now q)
later_of-AllLater now [] = tt
later_of-AllLater now (e ∷ q) = elim (Bool-cases (ltb now e.key)) [
  | inl h ↦ rw (h) (ground (arith, h), later_of-AllLater now q)
  | inr h ↦ rw (h) (later_of-AllLater now q)
]

length-due_of : (now : ℕ) (q : Queue) → length (due_of now q) ≤ length q
length-due_of now [] = omega arith
length-due_of now (e ∷ q) = ground (arith, length-due_of now q)

-- Behind an entry that is later, none is due.
none_due :
    (now k : ℕ) (q : Queue)
    → now < k
    → All (λ f. k ≤ f.key) q
    → (due_of now q ≡ []) × (later_of now q ≡ q)
none_due now k [] h l = (refl, refl)
none_due now k (e ∷ q) h (p, l) =
    let rest = none_due now k q h l in
    let late : leb e.key now ≡ false = ground (arith, h, p) in
    let later : ltb now e.key ≡ true = ground (arith, h, p) in
    (rw (late) rest.0, rw (later) (ap (◌∷◌ e) rest.1))

due_of-later_of : (now : ℕ) (q : Queue) → IsSorted q → due_of now q ++ later_of now q ≡ q
due_of-later_of now [] h = refl
due_of-later_of now (e ∷ q) (l, h) = elim (Bool-cases (leb e.key now)) [
  | inl d ↦
      let soon : ltb now e.key ≡ false = ground (arith, d) in
      rw (d, soon) (ap (◌∷◌ e) (due_of-later_of now q h))
  | inr d ↦
      let late : ltb now e.key ≡ true = ground (arith, d) in
      let rest = none_due now e.key q (ground (arith, d)) l in rw (d, late, rest.0, rest.1) refl
]

-- On a queue in order, a pass ends after at most one round for each entry and one more. It calls
-- the functions of the entries that are due, each once and in the order of their keys, drops these
-- entries, and puts the repeating ones in again at `now + repeat`; all others stay.
pub pass_lem :
    (now : ℕ) (q : Queue)
    → IsSorted q
    → pass (suc (length q)) now q
      ≡ some (functions (due_of now q), put_again now (due_of now q) (later_of now q))
pass_lem now q h =
    ap (pass (suc (length q)) now) (sym (due_of-later_of now q h))
    ∙ run_due-lem (length q) now (due_of now q) (length-due_of now q) (due_of-AllDue now q)
        (later_of now q) (later_of-AllLater now q)

insert-All :
    (k : ℕ) (x : Entry) (q : Queue)
    → k ≤ x.key
    → All (λ f. k ≤ f.key) q
    → All (λ f. k ≤ f.key) (insert x q)
unfolding insert
insert-All k x [] h l = (h, tt)
insert-All k x (y ∷ q) h (p, l) = elim (Bool-cases (leb y.key x.key)) [
  | inl e ↦ rw (e) (p, insert-All k x q h l)
  | inr e ↦ rw (e) (h, (p, l))
]

All-le : (k m : ℕ) (q : Queue) → k ≤ m → All (λ f. m ≤ f.key) q → All (λ f. k ≤ f.key) q
All-le k m [] h l = tt
All-le k m (e ∷ q) h (p, l) = (omega (arith, h, p), All-le k m q h l)

pub insert-IsSorted : (x : Entry) (q : Queue) → IsSorted q → IsSorted (insert x q)
unfolding insert
insert-IsSorted x [] h = (tt, tt)
insert-IsSorted x (y ∷ q) (l, h) = elim (Bool-cases (leb y.key x.key)) [
  | inl e ↦ rw (e) (insert-All y.key x q (ground (arith, e)) l, insert-IsSorted x q h)
  | inr e ↦
      let before : x.key ≤ y.key = ground (arith, e) in
      rw (e) ((before, All-le x.key y.key q before l), (l, h))
]

later_of-IsSorted : (now : ℕ) (q : Queue) → IsSorted q → IsSorted (later_of now q)
later_of-IsSorted now [] h = tt
later_of-IsSorted now (e ∷ q) (l, h) = elim (Bool-cases (ltb now e.key)) [
  | inl d ↦ rw (d, (none_due now e.key q (ground (arith, d)) l).1) (l, h)
  | inr d ↦ rw (d) (later_of-IsSorted now q h)
]

put_again-kept :
    (now : ℕ) (due q : Queue)
    → IsSorted q
    → AllLater now q
    → IsSorted (put_again now due q) × AllLater now (put_again now due q)
put_again-kept now [] q h l = (h, l)
put_again-kept now (e ∷ due) q h l = elim (Bool-cases (ltb 0 e.repeat)) [
  | inl r ↦
      let later : now < (again now e).key = ground (arith, r) in
      rw (r) (
        put_again-kept now due (insert (again now e) q) (insert-IsSorted (again now e) q h)
          (insert-AllLater now (again now e) q later l))
  | inr r ↦ rw (r) (put_again-kept now due q h l)
]

-- The queue of a timer: entries are set and passes are made, each in turn.
pub data Reached : Queue → Type 0 where
  fresh : Reached []
  timer :
      {q : Queue} (function timestamp : ℕ) → Reached q → Reached (set_timer function timestamp q)
  interval :
      {q : Queue} (now function every : ℕ) → Reached q → Reached (set_interval now function every q)
  passed :
      {q q' : Queue} (now : ℕ) (calls : List ℕ)
      → Reached q
      → pass (suc (length q)) now q ≡ some (calls, q')
      → Reached q'

-- After a pass over a queue in order the queue is in order and nothing in it is due.
pub pass-IsSorted :
    (now : ℕ) (q q' : Queue) (calls : List ℕ)
    → IsSorted q
    → pass (suc (length q)) now q ≡ some (calls, q')
    → IsSorted q' × AllLater now q'
pass-IsSorted now q q' calls h e =
    subst (OnSome (λ r. IsSorted r.1 × AllLater now r.1)) (sym (pass_lem now q h) ∙ e) (
      put_again-kept now (due_of now q) (later_of now q) (later_of-IsSorted now q h)
        (later_of-AllLater now q))

-- However timers and intervals are set and passes made, the queue is in the order of its keys.
pub Reached-IsSorted : (q : Queue) → Reached q → IsSorted q
unfolding set_timer set_interval
Reached-IsSorted q fresh = tt
Reached-IsSorted q (timer function timestamp r) = insert-IsSorted _ _ (Reached-IsSorted _ r)
Reached-IsSorted q (interval now function every r) = insert-IsSorted _ _ (Reached-IsSorted _ r)
Reached-IsSorted q (passed now calls r e) = (pass-IsSorted now _ q calls (Reached-IsSorted _ r) e).0
