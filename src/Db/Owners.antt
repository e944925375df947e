-- ===== src/Db/Owners.antt =====
-- Who has a connection of the pool.
use twitch_chat_worker.Base.{
  ◌<◌, copies, copies-append, ℕ, suc, ◌+◌, ◌≤◌, ◌≡◌, refl, ap, ◌∙◌, Bool, not, inl, inr, List, [],
  ◌∷◌, ◌++◌, Option, length, length-append, ◌⊎◌, eqb, if◌then◌else◌, arith,
}
use twitch_chat_worker.Db.{
  Pool, Locked, nothing, takes, take_front, lock_connection, is_empty, created, init, Step,
  lock_nothing, lock_sleeps, lock_takes, wake_sleeps, wake_takes, unlock, Steps, done, more,
}

-- How often threads hold a connection, and how often the pool has it or has lent it.
abbrev pub holders : ℕ → List (ℕ × ℕ) → ℕ
holders x [] = 0
holders x ((t, y) ∷ ys) = if eqb y x then suc (holders x ys) else holders x ys

abbrev pub owners : ℕ → Pool → ℕ
owners x s = copies x s.pool + holders x s.held

holders-append : (x : ℕ) (xs ys : List (ℕ × ℕ)) → holders x (xs ++ ys) ≡ holders x xs + holders x ys
holders-append x [] ys = omega arith
holders-append x ((t, y) ∷ xs) ys = ground (arith, holders-append x xs ys)

take_front-takes :
    (conn : ℕ) (rest pool : List ℕ) → take_front pool ≡ takes conn rest → pool ≡ conn ∷ rest
unfolding take_front
take_front-takes conn rest [] h = ground (arith, h)
take_front-takes conn rest (c ∷ cs) h = ground (arith, h)

lock_connection-takes :
    (conn : ℕ) (rest : List ℕ) (s : Pool)
    → lock_connection s ≡ takes conn rest
    → s.pool ≡ conn ∷ rest
unfolding lock_connection
lock_connection-takes conn rest s h = ground (arith, h, take_front-takes conn rest s.pool)

-- No step makes or loses a connection: a lock moves one from the queue to its thread, an unlock moves
-- it back.
pub owners-Step : (x : ℕ) (s s' : Pool) → Step s s' → owners x s' ≡ owners x s
owners-Step x _ _ (lock_nothing t s h) = refl
owners-Step x _ _ (lock_sleeps t s h) = refl
owners-Step x _ _ (lock_takes t conn rest s h) =
    ground (arith, ap (copies x) (lock_connection-takes conn rest s h))
owners-Step x _ _ (wake_sleeps t s h) = refl
owners-Step x _ _ (wake_takes t conn rest before after s h k) =
    ground (arith, ap (copies x) (take_front-takes conn rest s.pool h))
owners-Step x _ _ (unlock t conn before after s h) = ground (
  arith,
  copies-append x s.pool (conn ∷ []),
  ap (holders x) h,
  holders-append x before ((t, conn) ∷ after),
  holders-append x before after,
)

owners-Steps : (x : ℕ) (s s' : Pool) → Steps s s' → owners x s' ≡ owners x s
owners-Steps x _ _ (done s) = refl
owners-Steps x _ _ (more s s' s'' p q) = owners-Step x s' s'' q ∙ owners-Steps x s s' p

-- However the threads interleave, if `createConnection` returned a connection at most once, at most one
-- thread holds it at a time, and it is not in the queue while a thread holds it.
pub one_owner :
    (x : ℕ) (cs : List (Option ℕ)) (s : Pool)
    → copies x (created cs) ≤ 1
    → Steps (init cs) s
    → (holders x s.held ≤ 1) × (holders x s.held + copies x s.pool ≤ 1)
unfolding init
one_owner x cs s h p =
    let same = owners-Steps x (init cs) s p in (omega (arith, same, h), omega (arith, same, h))

active-Step : (s s' : Pool) → Step s s' → s'.active ≡ s.active
active-Step _ _ (lock_nothing t s h) = refl
active-Step _ _ (lock_sleeps t s h) = refl
active-Step _ _ (lock_takes t conn rest s h) = refl
active-Step _ _ (wake_sleeps t s h) = refl
active-Step _ _ (wake_takes t conn rest before after s h k) = refl
active-Step _ _ (unlock t conn before after s h) = refl

active-Steps : (s s' : Pool) → Steps s s' → s'.active ≡ s.active
active-Steps _ _ (done s) = refl
active-Steps _ _ (more s s' s'' p q) = active-Step s' s'' q ∙ active-Steps s s' p

-- The number of connections, and with it whether a thread can ever be served.
abbrev total : Pool → ℕ
total s = length s.pool + length s.held

total-Step : (s s' : Pool) → Step s s' → total s' ≡ total s
total-Step _ _ (lock_nothing t s h) = refl
total-Step _ _ (lock_sleeps t s h) = refl
total-Step _ _ (lock_takes t conn rest s h) =
    ground (arith, ap length (lock_connection-takes conn rest s h))
total-Step _ _ (wake_sleeps t s h) = refl
total-Step _ _ (wake_takes t conn rest before after s h k) =
    ground (arith, ap length (take_front-takes conn rest s.pool h))
total-Step _ _ (unlock t conn before after s h) = ground (
  arith,
  length-append s.pool (conn ∷ []),
  ap length h,
  length-append before ((t, conn) ∷ after),
  length-append before after,
)

total-Steps : (s s' : Pool) → Steps s s' → total s' ≡ total s
total-Steps _ _ (done s) = refl
total-Steps _ _ (more s s' s'' p q) = total-Step s' s'' q ∙ total-Steps s s' p

-- By the connections that were made, the queue, and the flag.
served :
    (made pool : List ℕ) (active : Bool)
    → active ≡ not (is_empty made)
    → length pool ≡ length made
    → let locked : Locked = if not active then nothing else take_front pool in
      (made ≡ [] × (locked ≡ nothing))
      ⊎ ((conn : ℕ) × (rest : List ℕ) × (0 < length made) × (locked ≡ takes conn rest))
unfolding take_front is_empty
served [] pool active h k = inl (refl, rw (h) refl)
served (c ∷ cs) [] active h k = absurd (omega (arith, k))
served (c ∷ cs) (conn ∷ rest) active h k = inr (conn, rest, omega arith, rw (h) refl)

-- In a pool that was made with a connection, whatever steps have been taken since, a
-- `lockConnection` that finds no thread holding one takes one at once; in a pool that was made
-- without any, it returns nothing.
pub lock_connection_waits_for_holders :
    (cs : List (Option ℕ)) (s : Pool)
    → Steps (init cs) s
    → s.held ≡ []
    → (created cs ≡ [] × (lock_connection s ≡ nothing))
      ⊎ ((conn : ℕ) × (rest : List ℕ) × (0 < length (created cs))
          × (lock_connection s ≡ takes conn rest))
unfolding init lock_connection
lock_connection_waits_for_holders cs s p h =
    served (created cs) s.pool s.active (active-Steps (init cs) s p)
      (omega (arith, total-Steps (init cs) s p, ap length h))
