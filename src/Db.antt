-- ===== src/Db.antt =====
-- db/DBConnectionPool.h, db/DBConnectionPool.cpp and db/DBConnectionLock.h: the connections to a data
-- base that threads share. Each critical section of the mutex is one step; what the connections do
-- is not modelled, a connection is a number.
pub mod Owners
pub mod Pg
pub mod Ch
use twitch_chat_worker.Base.{
  ℕ, zero, suc, Bool, true, false, not, ◌≡◌, List, [], ◌∷◌, ◌++◌, Option, none, some, if◌then◌else◌,
}

pub record Pool : Type 0 where
  pub active : Bool
  -- the queue, its front first
  pub pool : List ℕ
  -- the threads with the connections that they have locked
  pub held : List (ℕ × ℕ)
  -- the threads that sleep on the condition
  pub waiting : List ℕ

-- What `lockConnection` does once it has the mutex: return nothing, go to sleep, or take the front.
pub data Locked : Type 0 where
  nothing sleep : Locked
  takes : ℕ → List ℕ → Locked

-- `while (pool.empty()) wait`, from one test of the loop to the next
unfoldable pub take_front : List ℕ → Locked
take_front [] = sleep
take_front (conn ∷ pool) = takes conn pool

unfoldable pub lock_connection : Pool → Locked
unfolding take_front
lock_connection s = if not s.active then nothing else take_front s.pool

unfoldable pub is_empty : List ℕ → Bool
is_empty [] = true
is_empty (x ∷ xs) = false

-- `init`: the connections that `createConnection` has made; `none` is one that failed.
unfoldable pub created : List (Option ℕ) → List ℕ
created [] = []
created (none ∷ cs) = created cs
created (some conn ∷ cs) = conn ∷ created cs

unfoldable pub init : List (Option ℕ) → Pool
unfolding created is_empty
init cs = record {
  active = not (is_empty (created cs));
  pool = created cs;
  held = [];
  waiting = [];
}

-- One critical section of a thread.
pub data Step : Pool → Pool → Type 0 where
  -- `lockConnection` from its start
  lock_nothing : (t : ℕ) (s : Pool) → lock_connection s ≡ nothing → Step s s
  lock_sleeps :
      (t : ℕ) (s : Pool) → lock_connection s ≡ sleep → Step s (record s { waiting = t ∷ s.waiting })
  lock_takes :
      (t conn : ℕ) (rest : List ℕ) (s : Pool)
      → lock_connection s ≡ takes conn rest
      → Step s (record s { pool = rest; held = (t, conn) ∷ s.held })
  -- a thread that wakes up, notified or not, tests the queue again
  wake_sleeps : (t : ℕ) (s : Pool) → take_front s.pool ≡ sleep → Step s s
  wake_takes :
      (t conn : ℕ) (rest before after : List ℕ) (s : Pool)
      → take_front s.pool ≡ takes conn rest
      → s.waiting ≡ before ++ t ∷ after
      → Step s (record s { pool = rest; held = (t, conn) ∷ s.held; waiting = before ++ after })
  -- `unlockConnection`, the destructor of a `DBConnectionLock` with a connection
  unlock :
      (t conn : ℕ) (before after : List (ℕ × ℕ)) (s : Pool)
      → s.held ≡ before ++ (t, conn) ∷ after
      → Step s (record s { pool = s.pool ++ conn ∷ []; held = before ++ after })

-- Any number of steps, of any threads in any order.
pub data Steps : Pool → Pool → Type 0 where
  done : (s : Pool) → Steps s s
  more : (s s' s'' : Pool) → Steps s s' → Step s' s'' → Steps s s''
