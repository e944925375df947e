-- ===== src/ThreadPool.antt =====
-- common/ThreadPool.h and .cpp: tasks in a queue and threads that run them. A task is a number; a
-- critical section under the mutex is one step. What a task throws
-- goes to its future. A caller of `enqueue` after the stop never gives the mutex back, so that no
-- other critical section is entered any more.
use twitch_chat_worker.Base.{
  ℕ, zero, suc, ◌+◌, ◌<◌, ◌≡◌, refl, sym, ap, ◌∙◌, inl, inr, Bool, true, false, List, [], ◌∷◌, ◌++◌,
  append-nil, append_assoc, arith, if◌then◌else◌, Bool-cases,
}
use twitch_chat_worker.Base.Key.{text_key, number_key, int_key}

pub record Pool : Type 0 where
  -- `tasks`, from front to back
  pub tasks : List ℕ
  pub stop : Bool
  -- threads that wait or look for a task, that run one, and that have returned
  pub idle : ℕ
  pub running : ℕ
  pub returned : ℕ
  -- the tasks that were accepted, and those that threads have taken, in order
  pub accepted : List ℕ
  pub taken : List ℕ
  -- callers that `enqueue` does not return to
  pub stuck : ℕ

-- The constructor.
abbrev pub new_pool : ℕ → Pool
new_pool count = record {
  tasks = [];
  stop = false;
  idle = count;
  running = 0;
  returned = 0;
  accepted = [];
  taken = [];
  stuck = 0;
}

-- A caller of `enqueue` after the stop waits, with the mutex, for the future of a task that no
-- thread will run.
unfoldable pub enqueue : ℕ → Pool → Pool
enqueue t p =
    if p.stop
    then record p { stuck = suc p.stuck }
    else record p { tasks = p.tasks ++ t ∷ []; accepted = p.accepted ++ t ∷ [] }

-- The steps of the threads, and of the callers.
pub data Step : Pool → Pool → Type 0 where
  enqueues : {p : Pool} (t : ℕ) → p.stuck ≡ 0 → Step p (enqueue t p)
  takes :
      {p : Pool} (t : ℕ) (ts : List ℕ) (n : ℕ)
      → p.stuck ≡ 0
      → p.tasks ≡ t ∷ ts
      → p.idle ≡ suc n
      → Step p
          (record p { tasks = ts; idle = n; running = suc p.running; taken = p.taken ++ t ∷ [] })
  finishes :
      {p : Pool} (n : ℕ) → p.running ≡ suc n → Step p (record p { running = n; idle = suc p.idle })
  -- the first part of the destructor
  stops : {p : Pool} → p.stuck ≡ 0 → Step p (record p { stop = true })
  returns :
      {p : Pool} (n : ℕ)
      → p.stuck ≡ 0
      → p.stop ≡ true
      → p.tasks ≡ []
      → p.idle ≡ suc n
      → Step p (record p { idle = n; returned = suc p.returned })

pub data Reachable (count : ℕ) : Pool → Type 0 where
  constructed : Reachable count (new_pool count)
  stepped : {p q : Pool} → Reachable count p → Step p q → Reachable count q

record IsOrdered (count : ℕ) (p : Pool) : Type 0 where
  in_order : p.taken ++ p.tasks ≡ p.accepted
  threads : p.idle + p.running + p.returned ≡ count
  done : (n : ℕ) → p.returned ≡ suc n → (p.stop ≡ true) × (p.tasks ≡ [])

enqueue-IsOrdered : (count t : ℕ) (p : Pool) → IsOrdered count p → IsOrdered count (enqueue t p)
unfolding enqueue
enqueue-IsOrdered count t p h = elim (Bool-cases p.stop) [
  | inl e ↦
      rw (e) (record {
        in_order = h.in_order;
        threads = h.threads;
        done = λ n r. (refl, (h.done n r).1);
      })
  | inr e ↦ rw (e) (record {
    in_order = sym (append_assoc p.taken p.tasks (t ∷ [])) ∙ ap (λ l. l ++ t ∷ []) h.in_order;
    threads = h.threads;
    done = λ n r. absurd (cc (e, (h.done n r).0));
  })
]

step-IsOrdered : (count : ℕ) (p q : Pool) → Step p q → IsOrdered count p → IsOrdered count q
step-IsOrdered count p q (enqueues t _) h = enqueue-IsOrdered count t _ h
step-IsOrdered count p q (takes t ts n _ e i) h = record {
  in_order = append_assoc p.taken (t ∷ []) ts ∙ ap (λ l. p.taken ++ l) (sym e) ∙ h.in_order;
  threads = omega (arith, h.threads, i);
  done = λ m r. absurd (cc (e, (h.done m r).1));
}
step-IsOrdered count p q (finishes n e) h = record {
  in_order = h.in_order;
  threads = omega (arith, h.threads, e);
  done = h.done;
}
step-IsOrdered count p q (stops _) h = record {
  in_order = h.in_order;
  threads = h.threads;
  done = λ n r. (refl, (h.done n r).1);
}
step-IsOrdered count p q (returns n _ s e i) h = record {
  in_order = h.in_order;
  threads = omega (arith, h.threads, i);
  done = λ m r. (s, e);
}

Reachable-IsOrdered : (count : ℕ) (p : Pool) → Reachable count p → IsOrdered count p
Reachable-IsOrdered count p constructed = record {
  in_order = refl;
  threads = omega arith;
  done = λ n r. absurd (omega (arith, r));
}
Reachable-IsOrdered count p (stepped r s) =
    step-IsOrdered count _ p s (Reachable-IsOrdered count _ r)

-- Once all threads of a pool with at least one have returned, so that the destructor can join
-- them, every accepted task has been taken by a thread, in the order of acceptance, and no thread
-- runs one any more.
pub all_taken :
    (count : ℕ) (p : Pool)
    → Reachable count p
    → 0 < count
    → p.returned ≡ count
    → (p.taken ≡ p.accepted) × (p.running ≡ 0)
all_taken zero p r h e = absurd (omega (arith, h))
all_taken (suc n) p r h e =
    let o = Reachable-IsOrdered (suc n) p r in
    let left = (o.done n e).1 in
    (
      sym (append-nil p.taken) ∙ ap (λ l. p.taken ++ l) (sym left) ∙ o.in_order,
      omega (arith, o.threads, e),
    )
