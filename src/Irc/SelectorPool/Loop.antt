-- ===== src/Irc/SelectorPool/Loop.antt =====
-- irc/IRCSelector.cpp, IRCSelector::run: the loop of a selector's thread, while other threads add and
-- remove sessions. What libircclient and `select` answer is given with each step.
pub mod InSync
pub mod Removed
use twitch_chat_worker.Base.{
  ℕ, suc, ◌+◌, ◌≤◌, ◌<◌, ◌≡◌, refl, sym, ap, subst, ◌∙◌, ◌≢◌, ◌⊎◌, inl, inr, Bool, true, false,
  some, List, [], ◌∷◌, ◌++◌, arith, eqb, if◌then◌else◌, Bool-cases, max,
}
use twitch_chat_worker.Base.Key.{text_key, number_key, int_key}
use twitch_chat_worker.Base.Fault.{OnSome, OnSome-bind}
use twitch_chat_worker.Irc.SelectorPool.{
  Selector, new_selector, add_to_selector, erase_found, remove_from_selector, sync,
}

-- Where the thread stands: at the head of the loop, behind the sync, in `select`, and behind it.
pub data Phase : Type 0 where
  at_head synced selecting processing : Phase

pub record Thread : Type 0 where
  pub selector : Selector
  pub phase : Phase
  -- the sessions that `irc_process_select_descriptors` has been called for, the first one first
  pub processed : List ℕ

-- What libircclient says of a session: `connected`, and the descriptor that it adds.
pub record Answers : Type 0 where
  pub connected : ℕ → Bool
  pub descriptor : ℕ → ℕ

-- The loop that adds the descriptors; `maxfd` is what `irc_add_select_descriptors` raises.
unfoldable pub add_descriptors : Answers → List ℕ → ℕ → ℕ
add_descriptors net [] maxfd = maxfd
add_descriptors net (session ∷ copy) maxfd =
    add_descriptors net copy
      (if net.connected session then max maxfd (net.descriptor session) else maxfd)

-- One phase of the loop.
unfoldable pub advance : Answers → Phase → Thread → Thread
unfolding sync
advance net at_head t = record t { selector = sync t.selector; phase = synced }
advance net synced t =
    if eqb (add_descriptors net t.selector.copy 0) 0
    then record t { phase = at_head }
    else record t { phase = selecting }
advance net selecting t = record t { phase = processing }
advance net processing t = record t { processed = t.processed ++ t.selector.copy; phase = at_head }

abbrev pub new_thread : Thread
new_thread = record { selector = new_selector; phase = at_head; processed = [] }

-- The copy is up to date, or is going to be brought up to date.
abbrev pub IsInSync : Selector → Type 0
IsInSync s = (s.need_sync ≡ true) ⊎ (s.copy ≡ s.sessions)

abbrev pub count : ℕ → List ℕ → ℕ
count x [] = 0
count x (y ∷ ys) = if eqb x y then suc (count x ys) else count x ys

-- Steps of all threads in any order, where what is added satisfies P. A removal that faults is no step.
pub data Steps (P : ℕ → Type 0) (t : Thread) : Thread → Type 0 where
  begins : Steps P t t
  loops : {t' : Thread} (net : Answers) → Steps P t t' → Steps P t (advance net t'.phase t')
  adds :
      {t' : Thread} (session : ℕ)
      → P session
      → Steps P t t'
      → Steps P t (record t' { selector = add_to_selector session t'.selector })
  removes :
      {t' : Thread} (session : ℕ) (s : Selector)
      → remove_from_selector session t'.selector ≡ some s
      → Steps P t t'
      → Steps P t (record t' { selector = s })

-- Whatever is added.
abbrev pub Reachable : Thread → Type 0
Reachable t = Steps (λ _. Unit) new_thread t
