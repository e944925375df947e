-- ===== src/Irc/SelectorPool.antt =====
-- irc/IRCSelectorPool.h, irc/IRCSelectorPool.cpp and the session lists of irc/IRCSelector.cpp. A
-- session is a pointer; the sockets and `select` are not modelled. `none` is a fault.
pub mod Places
pub mod Loop
use twitch_chat_worker.Base.{
  ℕ, zero, suc, ◌+◌, ◌*◌, ◌%◌, ◌≤◌, ◌<◌, ◌≡◌, refl, ap, sym, subst, ◌∙◌, ◌≢◌, ◌⊎◌, inl, inr, Bool,
  true, false, not, List, [], ◌∷◌, ◌++◌, length, Option, none, some, get_elem?, eqb, if◌then◌else◌,
  ◌^◌, arith, Bool-cases, Option-cases,
}
use twitch_chat_worker.Base.Fault.{◌>>=◌}

pub record Selector : Type 0 where
  pub sessions : List ℕ
  -- `threadSafeCopy`, which only the selector's own thread reads
  pub copy : List ℕ
  pub need_sync : Bool

pub record Pool : Type 0 where
  pub selectors : List Selector
  -- `curSelectorRoundRobin`
  pub cur : ℕ

abbrev pub new_selector : Selector
new_selector = record { sessions = []; copy = []; need_sync = false }

unfoldable pub add_to_selector : ℕ → Selector → Selector
add_to_selector session s = record s { sessions = s.sessions ++ session ∷ []; need_sync = true }

-- `find` and `erase` of the iterator: to erase at the end is undefined.
unfoldable pub erase_found : ℕ → List ℕ → Option (List ℕ)
erase_found session [] = none
erase_found session (x ∷ xs) =
    if eqb x session then some xs else (erase_found session xs >>= λ rest. some (x ∷ rest))

unfoldable pub remove_from_selector : ℕ → Selector → Option Selector
remove_from_selector session s = do
  sessions ← erase_found session s.sessions
  some (record s { sessions = sessions; need_sync = true })

-- The part of the selector's loop that takes over the sessions.
unfoldable pub sync : Selector → Selector
sync s = if s.need_sync then record s { copy = s.sessions; need_sync = false } else s

unfoldable pub init : ℕ → List Selector
init zero = []
init (suc threads) = new_selector ∷ init threads

unfoldable pub set_selector : ℕ → Selector → List Selector → List Selector
set_selector i s [] = []
set_selector zero s (t ∷ ts) = s ∷ ts
set_selector (suc i) s (t ∷ ts) = t ∷ set_selector i s ts

-- `getNextSelectorRoundRobin`: the place of the selector, a 32-bit copy of the index, and the pool
unfoldable pub get_next_selector_round_robin : Pool → Option (ℕ × Pool)
get_next_selector_round_robin p =
    let i = p.cur % 2 ^ 32 in
    if eqb (length p.selectors) 1
    then some (0, p)
    else if eqb (length p.selectors) 0
    then none
    else (do
      _ ← get_elem? p.selectors i
      some (i, record p { cur = (p.cur + 1) % 2 ^ 64 % length p.selectors }))

unfoldable pub add_session : ℕ → Pool → Option Pool
add_session session p = do
  (i, p') ← get_next_selector_round_robin p
  s ← get_elem? p'.selectors i
  some (record p' { selectors = set_selector i (add_to_selector session s) p'.selectors })

unfoldable pub remove_from_all : ℕ → List Selector → Option (List Selector)
remove_from_all session [] = some []
remove_from_all session (s ∷ ss) = do
  s' ← remove_from_selector session s
  ss' ← remove_from_all session ss
  some (s' ∷ ss')

unfoldable pub remove_session : ℕ → Pool → Option Pool
remove_session session p = do
  selectors ← remove_from_all session p.selectors
  some (record p { selectors = selectors })
