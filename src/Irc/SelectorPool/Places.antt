-- ===== src/Irc/SelectorPool/Places.antt =====
-- In which selectors of a pool a session stands.
use native.Mathlib.Nat.{mod-lt}
use native.Mathlib.Decide.{ℕ_discrete}
use twitch_chat_worker.Base.{
  copies, copies-append, get_elem?-some, ℕ, zero, suc, ◌+◌, ◌%◌, ◌<◌, ◌≡◌, refl, ap, List, [], ◌∷◌,
  length, none, some, get_elem?, eqb, if◌then◌else◌, ◌^◌, ◌≤◌, arith,
}
use twitch_chat_worker.Irc.SelectorPool.{
  Selector, Pool, add_to_selector, erase_found, remove_from_selector, set_selector,
  get_next_selector_round_robin, add_session, remove_from_all, remove_session,
}

-- How often a session stands in the lists of the selectors.
abbrev pub copies_in : ℕ → List Selector → ℕ
copies_in x [] = 0
copies_in x (s ∷ ss) = copies x s.sessions + copies_in x ss

erase_found-none : (x : ℕ) (xs : List ℕ) → copies x xs ≡ 0 → erase_found x xs ≡ none
unfolding erase_found
erase_found-none x [] h = refl
erase_found-none x (y ∷ ys) h = ground (arith, h, erase_found-none x ys)

remove_from_all-none :
    (x : ℕ) (ss : List Selector) → copies_in x ss < length ss → remove_from_all x ss ≡ none
unfolding remove_from_all remove_from_selector
remove_from_all-none x [] h = absurd (omega arith)
remove_from_all-none x (s ∷ ss) h = elim (ℕ_discrete (copies x s.sessions) 0) [
  | yes p ↦ ground (arith, erase_found-none x s.sessions p)
  | no p ↦ ground (arith, remove_from_all-none x ss (omega (arith, h, p)))
]

-- A session that the pool holds fewer times than it has selectors cannot be removed: some selector
-- does not have it, and erases behind the end of its list.
pub remove_session_faults :
    (x : ℕ) (p : Pool) → copies_in x p.selectors < length p.selectors → remove_session x p ≡ none
unfolding remove_session
remove_session_faults x p h = rw (remove_from_all-none x p.selectors h) refl

set_selector_lem :
    (x y i : ℕ) (s : Selector) (ss : List Selector)
    → get_elem? ss i ≡ some s
    → copies_in y (set_selector i (add_to_selector x s) ss)
      ≡ copies_in y ss + (if eqb x y then 1 else 0)
unfolding set_selector add_to_selector
set_selector_lem x y i s [] h = absurd (ground (arith, h))
set_selector_lem x y zero s (t ∷ ts) h = ground (arith, h, copies-append y s.sessions (x ∷ []))
set_selector_lem x y (suc i) s (t ∷ ts) h = ground (arith, set_selector_lem x y i s ts h)

length-set_selector :
    (i : ℕ) (s : Selector) (ss : List Selector) → length (set_selector i s ss) ≡ length ss
unfolding set_selector
length-set_selector i s [] = refl
length-set_selector zero s (t ∷ ts) = refl
length-set_selector (suc i) s (t ∷ ts) = ap suc (length-set_selector i s ts)

get_next_selector_round_robin_lem :
    (p : Pool)
    → p.cur < length p.selectors
    → length p.selectors ≤ 2 ^ 32
    → (k : ℕ) × (get_next_selector_round_robin p ≡ some (p.cur, record p { cur = k }))
      × (k < length p.selectors)
unfolding get_next_selector_round_robin
get_next_selector_round_robin_lem p h l = elim (ℕ_discrete (length p.selectors) 1) [
  | yes e ↦ (p.cur, ground (arith, e, h), h)
  | no e ↦
      let (s, f) = get_elem?-some p.selectors p.cur h in
      let same : p.cur % 2 ^ 32 ≡ p.cur = omega (arith, h, l) in
      (
        (p.cur + 1) % 2 ^ 64 % length p.selectors,
        rw (same) (ground (arith, e, h, f)),
        mod-lt ((p.cur + 1) % 2 ^ 64) (omega (arith, h)),
      )
]

-- With the index within the pool, which has at most 2^32 selectors, an added session goes into
-- exactly one selector, all other sessions stay as often as they were, the number of selectors is
-- the same and the index is within the pool again.
pub add_session_lem :
    (x : ℕ) (p : Pool)
    → p.cur < length p.selectors
    → length p.selectors ≤ 2 ^ 32
    → (p' : Pool) × (add_session x p ≡ some p')
      × ((y : ℕ) → copies_in y p'.selectors ≡ copies_in y p.selectors + (if eqb x y then 1 else 0))
      × (length p'.selectors ≡ length p.selectors)
      × (p'.cur < length p'.selectors)
unfolding add_session
add_session_lem x p h l =
    (let (k, e, k_lt) = get_next_selector_round_robin_lem p h l in
      let (s, f) = get_elem?-some p.selectors p.cur h in
      let same = length-set_selector p.cur (add_to_selector x s) p.selectors in
      (
        record p { selectors = set_selector p.cur (add_to_selector x s) p.selectors; cur = k },
        rw (e) (rw (f) refl),
        λ y. set_selector_lem x y p.cur s p.selectors f,
        same,
        omega (arith, same, k_lt),
      ))
