-- ===== src/Irc/SelectorPool/Loop/InSync.antt =====
-- irc/IRCSelector.cpp: the copy that the loop reads is up to date, or marked as out of date.
use twitch_chat_worker.Base.{
  ℕ, ◌+◌, ◌≤◌, ◌<◌, ◌≡◌, refl, sym, ap, subst, ◌∙◌, inl, inr, true, false, some, List, [], ◌∷◌,
  ◌++◌, arith, eqb, Bool-cases,
}
use twitch_chat_worker.Base.Key.{text_key, number_key, int_key}
use twitch_chat_worker.Base.Fault.{OnSome, OnSome-bind}
use twitch_chat_worker.Irc.SelectorPool.{
  Selector, add_to_selector, erase_found, remove_from_selector, sync,
}
use twitch_chat_worker.Irc.SelectorPool.Loop.{
  Phase, at_head, synced, selecting, processing, Thread, Answers, add_descriptors, advance,
  IsInSync, count, begins, loops, adds, removes, Reachable,
}

pub count-append : (x : ℕ) (xs ys : List ℕ) → count x (xs ++ ys) ≡ count x xs + count x ys
count-append x [] ys = omega arith
count-append x (y ∷ xs) ys = ground (arith, count-append x xs ys)

-- To erase a session adds no other.
count-erase_found :
    (x session : ℕ) (xs : List ℕ) → OnSome (λ ys. count x ys ≤ count x xs) (erase_found session xs)
unfolding erase_found
count-erase_found x session [] = tt
count-erase_found x session (y ∷ xs) = elim (Bool-cases (eqb y session)) [
  | inl e ↦ rw (e, erase_found) (ground arith)
  | inr e ↦
      rw (e, erase_found)
        (OnSome-bind (λ rest. count x rest ≤ count x xs) (λ ys. count x ys ≤ count x (y ∷ xs))
          (erase_found session xs) (λ rest. some (y ∷ rest)) (count-erase_found x session xs)
          (λ rest h. ground (arith, h)))
]

pub removed-count :
    (x session : ℕ) (s : Selector)
    → OnSome
        (λ s'.
          (count x s'.sessions ≤ count x s.sessions) × (s'.need_sync ≡ true) × (s'.copy ≡ s.copy))
        (remove_from_selector session s)
unfolding remove_from_selector
removed-count x session s =
    OnSome-bind (λ sessions. count x sessions ≤ count x s.sessions) _
      (erase_found session s.sessions)
      (λ sessions. some (record s { sessions = sessions; need_sync = true }))
      (count-erase_found x session s.sessions) (λ sessions h. (h, refl, refl))

pub sync-copy :
    (s : Selector) → IsInSync s → ((sync s).copy ≡ s.sessions) × ((sync s).sessions ≡ s.sessions)
unfolding sync
sync-copy s (inl h) = rw (h, sync) (refl, refl)
sync-copy s (inr h) = elim (Bool-cases s.need_sync) [
  | inl e ↦ rw (e, sync) (refl, refl)
  | inr e ↦ rw (e, sync) (h, refl)
]

advance-IsInSync :
    (net : Answers) (p : Phase) (t : Thread)
    → IsInSync t.selector
    → IsInSync (advance net p t).selector
unfolding advance
advance-IsInSync net at_head t h =
    let (copied, kept) = sync-copy t.selector h in inr (copied ∙ sym kept)
advance-IsInSync net synced t h =
    elim (Bool-cases (eqb (add_descriptors net t.selector.copy 0) 0)) [
      | inl e ↦ rw (e, advance) h
      | inr e ↦ rw (e, advance) h
    ]
advance-IsInSync net selecting t h = h
advance-IsInSync net processing t h = h

pub Reachable-IsInSync : {t : Thread} → Reachable t → IsInSync t.selector
unfolding add_to_selector
Reachable-IsInSync begins = inr refl
Reachable-IsInSync (loops {t'} net r) = advance-IsInSync net t'.phase t' (Reachable-IsInSync r)
Reachable-IsInSync (adds session _ r) = inl refl
Reachable-IsInSync (removes {t'} session s h r) =
    let (_, pending, _) = subst (OnSome _) h (removed-count 0 session t'.selector) in inl pending

-- A round in which some session has a descriptor, with no addition or removal meanwhile, processes each
-- session of the selector once, in their order.
pub round-processed :
    (net : Answers) (t : Thread)
    → Reachable t
    → 0 < add_descriptors net t.selector.sessions 0
    → (advance net processing
        (advance net selecting (advance net synced (advance net at_head t)))).processed
      ≡ t.processed ++ t.selector.sessions
unfolding advance
round-processed net t reached h =
    let (copied, _) = sync-copy t.selector (Reachable-IsInSync reached) in
    let waits : eqb (add_descriptors net (sync t.selector).copy 0) 0 ≡ false =
      rw (copied) (ground (arith, h)) in
    rw (waits) (ap (λ xs. t.processed ++ xs) copied)
