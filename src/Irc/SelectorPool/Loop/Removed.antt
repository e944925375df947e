-- ===== src/Irc/SelectorPool/Loop/Removed.antt =====
-- irc/IRCSelector.cpp: what the loop still does with a session after its removal.
use twitch_chat_worker.Base.{
  ℕ, ◌+◌, ◌≤◌, ◌≡◌, refl, sym, ap, subst, ◌∙◌, ◌≢◌, inl, inr, false, some, List, [], ◌∷◌, arith,
  eqb, Bool-cases,
}
use twitch_chat_worker.Base.Key.{text_key, number_key, int_key}
use twitch_chat_worker.Base.Fault.{OnSome}
use twitch_chat_worker.Irc.SelectorPool.{Selector, add_to_selector, remove_from_selector}
use twitch_chat_worker.Irc.SelectorPool.Loop.{
  Phase, at_head, synced, selecting, processing, Thread, Answers, add_descriptors, advance,
  IsInSync, count, Steps, begins, loops, adds, removes, Reachable,
}
use twitch_chat_worker.Irc.SelectorPool.Loop.InSync.{
  count-append, removed-count, sync-copy, Reachable-IsInSync,
}

-- How often the round under way is still going to process the session.
abbrev pub debt : ℕ → Phase → List ℕ → ℕ
debt x at_head copy = 0
debt x synced copy = count x copy
debt x selecting copy = count x copy
debt x processing copy = count x copy

-- The session is gone, and what is still to come of it stays below a bound.
record IsLeft (x bound : ℕ) (t : Thread) : Type 0 where
  gone : count x t.selector.sessions ≡ 0
  in_sync : IsInSync t.selector
  few : count x t.processed + debt x t.phase t.selector.copy ≤ bound

at_phase :
    (x bound : ℕ) (p : Phase) (t : Thread)
    → t.phase ≡ p
    → count x t.processed + debt x t.phase t.selector.copy ≤ bound
    → count x t.processed + debt x p t.selector.copy ≤ bound
at_phase x bound p t h few =
    subst (λ q. count x t.processed + debt x q t.selector.copy ≤ bound) h few

advance-IsLeft :
    (net : Answers) (x bound : ℕ) (p : Phase) (t : Thread)
    → t.phase ≡ p
    → IsLeft x bound t
    → IsLeft x bound (advance net p t)
unfolding advance
advance-IsLeft net x bound at_head t h l =
    let (copied, kept) = sync-copy t.selector l.in_sync in
    let few = at_phase x bound at_head t h l.few in
    record {
      gone = ap (count x) kept ∙ l.gone;
      in_sync = inr (copied ∙ sym kept);
      few = omega (arith, few, ap (count x) copied, l.gone);
    }
advance-IsLeft net x bound synced t h l =
    let few = at_phase x bound synced t h l.few in
    elim (Bool-cases (eqb (add_descriptors net t.selector.copy 0) 0)) [
      | inl e ↦
          rw (e, advance) (record { gone = l.gone; in_sync = l.in_sync; few = omega (arith, few) })
      | inr e ↦ rw (e, advance) (record { gone = l.gone; in_sync = l.in_sync; few = few })
    ]
advance-IsLeft net x bound selecting t h l = record {
  gone = l.gone;
  in_sync = l.in_sync;
  few = at_phase x bound selecting t h l.few;
}
advance-IsLeft net x bound processing t h l =
    let few = at_phase x bound processing t h l.few in
    record {
      gone = l.gone;
      in_sync = l.in_sync;
      few = omega (arith, few, count-append x t.processed t.selector.copy);
    }

add-IsLeft :
    (other x bound : ℕ) (t : Thread)
    → other ≢ x
    → IsLeft x bound t
    → IsLeft x bound (record t { selector = add_to_selector other t.selector })
unfolding add_to_selector
add-IsLeft other x bound t differs l =
    let apart : eqb x other ≡ false = ground (arith, differs) in
    let one : count x (other ∷ []) ≡ 0 = rw (apart) refl in
    record {
      gone = omega (arith, l.gone, one, count-append x t.selector.sessions (other ∷ []));
      in_sync = inl refl;
      few = l.few;
    }

remove-IsLeft :
    (other x bound : ℕ) (t : Thread) (s : Selector)
    → remove_from_selector other t.selector ≡ some s
    → IsLeft x bound t
    → IsLeft x bound (record t { selector = s })
remove-IsLeft other x bound t s h l =
    let (fewer, pending, same) = subst (OnSome _) h (removed-count x other t.selector) in
    record {
      gone = omega (arith, fewer, l.gone);
      in_sync = inl pending;
      few = subst (λ c. count x t.processed + debt x t.phase c ≤ bound) (sym same) l.few;
    }

Steps-IsLeft :
    (x bound : ℕ) {t t' : Thread}
    → Steps (λ other. other ≢ x) t t'
    → IsLeft x bound t
    → IsLeft x bound t'
Steps-IsLeft x bound begins l = l
Steps-IsLeft x bound (loops {t'} net r) l =
    advance-IsLeft net x bound t'.phase t' refl (Steps-IsLeft x bound r l)
Steps-IsLeft x bound (adds {t'} other differs r) l =
    add-IsLeft other x bound t' differs (Steps-IsLeft x bound r l)
Steps-IsLeft x bound (removes {t'} other s h r) l =
    remove-IsLeft other x bound t' s h (Steps-IsLeft x bound r l)

-- From any reachable state of a selector in which a session does not stand any more, and as long
-- as no thread adds it again, the selector's loop processes it no more often than it stands in the
-- copy of the round that is under way, and not at all if no round is.
pub removed-processed :
    (x : ℕ) (t t' : Thread)
    → Reachable t
    → count x t.selector.sessions ≡ 0
    → Steps (λ other. other ≢ x) t t'
    → count x t'.processed ≤ count x t.processed + debt x t.phase t.selector.copy
removed-processed x t t' reached gone r =
    let left : IsLeft x (count x t.processed + debt x t.phase t.selector.copy) t = record {
      gone = gone;
      in_sync = Reachable-IsInSync reached;
      few = omega arith;
    } in
    let after = (Steps-IsLeft x _ r left).few in omega (arith, after)
