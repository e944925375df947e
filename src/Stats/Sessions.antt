-- ===== src/Stats/Sessions.antt =====
-- What the collector keeps of the sessions' statistics.
use native.Mathlib.Decide.{dec_le}
use mathlib.Core.Option
use twitch_chat_worker.Base.{
  ℕ, zero, suc, ◌+◌, ◌-◌, ◌^◌, ◌<◌, ◌≡◌, refl, ap, ◌&&◌, Bool-cases, Option-cases, inl, inr, Option,
  none, some, List, [], ◌∷◌, ◌++◌, length, get_elem?, take-all, replicate, length-append,
  length-replicate, eqb, leb, if◌then◌else◌, add32, arith,
}
use twitch_chat_worker.Base.Key.{Text, text_key, ◌==◌, eq_iff}
use twitch_chat_worker.Base.Dict.{Dict, has, lookup, emplace, update, lookup-emplace, lookup-update}
use twitch_chat_worker.Irc.Statistic.{Statistic, empty, add}
use twitch_chat_worker.Stats.{Collector, at_key, resize, add_at, session_stats, evt_irc_metrics}

or_empty : Option Statistic → Statistic
or_empty none = empty
or_empty (some s) = s

-- The statistics of a session, by its account and its id; zero if nothing is kept of it.
unfoldable pub stats_of : Text → ℕ → Collector → Statistic
unfolding or_empty
stats_of nick id c = or_empty (get_elem? (session_stats nick c.irc_stats) id)

get_elem?-replicate : (n i : ℕ) → or_empty (get_elem? (replicate n empty) i) ≡ empty
unfolding or_empty
get_elem?-replicate zero i = refl
get_elem?-replicate (suc n) zero = refl
get_elem?-replicate (suc n) (suc i) = get_elem?-replicate n i

-- New cells hold zero, so they do not show.
get_elem?-grow :
    (n i : ℕ) (xs : List Statistic)
    → or_empty (get_elem? (xs ++ replicate n empty) i) ≡ or_empty (get_elem? xs i)
unfolding or_empty
get_elem?-grow n i [] = get_elem?-replicate n i
get_elem?-grow n zero (x ∷ xs) = refl
get_elem?-grow n (suc i) (x ∷ xs) = get_elem?-grow n i xs

-- `ys` is `xs` with `x` added to the cell `i`.
Added : ℕ → Statistic → List Statistic → List Statistic → Type 0
Added i x xs ys =
    (j : ℕ)
    → or_empty (get_elem? ys j)
      ≡ (if eqb i j then add (or_empty (get_elem? xs j)) x else or_empty (get_elem? xs j))

Added-zero : (x y : Statistic) (ys : List Statistic) → Added 0 x (y ∷ ys) (add y x ∷ ys)
unfolding Added or_empty
Added-zero x y ys zero = refl
Added-zero x y ys (suc j) = ground arith

Added-suc :
    (i : ℕ) (x y : Statistic) (xs ys : List Statistic)
    → Added i x xs ys
    → Added (suc i) x (y ∷ xs) (y ∷ ys)
unfolding Added or_empty
Added-suc i x y xs ys h zero = ground arith
Added-suc i x y xs ys h (suc j) = ground (arith, h j)

add_at-Added :
    (i : ℕ) (x : Statistic) (xs : List Statistic)
    → i < length xs
    → (ys : List Statistic) × (add_at i x xs ≡ some ys) × Added i x xs ys
unfolding add_at
add_at-Added i x [] h = absurd (omega arith)
add_at-Added zero x (y ∷ ys) h = (add y x ∷ ys, refl, Added-zero x y ys)
add_at-Added (suc i) x (y ∷ ys) h =
    (let (zs, e, f) = add_at-Added i x ys (omega arith) in
      (y ∷ zs, rw (e) refl, Added-suc i x y ys zs f))

-- The list of an account's sessions, grown where the id asks for it.
sized : ℕ → List Statistic → List Statistic
sized id old = if leb (length old) id then resize (add32 id 1) empty old else old

sized_lem :
    (id : ℕ) (old : List Statistic)
    → id + 1 < 2 ^ 32
    → (id < length (sized id old))
      × ((j : ℕ) → or_empty (get_elem? (sized id old) j) ≡ or_empty (get_elem? old j))
unfolding sized resize
sized_lem id old h = elim (dec_le (length old) id) [
  | yes p ↦
      let grown : sized id old ≡ old ++ replicate (add32 id 1 - length old) empty =
        ground (arith, p, take-all (add32 id 1) old (omega (arith, p, h))) in
      rw (grown) (
        omega (
          arith,
          p,
          h,
          length-append old (replicate (add32 id 1 - length old) empty),
          length-replicate {A = Statistic} (add32 id 1 - length old) empty,
        ),
        λ j. get_elem?-grow (add32 id 1 - length old) j old,
      )
  | no p ↦
      let kept : sized id old ≡ old = ground (arith, p) in rw (kept) (omega (arith, p), λ j. refl)
]

session_stats-at_key :
    (k nick : Text) (new : List Statistic) (m : Dict Text (List Statistic))
    → session_stats nick (at_key k [] (λ _. new) m)
      ≡ (if k == nick then new else session_stats nick m)
unfolding session_stats at_key has
session_stats-at_key k nick new m = elim (Bool-cases (k == nick)) [
  | inr e ↦ ground (arith, e, updated, lookup-emplace k nick [] m)
  | inl e ↦
      let same : lookup k m ≡ lookup nick m = ap (λ j. lookup j m) ((eq_iff k nick).0 e) in
      elim (Option-cases (lookup nick m)) [
        | inl p ↦ ground (arith, e, p, same, updated, lookup-emplace k nick [] m)
        | inr (s, p) ↦ ground (arith, e, p, same, updated, lookup-emplace k nick [] m)
      ]
]
  where
    updated : lookup nick (update k (λ _. new) (emplace k [] m)) ≡ (
        if k == nick
        then Option.map (λ _. new) (lookup nick (emplace k [] m))
        else lookup nick (emplace k [] m))
    updated = lookup-update k nick (λ _. new) (emplace k [] m)

-- A report of a session whose id is below 2^32 - 1 is added to the totals and to what is kept of that
-- session, and nothing that is kept of another session or another account changes.
pub evt_irc_metrics_lem :
    (id : ℕ) (nick : Text) (stats : Statistic) (c : Collector)
    → id + 1 < 2 ^ 32
    → (c' : Collector) × (evt_irc_metrics id nick stats c ≡ some c')
      × (c'.all_irc_stats ≡ add c.all_irc_stats stats)
      × ((n : Text) (i : ℕ)
          → stats_of n i c'
            ≡ (if (nick == n) && eqb id i then add (stats_of n i c) stats else stats_of n i c))
unfolding evt_irc_metrics stats_of sized Added
evt_irc_metrics_lem id nick stats c h =
    (let old = session_stats nick c.irc_stats in
      let (in_range, cells) = sized_lem id old h in
      let (new, e, added) = add_at-Added id stats (sized id old) in_range in
      (
        record c {
          all_irc_stats = add c.all_irc_stats stats;
          irc_stats = at_key nick [] (λ _. new) c.irc_stats;
        },
        rw (e) refl,
        refl,
        λ n i. elim (Bool-cases (nick == n)) [
          | inl q ↦
              let same : old ≡ session_stats n c.irc_stats =
                ap (λ k. session_stats k c.irc_stats) ((eq_iff nick n).0 q) in
              ground (arith, q, same, added i, cells i, session_stats-at_key nick n new c.irc_stats)
          | inr q ↦ ground (arith, q, session_stats-at_key nick n new c.irc_stats)
        ],
      ))
