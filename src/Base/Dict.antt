-- ===== src/Base/Dict.antt =====
-- `std::map`: an association list, which iteration reads from the front. A key stands in it once.
use Prim.Native.Nat.{suc}
use mathlib.Core.Path.{◌≡◌, refl, ap, ◌∙◌}
use mathlib.Core.Logic.{◌⊎◌, inl, inr}
use mathlib.Core.Bool.{Bool, true, false, ◌&&◌, not}
use mathlib.Core.List.{List, [], ◌∷◌}
use mathlib.Core.Option
use mathlib.Core.Option.{Option, none, some}
use native.Mathlib.Omega.{arith}
use twitch_chat_worker.Base.Tests.{if◌then◌else◌, Bool-cases}
use twitch_chat_worker.Base.Lists.{length}
use twitch_chat_worker.Base.Key.{Key, ◌==◌, eq_iff}

abbrev pub Dict {ℓ κ} : Type ℓ → Type κ → Type (ℓ ⊔ κ)
Dict K V = List (K × V)

abbrev pub value_or {ℓ} : {A : Type ℓ} → A → Option A → A
value_or v none = v
value_or v (some a) = a

abbrev is_some {ℓ} : {A : Type ℓ} → Option A → Bool
is_some none = false
is_some (some a) = true

module _ {ℓ κ} {K : Type ℓ} {V : Type κ} ⦃key : Key K⦄ where
  -- `find`
  unfoldable pub lookup : K → Dict K V → Option V
  lookup k [] = none
  lookup k ((j, v) ∷ m) = if j == k then some v else lookup k m

  unfoldable pub has : K → Dict K V → Bool
  unfolding lookup
  has k m = is_some (lookup k m)

  -- a new entry, at its place in the order
  unfoldable pub insert_at : K → V → Dict K V → Dict K V
  insert_at k v [] = (k, v) ∷ []
  insert_at k v ((j, w) ∷ m) =
      if key.before k j then (k, v) ∷ (j, w) ∷ m else (j, w) ∷ insert_at k v m

  -- `emplace` and `insert`: an entry that is there stays.
  unfoldable pub emplace : K → V → Dict K V → Dict K V
  unfolding has insert_at
  emplace k v m = if has k m then m else insert_at k v m

  -- `it->second = f(it->second)` for `it = find(k)`
  unfoldable pub update : K → (V → V) → Dict K V → Dict K V
  update k f [] = []
  update k f ((j, v) ∷ m) = (j, if j == k then f v else v) ∷ update k f m

  unfoldable pub erase : K → Dict K V → Dict K V
  erase k [] = []
  erase k ((j, v) ∷ m) = let rest = erase k m in if j == k then rest else (j, v) ∷ rest

  pub lookup-insert_at :
      (k j : K) (v : V) (m : Dict K V)
      → lookup k m ≡ none
      → lookup j (insert_at k v m) ≡ (if k == j then some v else lookup j m)
  unfolding lookup insert_at
  lookup-insert_at k j v [] h = refl
  lookup-insert_at k j v ((i, w) ∷ m) h =
      ground (arith, eq_iff k j, eq_iff i k, eq_iff i j, lookup-insert_at k j v m)

  pub lookup-emplace :
      (k j : K) (v : V) (m : Dict K V)
      → lookup j (emplace k v m) ≡ (if not (has k m) && (k == j) then some v else lookup j m)
  unfolding emplace has
  lookup-emplace k j v m = ground (arith, lookup-insert_at k j v m)

  pub lookup-update :
      (k j : K) (f : V → V) (m : Dict K V)
      → lookup j (update k f m) ≡ (if k == j then Option.map f (lookup j m) else lookup j m)
  unfolding lookup update
  lookup-update k j f [] = ground arith
  lookup-update k j f ((i, w) ∷ m) =
      ground (arith, eq_iff k j, eq_iff i k, eq_iff i j, lookup-update k j f m)

  -- `m[k]`, made from `v` if it is not there, and changed by `f`
  pub lookup-update-emplace :
      (k j : K) (f : V → V) (v : V) (m : Dict K V)
      → lookup j (update k f (emplace k v m))
        ≡ (if k == j then some (f (value_or v (lookup j m))) else lookup j m)
  unfolding has
  lookup-update-emplace k j f v m =
      lookup-update k j f (emplace k v m)
      ∙ rw (lookup-emplace k j v m) (assigned (Bool-cases (k == j)))
    where
      entry :
          (o : Option V)
          → Option.map f (if not (is_some o) && true then some v else o) ≡ some (f (value_or v o))
      entry none = refl
      entry (some a) = refl

      assigned :
          ((k == j) ≡ true) ⊎ ((k == j) ≡ false)
          → (if k == j
              then Option.map f (if not (has k m) && (k == j) then some v else lookup j m)
              else (if not (has k m) && (k == j) then some v else lookup j m))
            ≡ (if k == j then some (f (value_or v (lookup j m))) else lookup j m)
      assigned (inr e) = rw (e) (ground arith)
      assigned (inl e) = rw (e, ap (λ i. lookup i m) ((eq_iff k j).0 e)) (entry (lookup j m))

  pub lookup-erase :
      (k j : K) (m : Dict K V) → lookup j (erase k m) ≡ (if k == j then none else lookup j m)
  unfolding lookup erase
  lookup-erase k j [] = ground arith
  lookup-erase k j ((i, v) ∷ m) =
      ground (arith, eq_iff k j, eq_iff i k, eq_iff i j, lookup-erase k j m)

  pub length-insert_at : (k : K) (v : V) (m : Dict K V) → length (insert_at k v m) ≡ suc (length m)
  unfolding insert_at
  length-insert_at k v [] = refl
  length-insert_at k v ((j, w) ∷ m) = ground (arith, length-insert_at k v m)

  pub length-update : (k : K) (f : V → V) (m : Dict K V) → length (update k f m) ≡ length m
  unfolding update
  length-update k f [] = refl
  length-update k f ((j, v) ∷ m) = ap suc (length-update k f m)
