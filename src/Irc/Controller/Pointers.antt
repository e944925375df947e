-- ===== src/Irc/Controller/Pointers.antt =====
-- The client pointers of `IRCController`: the agents that the maps by name and by id lead to.
use twitch_chat_worker.Base.{
  ℕ, suc, ◌<◌, ◌≡◌, refl, ap, subst, ◌∙◌, inl, inr, true, false, ◌&&◌, not, Option, none, some,
  List, [], ◌∷◌, ◌++◌, arith, eqb, if◌then◌else◌, Bool-cases, eqb_iff,
}
use twitch_chat_worker.Base.Key.{Text, text_key, number_key, int_key, ◌==◌, eq_iff, eq_refl}
use twitch_chat_worker.Base.Int.{ℤ}
use twitch_chat_worker.Base.Dict.{lookup, has, emplace, lookup-emplace}
use twitch_chat_worker.DbController.{Account}
use twitch_chat_worker.Irc.Controller.{
  Agent, Controller, find_agent, drop_agent, reload_agent, add_new_irc_client,
}

find_agent-append :
    (a : ℕ) (g : Agent) (gs : List Agent)
    → find_agent a (gs ++ g ∷ [])
      ≡ elim (find_agent a gs) [ some h ↦ some h | none ↦ if eqb g.address a then some g else none ]
unfolding find_agent
find_agent-append a g [] = refl
find_agent-append a g (h ∷ gs) = elim (Bool-cases (eqb h.address a)) [
  | inl e ↦ rw (e)
  | inr e ↦ rw (e) (find_agent-append a g gs)
]

pub find_agent-drop_agent :
    (a b : ℕ) (gs : List Agent)
    → find_agent a (drop_agent b gs) ≡ (if eqb b a then none else find_agent a gs)
unfolding find_agent drop_agent
find_agent-drop_agent a b [] = ground arith
find_agent-drop_agent a b (g ∷ gs) = ground (arith, find_agent-drop_agent a b gs)

abbrev pub map_option : (Agent → Agent) → Option Agent → Option Agent
map_option f none = none
map_option f (some g) = some (f g)

abbrev pub reloaded_as : Account → Agent → Agent
reloaded_as account g = record g { id = account.id; nick = account.nick }

pub find_agent-reload_agent :
    (a b : ℕ) (account : Account) (gs : List Agent)
    → find_agent a (reload_agent b account gs)
      ≡ (if eqb b a then map_option (reloaded_as account) (find_agent a gs) else find_agent a gs)
unfolding find_agent reload_agent
find_agent-reload_agent a b account [] = ground arith
find_agent-reload_agent a b account (g ∷ gs) =
    ground (arith, find_agent-reload_agent a b account gs)

pub record IsSound (c : Controller) : Type 0 where
  pub ids :
      (k : ℤ) (a : ℕ)
      → lookup k c.by_id ≡ some a
      → (g : Agent) × (find_agent a c.agents ≡ some g) × (g.id ≡ k)
  pub names :
      (n : Text) (a : ℕ)
      → lookup n c.by_name ≡ some a
      → (g : Agent) × (find_agent a c.agents ≡ some g)
        × (g.nick ≡ n)
        × (lookup g.id c.by_id ≡ some a)
  pub below : (a : ℕ) (g : Agent) → find_agent a c.agents ≡ some g → a < c.fresh

pub started-IsSound : IsSound (record { by_name = []; by_id = []; agents = []; fresh = 0 })
unfolding lookup find_agent
started-IsSound = record {
  ids = λ k a h. absurd (cc);
  names = λ n a h. absurd (cc);
  below = λ a g h. absurd (cc);
}

module _ (c : Controller) (s : IsSound c) (account : Account)
    (new : lookup account.id c.by_id ≡ none) where
  abbrev agent : Agent
  agent = record { address = c.fresh; id = account.id; nick = account.nick }

  kept :
      (a : ℕ) (g : Agent)
      → find_agent a c.agents ≡ some g
      → find_agent a (c.agents ++ agent ∷ []) ≡ some g
  kept a g h = find_agent-append a agent c.agents ∙ rw (h) refl

  fresh_free : (o : Option Agent) → find_agent c.fresh c.agents ≡ o → o ≡ none
  fresh_free none h = refl
  fresh_free (some g) h = absurd (omega (arith, s.below c.fresh g h))

  fresh_found : find_agent c.fresh (c.agents ++ agent ∷ []) ≡ some agent
  fresh_found =
      find_agent-append c.fresh agent c.agents
      ∙ rw (fresh_free (find_agent c.fresh c.agents) refl) (ground arith)

  id_added :
      (k : ℤ)
      → lookup k (emplace account.id c.fresh c.by_id)
        ≡ (if account.id == k then some c.fresh else lookup k c.by_id)
  unfolding has
  id_added k = lookup-emplace account.id k c.fresh c.by_id ∙ rw (new) refl

  ids_added :
      (k : ℤ) (a : ℕ)
      → lookup k (emplace account.id c.fresh c.by_id) ≡ some a
      → (g : Agent) × (find_agent a (c.agents ++ agent ∷ []) ≡ some g) × (g.id ≡ k)
  ids_added k a h = elim (Bool-cases (account.id == k)) [
    | inl e ↦
        let at : c.fresh ≡ a = ground (arith, e, id_added k, h) in
        (
          agent,
          subst (λ x. find_agent x (c.agents ++ agent ∷ []) ≡ some agent) at fresh_found,
          (eq_iff account.id k).0 e,
        )
    | inr e ↦
        let old : lookup k c.by_id ≡ some a = ground (arith, e, id_added k, h) in
        let (g, hg, hk) = s.ids k a old in (g, kept a g hg, hk)
  ]

  other_id : (k : ℤ) (a : ℕ) → lookup k c.by_id ≡ some a → (account.id == k) ≡ false
  other_id k a h = elim (Bool-cases (account.id == k)) [
    | inr e ↦ e
    | inl e ↦ absurd (cc (new, h, (eq_iff account.id k).0 e))
  ]

  names_added :
      (n : Text) (a : ℕ)
      → lookup n (emplace account.nick c.fresh c.by_name) ≡ some a
      → (g : Agent) × (find_agent a (c.agents ++ agent ∷ []) ≡ some g)
        × (g.nick ≡ n)
        × (lookup g.id (emplace account.id c.fresh c.by_id) ≡ some a)
  names_added n a h = elim (Bool-cases (not (has account.nick c.by_name) && (account.nick == n))) [
    | inl e ↦
        let at : c.fresh ≡ a =
          ground (arith, e, lookup-emplace account.nick n c.fresh c.by_name, h) in
        let here : (account.nick == n) ≡ true = ground (arith, e) in
        (
          agent,
          subst (λ x. find_agent x (c.agents ++ agent ∷ []) ≡ some agent) at fresh_found,
          (eq_iff account.nick n).0 here,
          id_added account.id ∙ rw (eq_refl account.id) (ap some at),
        )
    | inr e ↦
        let old : lookup n c.by_name ≡ some a =
          ground (arith, e, lookup-emplace account.nick n c.fresh c.by_name, h) in
        let (g, hg, hn, hi) = s.names n a old in
        (g, kept a g hg, hn, id_added g.id ∙ rw (other_id g.id a hi) hi)
  ]

  below_added :
      (a : ℕ) (g : Agent) → find_agent a (c.agents ++ agent ∷ []) ≡ some g → a < suc c.fresh
  below_added a g h = by_old (find_agent a c.agents) refl
    where
      by_old : (o : Option Agent) → find_agent a c.agents ≡ o → a < suc c.fresh
      by_old (some k) e = omega (arith, s.below a k e)
      by_old none e =
          let at : eqb c.fresh a ≡ true =
            ground (arith, find_agent-append a agent c.agents, e, h) in
          omega (arith, (eqb_iff c.fresh a).0 at)

  pub added-IsSound : IsSound (add_new_irc_client account c)
  unfolding add_new_irc_client
  added-IsSound = record { ids = ids_added; names = names_added; below = below_added }
