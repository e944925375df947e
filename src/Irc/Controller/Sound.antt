-- ===== src/Irc/Controller/Sound.antt =====
-- The client pointers of `IRCController` after a removal and after a reload.
use twitch_chat_worker.Base.{
  ℕ, ◌<◌, ◌≡◌, refl, sym, ap, subst, ◌∙◌, inl, inr, true, false, Option, none, some, List, [], ◌∷◌,
  arith, eqb, Bool-cases, eqb_iff,
}
use twitch_chat_worker.Base.Key.{Text, codes, text_key, number_key, int_key, ◌==◌, eq_iff}
use twitch_chat_worker.Base.Int.{ℤ}
use twitch_chat_worker.Base.Dict.{lookup, erase, lookup-erase}
use twitch_chat_worker.Base.Fault.{OnSome}
use twitch_chat_worker.DbController.{Account}
use twitch_chat_worker.Irc.Controller.{
  Agent, Controller, Sent, shutdown, find_agent, drop_agent, reload_agent,
}
use twitch_chat_worker.Irc.Controller.Requests.{remove_account, Response, answer, about, refuse}
use twitch_chat_worker.Irc.Controller.Pointers.{
  IsSound, find_agent-drop_agent, find_agent-reload_agent, reloaded_as,
}

-- What `remove_account` leaves of a client that it finds.
abbrev pub without : ℤ → ℕ → Agent → Controller → Controller
without id a g c = record c {
  by_name = erase g.nick c.by_name;
  by_id = erase id c.by_id;
  agents = drop_agent a c.agents;
}

module _ (c : Controller) (s : IsSound c) (id : ℤ) (a : ℕ) (g : Agent)
    (at : lookup id c.by_id ≡ some a) (lives : find_agent a c.agents ≡ some g) where
  own_id : g.id ≡ id
  own_id = let (h, hh, hk) = s.ids id a at in cc

  other_agent :
      (b : ℕ) (h : Agent)
      → find_agent b c.agents ≡ some h
      → eqb a b ≡ false
      → find_agent b (drop_agent a c.agents) ≡ some h
  other_agent b h e ne = find_agent-drop_agent b a c.agents ∙ rw (ne) e

  -- An agent at the same address is the same.
  same_agent : (b : ℕ) (h : Agent) → find_agent b c.agents ≡ some h → eqb a b ≡ true → h ≡ g
  same_agent b h e eq =
      let ab : a ≡ b = (eqb_iff a b).0 eq in
      let both : some h ≡ some g = sym e ∙ ap (λ i. find_agent i c.agents) (sym ab) ∙ lives in cc

  ids_removed :
      (k : ℤ) (b : ℕ)
      → lookup k (erase id c.by_id) ≡ some b
      → (h : Agent) × (find_agent b (drop_agent a c.agents) ≡ some h) × (h.id ≡ k)
  ids_removed k b h =
      let other : (id == k) ≡ false = ground (arith, lookup-erase id k c.by_id, h) in
      let old : lookup k c.by_id ≡ some b = ground (arith, lookup-erase id k c.by_id, h) in
      let (x, hx, hk) = s.ids k b old in
      elim (Bool-cases (eqb a b)) [
        | inr e ↦ (x, other_agent b x hx e, hk)
        | inl e ↦
            let equal : (id == k) ≡ true =
              (eq_iff id k).1 (sym own_id ∙ ap (λ y. y.id) (sym (same_agent b x hx e)) ∙ hk) in
            absurd (cc (other, equal))
      ]

  names_removed :
      (n : Text) (b : ℕ)
      → lookup n (erase g.nick c.by_name) ≡ some b
      → (h : Agent) × (find_agent b (drop_agent a c.agents) ≡ some h)
        × (h.nick ≡ n)
        × (lookup h.id (erase id c.by_id) ≡ some b)
  names_removed n b h =
      let other : (g.nick == n) ≡ false = ground (arith, lookup-erase g.nick n c.by_name, h) in
      let old : lookup n c.by_name ≡ some b = ground (arith, lookup-erase g.nick n c.by_name, h) in
      let (x, hx, hn, hi) = s.names n b old in
      elim (Bool-cases (eqb a b)) [
        | inl e ↦
            let equal : (g.nick == n) ≡ true =
              (eq_iff g.nick n).1 (ap (λ y. y.nick) (sym (same_agent b x hx e)) ∙ hn) in
            absurd (cc (other, equal))
        | inr e ↦ elim (Bool-cases (id == x.id)) [
          | inr f ↦ (x, other_agent b x hx e, hn, lookup-erase id x.id c.by_id ∙ rw (f) hi)
          | inl f ↦
              let ids : id ≡ x.id = (eq_iff id x.id).0 f in
              let ends : some a ≡ some b = sym at ∙ ap (λ k. lookup k c.by_id) ids ∙ hi in
              let equal : eqb a b ≡ true = (eqb_iff a b).1 (cc (ends)) in absurd (cc (e, equal))
        ]
      ]

  below_removed : (b : ℕ) (h : Agent) → find_agent b (drop_agent a c.agents) ≡ some h → b < c.fresh
  below_removed b h e = s.below b h (ground (arith, find_agent-drop_agent b a c.agents, e))

  without-IsSound : IsSound (without id a g c)
  without-IsSound = record { ids = ids_removed; names = names_removed; below = below_removed }

pub remove_account-some :
    (c : Controller) (id : ℤ) (a : ℕ) (g : Agent)
    → lookup id c.by_id ≡ some a
    → find_agent a c.agents ≡ some g
    → remove_account id c
      ≡ answer (without id a g c) (shutdown a ∷ []) (about id (codes "Account removed"))
unfolding remove_account
remove_account-some c id a g e lives = rw (e, lives, remove_account) refl

remove_account-none :
    (c : Controller) (id : ℤ)
    → lookup id c.by_id ≡ none
    → remove_account id c ≡ refuse 404 (codes "Account not found") c
unfolding remove_account
remove_account-none c id e = rw (e, remove_account) refl

pub removed-IsSound :
    (c c' : Controller) (id : ℤ) (out : List Sent) (r : Response)
    → IsSound c
    → remove_account id c ≡ some (c', out, r)
    → IsSound c'
removed-IsSound c c' id out r s h =
    subst (OnSome (λ x. IsSound x.0)) h (by_pointer (lookup id c.by_id) refl)
  where
    by_pointer :
        (o : Option ℕ) → lookup id c.by_id ≡ o → OnSome (λ x. IsSound x.0) (remove_account id c)
    by_pointer none e = rw (remove_account-none c id e) s
    by_pointer (some a) e =
        let (g, lives, hk) = s.ids id a e in
        rw (remove_account-some c id a g e lives) (without-IsSound c s id a g e lives)

module _ (c : Controller) (s : IsSound c) (a : ℕ) (g : Agent) (account : Account)
    (lives : find_agent a c.agents ≡ some g) (same_id : account.id ≡ g.id)
    (same_nick : account.nick ≡ g.nick) where
  reloads :
      (b : ℕ) (h : Agent)
      → find_agent b c.agents ≡ some h
      → (k : Agent) × (find_agent b (reload_agent a account c.agents) ≡ some k)
        × (k.id ≡ h.id)
        × (k.nick ≡ h.nick)
  reloads b h e = elim (Bool-cases (eqb a b)) [
    | inr ne ↦ (h, find_agent-reload_agent b a account c.agents ∙ rw (ne) e, refl, refl)
    | inl eq ↦
        let ab : a ≡ b = (eqb_iff a b).0 eq in
        let both : some h ≡ some g = sym e ∙ ap (λ i. find_agent i c.agents) (sym ab) ∙ lives in
        let h_is_g : h ≡ g = cc in
        (
          reloaded_as account h,
          find_agent-reload_agent b a account c.agents ∙ rw (eq, e) refl,
          same_id ∙ ap (λ y. y.id) (sym h_is_g),
          same_nick ∙ ap (λ y. y.nick) (sym h_is_g),
        )
  ]

  below_reloaded :
      (b : ℕ) (h : Agent) → find_agent b (reload_agent a account c.agents) ≡ some h → b < c.fresh
  below_reloaded b h e = by_old (find_agent b c.agents) refl
    where
      by_old : (o : Option Agent) → find_agent b c.agents ≡ o → b < c.fresh
      by_old (some k) f = s.below b k f
      by_old none f = absurd (ground (arith, find_agent-reload_agent b a account c.agents, e, f))

  pub reloaded-IsSound : IsSound (record c { agents = reload_agent a account c.agents })
  reloaded-IsSound = record {
    ids = λ k b h.
        let (x, hx, hk) = s.ids k b h in let (y, hy, id, nick) = reloads b x hx in (y, hy, id ∙ hk);
    names = λ n b h.
        let (x, hx, hn, hi) = s.names n b h in
        let (y, hy, id, nick) = reloads b x hx in
        (y, hy, nick ∙ hn, ap (λ k. lookup k c.by_id) id ∙ hi);
    below = below_reloaded;
  }
