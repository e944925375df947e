-- ===== src/Irc/Client/Live.antt =====
-- The session pointers in the channel list of `IRCClient`, and what the client's steps do to them.
pub mod Channels
pub mod Steps
pub mod Events
use twitch_chat_worker.Base.{
  ℕ, zero, suc, ◌≡◌, refl, ap, sym, subst, ◌∙◌, ◌⊎◌, inl, inr, Bool, true, false, Bool-cases,
  Option-cases, List, [], ◌∷◌, ◌++◌, map, Option, none, some, eqb, if◌then◌else◌, arith,
}
use twitch_chat_worker.Base.Fault.{OnSome, OnSome-bind, OnSome-map, OnSome-any, ◌>>=◌}
use twitch_chat_worker.Base.Key.{Text}
use twitch_chat_worker.Irc.Session.{Session, Net, Effect}
use twitch_chat_worker.Irc.Client.State.{
  Client, Step, find_session, put_session, on_session, modify, for_each, forget,
}

abbrev pub addresses : List Session → List ℕ
addresses [] = []
addresses (s ∷ ss) = s.address ∷ addresses ss

-- The sessions are those of before, in other states, and the channels are the same.
abbrev pub Same : Client → Client → Type 0
Same c c' = (addresses c'.sessions ≡ addresses c.sessions) × (c'.channels ≡ c.channels)

pub Same-trans : (c d e : Client) → Same c d → Same d e → Same c e
Same-trans c d e (p, q) (r, s) = (r ∙ p, s ∙ q)

pub addresses-put_session :
    (s : Session) (ss : List Session) → addresses (put_session s ss) ≡ addresses ss
unfolding put_session
addresses-put_session s [] = refl
addresses-put_session s (t ∷ ts) = ground (arith, addresses-put_session s ts)

-- A method call on a session leaves `Same` state, whatever it returns.
pub on_session-Same :
    {R : Type 0} (a : ℕ) (f : Session → R × Session × List Effect) (c : Client)
    → OnSome (λ r. Same c r.1) (on_session a f c)
unfolding on_session
on_session-Same a f c = elim (Option-cases (find_session a c.sessions)) [
  | inl p ↦ rw (p) tt
  | inr (s, p) ↦ rw (p) (addresses-put_session (f s).1 c.sessions, refl)
]

pub modify-Same :
    (a : ℕ) (f : Session → Session × List Effect) (c : Client)
    → OnSome (λ r. Same c r.0) (modify a f c)
unfolding modify
modify-Same a f c = elim (Option-cases (find_session a c.sessions)) [
  | inl p ↦ rw (p) tt
  | inr (s, p) ↦ rw (p) (addresses-put_session (f s).0 c.sessions, refl)
]

pub forget-Same :
    (c : Client) (r : Option (Bool × Client × List Effect))
    → OnSome (λ x. Same c x.1) r
    → OnSome (λ x. Same c x.0) (forget r)
unfolding forget
forget-Same c none h = tt
forget-Same c (some x) h = h

pub for_each-Same :
    {A : Type 0} (xs : List A) (f : A → Client → Step)
    → ((x : A) (c : Client) → OnSome (λ r. Same c r.0) (f x c))
    → (c : Client) → OnSome (λ r. Same c r.0) (for_each xs f c)
unfolding for_each
for_each-Same [] f h c = (refl, refl)
for_each-Same (x ∷ xs) f h c = elim (Option-cases (f x c)) [
  | inl p ↦ rw (p) tt
  | inr ((c', out), p) ↦
      let first : Same c c' = subst (OnSome (λ r. Same c r.0)) p (h x c) in
      elim (Option-cases (for_each xs f c')) [
        | inl q ↦ rw (p) (rw (q) tt)
        | inr ((c'', out'), q) ↦
            let second : Same c' c'' =
              subst (OnSome (λ r. Same c' r.0)) q (for_each-Same xs f h c') in
            rw (p) (rw (q) (Same-trans c c' c'' first second))
      ]
]
