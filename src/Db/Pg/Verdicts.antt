-- ===== src/Db/Pg/Verdicts.antt =====
-- PGConnection::request: when a request succeeds.
use twitch_chat_worker.Base.{
  ℕ, ◌≡◌, refl, ap, subst, ◌∙◌, ◌↔◌, ◌⊎◌, inl, inr, Bool, true, false, List, [], ◌∷◌, ◌++◌, All,
}
use twitch_chat_worker.Base.Key.{text_key, number_key, int_key}
use twitch_chat_worker.Db.Pg.{
  Status, tuples_ok, fatal_error, other_status, Response, Connection, timed, judge, each_result,
  request,
}

abbrev pub AllOther : List Response → Type 0
AllOther resps = All (λ resp. resp.status ≡ other_status) resps

-- The last result that is a table or an error is a table.
pub record EndsWithTable (resps : List Response) : Type 0 where
  pub before : List Response
  pub last : Response
  pub after : List Response
  pub split : resps ≡ before ++ last ∷ after
  pub is_table : last.status ≡ tuples_ok
  pub others : AllOther after

Status-cases : (s : Status) → (s ≡ tuples_ok) ⊎ ((s ≡ fatal_error) ⊎ (s ≡ other_status))
Status-cases tuples_ok = inl refl
Status-cases fatal_error = inr (inl refl)
Status-cases other_status = inr (inr refl)

pub false≢true : ¬ (false ≡ true)
false≢true h = cc h

-- The verdict over the results so far stays, or the rest decides it.
each_result-true :
    (first : ℕ) (resps : List Response) (r : Bool × Connection)
    → (each_result first resps r).0 ≡ true
    → ((r.0 ≡ true) × AllOther resps) ⊎ EndsWithTable resps
unfolding each_result
each_result-true first [] r h = inl (h, tt)
each_result-true first (resp ∷ resps) r h =
    elim (each_result-true first resps (judge resp.status (r.0, timed first resp r.1)) h) [
      | inl (p, others) ↦ decided resp resps r first p others
      | inr e ↦ inr (record {
        before = resp ∷ e.before;
        last = e.last;
        after = e.after;
        split = ap (◌∷◌ resp) e.split;
        is_table = e.is_table;
        others = e.others;
      })
    ]
  where
    decided :
        (resp : Response) (resps : List Response) (r : Bool × Connection) (first : ℕ)
        → (judge resp.status (r.0, timed first resp r.1)).0 ≡ true
        → AllOther resps
        → ((r.0 ≡ true) × AllOther (resp ∷ resps)) ⊎ EndsWithTable (resp ∷ resps)
    decided resp resps r first p others = elim (Status-cases resp.status) [
      | inl e ↦ inr (record {
        before = [];
        last = resp;
        after = resps;
        split = refl;
        is_table = e;
        others = others;
      })
      | inr (inl e) ↦
          absurd (false≢true (subst (λ st. (judge st (r.0, timed first resp r.1)).0 ≡ true) e p))
      | inr (inr e) ↦
          inl (subst (λ st. (judge st (r.0, timed first resp r.1)).0 ≡ true) e p, (e, others))
    ]

each_result-other :
    (first : ℕ) (resps : List Response) (r : Bool × Connection)
    → AllOther resps
    → (each_result first resps r).0 ≡ r.0
unfolding each_result
each_result-other first [] r others = refl
each_result-other first (resp ∷ resps) r (other, others) =
    each_result-other first resps (judge resp.status (r.0, timed first resp r.1)) others
    ∙ ap (λ st. (judge st (r.0, timed first resp r.1)).0) other

each_result-append :
    (first : ℕ) (before resps : List Response) (r : Bool × Connection)
    → each_result first (before ++ resps) r ≡ each_result first resps (each_result first before r)
unfolding each_result
each_result-append first [] resps r = refl
each_result-append first (resp ∷ before) resps r =
    each_result-append first before resps (judge resp.status (r.0, timed first resp r.1))

each_result-table :
    (first : ℕ) (last : Response) (after : List Response) (r : Bool × Connection)
    → last.status ≡ tuples_ok
    → AllOther after
    → (each_result first (last ∷ after) r).0 ≡ true
unfolding each_result
each_result-table first last after r is_table others =
    each_result-other first after (judge last.status (r.0, timed first last r.1)) others
    ∙ ap (λ st. (judge st (r.0, timed first last r.1)).0) is_table

each_result-EndsWithTable :
    (first : ℕ) (resps : List Response) (r : Bool × Connection)
    → EndsWithTable resps
    → (each_result first resps r).0 ≡ true
each_result-EndsWithTable first resps r e =
    rw (e.split, each_result-append first e.before (e.last ∷ e.after) r)
      (each_result-table first e.last e.after (each_result first e.before r) e.is_table e.others)

pub request_iff :
    (first : ℕ) (resps : List Response) (s : Connection)
    → ((request first resps s).0 ≡ true) ↔ EndsWithTable resps
unfolding request
request_iff first resps s = (only, each_result-EndsWithTable first resps (false, s))
  where
    only : (each_result first resps (false, s)).0 ≡ true → EndsWithTable resps
    only h = elim (each_result-true first resps (false, s) h) [
      | inl (p, others) ↦ absurd (false≢true p)
      | inr e ↦ e
    ]
