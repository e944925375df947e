-- ===== src/Http/Client/Exchange.antt =====
-- HTTPClientSession: an exchange as a whole, whatever its completions bring.
use twitch_chat_worker.Base.{
  ℕ, suc, ◌+◌, ◌≤◌, ◌≡◌, refl, sym, ap, ap₂, ◌∙◌, ◌⊎◌, inl, inr, true, false, ◌||◌, none, some,
  List, [], ◌∷◌, ◌++◌, arith, eqb, if◌then◌else◌, Bool-cases, length, get_elem?, get_elem?-none,
  take,
}
use twitch_chat_worker.Base.Key.{codes, text_key, number_key, int_key, ◌==◌}
use twitch_chat_worker.RequestFactory.{Request}
use twitch_chat_worker.Http.{ErrorCode, Stream, tcp, ssl, is_error}
use twitch_chat_worker.Http.Client.{Session, Completion, run, complete, complete_all, exec}
use twitch_chat_worker.Http.Client.Handlers.{
  path, asyncs, successes, complete-none, complete-some, idle, handle-fails, follows, waits_for,
  handle-succeeds,
}
use twitch_chat_worker.Http.Client.Positions.{position}
use twitch_chat_worker.Http.Client.Sent.{sent, HasSent, complete_all-HasSent}

-- The session has started n operations and one more, and waits for the last of them if it can.
record IsAt (st : Stream) (n : ℕ) (s : Session) : Type 0 where
  of_stream : s.stream ≡ st
  so_far : s.started ≡ take (suc n) (path st)
  waits : s.pending ≡ get_elem? (asyncs st) n

complete-IsAt :
    (st : Stream) (n : ℕ) (c : Completion) (s : Session)
    → is_error c.ec ≡ false
    → IsAt st n s
    → IsAt st (suc n) (complete c s)
complete-IsAt st n c s h a = elim (position st n) [
  | inl r ↦
      let waiting = record s { pending = none } in
      let (later, more, same) = handle-succeeds r.op c waiting h refl in
      let next = complete-some r.op c s (a.waits ∙ r.at) in
      record {
        of_stream = ap (λ t. t.stream) next ∙ same ∙ a.of_stream;
        so_far =
            ap (λ t. t.started) next
            ∙ more
            ∙ ap₂ (λ xs st. xs ++ follows st r.op) a.so_far a.of_stream
            ∙ r.longer;
        waits =
            ap (λ t. t.pending) next ∙ later ∙ ap (λ st. waits_for st r.op) a.of_stream ∙ r.awaited;
      }
  | inr e ↦
      let next = complete-none c s (a.waits ∙ e.over) in
      record {
        of_stream = ap (λ t. t.stream) next ∙ a.of_stream;
        so_far = ap (λ t. t.started) next ∙ a.so_far ∙ e.whole;
        waits = ap (λ t. t.pending) next ∙ a.waits ∙ e.over ∙ sym e.stays;
      }
]

-- After an error the session does nothing more.
complete-fails :
    (st : Stream) (n : ℕ) (c : Completion) (s : Session)
    → is_error c.ec ≡ true
    → IsAt st n s
    → ((complete c s).pending ≡ none) × ((complete c s).started ≡ take (suc n) (path st))
complete-fails st n c s h a = elim (position st n) [
  | inl r ↦
      let (still, same) = handle-fails r.op c (record s { pending = none }) h refl in
      let next = complete-some r.op c s (a.waits ∙ r.at) in
      (ap (λ t. t.pending) next ∙ still, ap (λ t. t.started) next ∙ same ∙ a.so_far)
  | inr e ↦
      let next = complete-none c s (a.waits ∙ e.over) in
      (ap (λ t. t.pending) next ∙ a.waits ∙ e.over, ap (λ t. t.started) next ∙ a.so_far)
]

-- What the session has started by the end, and that it waits for nothing after an error or behind
-- the end of the path.
abbrev Exchanged : Stream → ℕ → List Completion → Session → Type 0
Exchanged st n cs s =
    (s.started ≡ take (suc (n + successes cs)) (path st))
    × ((s.pending ≡ none) ⊎ (s.pending ≡ get_elem? (asyncs st) (n + length cs)))

successes-error :
    (c : Completion) (cs : List Completion) → is_error c.ec ≡ true → successes (c ∷ cs) ≡ 0
successes-error c cs h = ap (λ b. elim b [ true ↦ 0 | false ↦ suc (successes cs) ]) h

successes-success :
    (c : Completion) (cs : List Completion)
    → is_error c.ec ≡ false
    → successes (c ∷ cs) ≡ suc (successes cs)
successes-success c cs h = ap (λ b. elim b [ true ↦ 0 | false ↦ suc (successes cs) ]) h

complete_all-IsAt :
    (st : Stream) (n : ℕ) (cs : List Completion) (s : Session)
    → IsAt st n s
    → Exchanged st n cs (complete_all cs s)
unfolding complete_all
complete_all-IsAt st n [] s a =
    let here : n ≡ n + 0 = omega arith in
    (
      a.so_far ∙ ap (λ k. take (suc k) (path st)) here,
      inr (a.waits ∙ ap (get_elem? (asyncs st)) here),
    )
complete_all-IsAt st n (c ∷ cs) s a = elim (Bool-cases (is_error c.ec)) [
  | inl h ↦
      let (still, same) = complete-fails st n c s h a in
      let done = idle cs (complete c s) still in
      let here : n ≡ n + successes (c ∷ cs) = omega (arith, successes-error c cs h) in
      (
        ap (λ t. t.started) done ∙ same ∙ ap (λ k. take (suc k) (path st)) here,
        inl (ap (λ t. t.pending) done ∙ still),
      )
  | inr h ↦
      let rest = complete_all-IsAt st (suc n) cs (complete c s) (complete-IsAt st n c s h a) in
      let here : suc n + successes cs ≡ n + successes (c ∷ cs) =
        omega (arith, successes-success c cs h) in
      let end : suc n + length cs ≡ n + length (c ∷ cs) = omega arith in
      (
        rest.0 ∙ ap (λ k. take (suc k) (path st)) here,
        elim rest.1 [ inl p ↦ inl p | inr p ↦ inr (p ∙ ap (get_elem? (asyncs st)) end) ],
      )
]

-- Where `exec` begins, when the host name can be set.
abbrev pub stream_for : Request → Stream
stream_for request = if request.scheme == codes "https" || eqb request.port 443 then ssl else tcp

exec-IsAt :
    (request : Request) (ec : ErrorCode) → IsAt (stream_for request) 0 (exec true ec request)
unfolding exec run
exec-IsAt request ec = elim (Bool-cases (request.scheme == codes "https" || eqb request.port 443)) [
  | inl h ↦ rw (h) (record { of_stream = refl; so_far = refl; waits = refl })
  | inr h ↦ rw (h) (record { of_stream = refl; so_far = refl; waits = refl })
]

run-HasSent : (request : Request) (ec : ErrorCode) → HasSent request (exec true ec request)
unfolding exec run
run-HasSent request ec =
    elim (Bool-cases (request.scheme == codes "https" || eqb request.port 443)) [
      | inl h ↦ rw (h) (refl, refl)
      | inr h ↦ rw (h) (refl, refl)
    ]

-- If the host name can be set, then for any completions the operations that have been started are
-- the exchange's operations for TCP or SSL in their order, one more than there were successes
-- before the first error, the request has been given to each write among them and to nothing else,
-- and the session waits for nothing or for the operation at the place that the number of
-- completions gives.
pub exec_lem :
    (request : Request) (ec : ErrorCode) (cs : List Completion)
    → let s = complete_all cs (exec true ec request) in
      (s.started ≡ take (suc (successes cs)) (path (stream_for request)))
      × (s.written ≡ sent (some request) s.started)
      × ((s.pending ≡ none) ⊎ (s.pending ≡ get_elem? (asyncs (stream_for request)) (length cs)))
exec_lem request ec cs =
    let (started, pending) =
      complete_all-IsAt (stream_for request) 0 cs (exec true ec request) (exec-IsAt request ec) in
    let plain : (n : ℕ) → 0 + n ≡ n = λ n. omega arith in
    (
      started ∙ ap (λ k. take (suc k) (path (stream_for request))) (plain (successes cs)),
      (complete_all-HasSent request cs (exec true ec request) (run-HasSent request ec)).1,
      elim pending [
        | inl p ↦ inl p
        | inr p ↦ inr (p ∙ ap (get_elem? (asyncs (stream_for request))) (plain (length cs)))
      ],
    )

-- Six completions end every exchange.
exec_ends :
    (request : Request) (ec : ErrorCode) (cs : List Completion)
    → 6 ≤ length cs
    → (complete_all cs (exec true ec request)).pending ≡ none
exec_ends request ec cs h = elim (exec_lem request ec cs).2 [
  | inl p ↦ p
  | inr p ↦ p ∙ beyond (stream_for request) (length cs) h
]
  where
    beyond : (st : Stream) (n : ℕ) → 6 ≤ n → get_elem? (asyncs st) n ≡ none
    beyond tcp n h = get_elem?-none (asyncs tcp) n (omega arith)
    beyond ssl n h = get_elem?-none (asyncs ssl) n (omega arith)
