-- ===== src/Http/Client/Handlers.antt =====
-- HTTPClientSession: what each handler starts, and that an error ends the exchange.
use twitch_chat_worker.Base.{
  ℕ, suc, ◌≡◌, refl, sym, ap, ◌∙◌, ◌⊎◌, inl, inr, true, false, Option, none, some, List, [], ◌∷◌,
  ◌++◌, append-nil,
}
use twitch_chat_worker.Base.Key.{text_key, number_key, int_key}
use twitch_chat_worker.Http.{
  ErrorCode, success, eof, not_connected, stream_truncated, timeout, end_of_stream, other_error,
  Stream, tcp, ssl, is_error, Operation, resolve, connect, handshake, read, write, shutdown,
}
use twitch_chat_worker.Http.Client.{
  Session, Completion, on_resolve, on_connect, on_handshake, on_write, on_shutdown, close, on_read,
  handle, complete, complete_all,
}

-- The operations of an exchange, in their order.
abbrev pub path : Stream → List Operation
path tcp = resolve ∷ connect ∷ write ∷ read ∷ shutdown ∷ []
path ssl = resolve ∷ connect ∷ handshake ∷ write ∷ read ∷ shutdown ∷ []

-- Those that complete later.
abbrev pub asyncs : Stream → List Operation
asyncs tcp = resolve ∷ connect ∷ write ∷ read ∷ []
asyncs ssl = path ssl

-- The completions before the first error.
abbrev pub successes : List Completion → ℕ
successes [] = 0
successes (c ∷ cs) = elim (is_error c.ec) [ true ↦ 0 | false ↦ suc (successes cs) ]

pub complete-none : (c : Completion) (s : Session) → s.pending ≡ none → complete c s ≡ s
unfolding complete
complete-none c s h =
    ap (λ p. elim p [ none ↦ s | some op ↦ handle op c (record s { pending = none }) ]) h

pub complete-some :
    (op : Operation) (c : Completion) (s : Session)
    → s.pending ≡ some op
    → complete c s ≡ handle op c (record s { pending = none })
unfolding complete
complete-some op c s h =
    ap (λ p. elim p [ none ↦ s | some op ↦ handle op c (record s { pending = none }) ]) h

pub idle : (cs : List Completion) (s : Session) → s.pending ≡ none → complete_all cs s ≡ s
unfolding complete_all
idle [] s h = refl
idle (c ∷ cs) s h = ap (complete_all cs) (complete-none c s h) ∙ idle cs s h

pub Stream-cases : (st : Stream) → (st ≡ tcp) ⊎ (st ≡ ssl)
Stream-cases tcp = inl refl
Stream-cases ssl = inr refl

pub on_shutdown_lem :
    (ec : ErrorCode) (s : Session)
    → ((on_shutdown ec s).pending ≡ s.pending)
      × ((on_shutdown ec s).started ≡ s.started)
      × ((on_shutdown ec s).stream ≡ s.stream)
unfolding on_shutdown
on_shutdown_lem success s = (refl, refl, refl)
on_shutdown_lem eof s = (refl, refl, refl)
on_shutdown_lem not_connected s = (refl, refl, refl)
on_shutdown_lem stream_truncated s = (refl, refl, refl)
on_shutdown_lem timeout s = (refl, refl, refl)
on_shutdown_lem end_of_stream s = (refl, refl, refl)
on_shutdown_lem (other_error n) s = (refl, refl, refl)

-- An error ends the exchange.
pub handle-fails :
    (op : Operation) (c : Completion) (s : Session)
    → is_error c.ec ≡ true
    → s.pending ≡ none
    → ((handle op c s).pending ≡ none) × ((handle op c s).started ≡ s.started)
unfolding on_resolve on_connect on_handshake on_write on_read
handle-fails resolve c s h e = rw (h) (e, refl)
handle-fails connect c s h e = rw (h) (e, refl)
handle-fails handshake c s h e = rw (h) (e, refl)
handle-fails write c s h e = rw (h) (e, refl)
handle-fails read c s h e = rw (h) (e, refl)
handle-fails shutdown c s h e = let (still, same, _) = on_shutdown_lem c.ec s in (still ∙ e, same)

-- What is started next.
abbrev pub follows : Stream → Operation → List Operation
follows st resolve = connect ∷ []
follows tcp connect = write ∷ []
follows ssl connect = handshake ∷ []
follows st handshake = write ∷ []
follows st write = read ∷ []
follows st read = shutdown ∷ []
follows st shutdown = []

abbrev pub waits_for : Stream → Operation → Option Operation
waits_for st resolve = some connect
waits_for tcp connect = some write
waits_for ssl connect = some handshake
waits_for st handshake = some write
waits_for st write = some read
waits_for tcp read = none
waits_for ssl read = some shutdown
waits_for st shutdown = none

pub handle-succeeds :
    (op : Operation) (c : Completion) (s : Session)
    → is_error c.ec ≡ false
    → s.pending ≡ none
    → ((handle op c s).pending ≡ waits_for s.stream op)
      × ((handle op c s).started ≡ s.started ++ follows s.stream op)
      × ((handle op c s).stream ≡ s.stream)
unfolding on_resolve on_connect on_handshake on_write on_read
handle-succeeds resolve c s h e = rw (h) (refl, refl, refl)
handle-succeeds connect c s h e = elim (Stream-cases s.stream) [
  | inl q ↦ rw (h, q, on_connect) (refl, refl, q)
  | inr q ↦ rw (h, q, on_connect) (refl, refl, q)
]
handle-succeeds handshake c s h e = rw (h) (refl, refl, refl)
handle-succeeds write c s h e = rw (h) (refl, refl, refl)
handle-succeeds read c s h e = elim (Stream-cases s.stream) [
  | inl q ↦
      let closed = record s { response = c.response; started = s.started ++ shutdown ∷ [] } in
      let (still, same, kept) = on_shutdown_lem c.shutdown_ec closed in
      rw (h, q, on_read, close) (still ∙ e, same, kept ∙ q)
  | inr q ↦ rw (h, q, on_read, close) (refl, refl, q)
]
handle-succeeds shutdown c s h e =
    let (still, same, kept) = on_shutdown_lem c.ec s in
    (still ∙ e, same ∙ sym (append-nil s.started), kept)
