-- ===== src/Http/Client/Sent.antt =====
-- HTTPClientSession: the request is given to each write, and to nothing else.
use twitch_chat_worker.Base.{
  ◌≡◌, refl, sym, ap, ap₂, subst, ◌∙◌, inl, inr, Option, none, some, List, [], ◌∷◌, ◌++◌,
  append-nil, Bool-cases, Option-cases,
}
use twitch_chat_worker.Base.Key.{text_key, number_key, int_key}
use twitch_chat_worker.RequestFactory.{Request}
use twitch_chat_worker.Http.{
  ErrorCode, success, eof, not_connected, stream_truncated, timeout, end_of_stream, other_error,
  is_error, Operation, resolve, connect, handshake, read, write, shutdown,
}
use twitch_chat_worker.Http.Client.{
  Session, Completion, on_resolve, on_connect, on_handshake, on_write, on_shutdown, close, on_read,
  handle, start_write, complete, complete_all,
}
use twitch_chat_worker.Http.Client.Handlers.{complete-none, complete-some, Stream-cases}

-- What is given to the writes among the operations.
abbrev pub sent : Option Request → List Operation → List (Option Request)
sent request [] = []
sent request (write ∷ ops) = request ∷ sent request ops
sent request (op ∷ ops) = sent request ops

sent-append :
    (request : Option Request) (xs ys : List Operation)
    → sent request (xs ++ ys) ≡ sent request xs ++ sent request ys
sent-append request [] ys = refl
sent-append request (resolve ∷ xs) ys = sent-append request xs ys
sent-append request (connect ∷ xs) ys = sent-append request xs ys
sent-append request (handshake ∷ xs) ys = sent-append request xs ys
sent-append request (read ∷ xs) ys = sent-append request xs ys
sent-append request (write ∷ xs) ys = ap (◌∷◌ request) (sent-append request xs ys)
sent-append request (shutdown ∷ xs) ys = sent-append request xs ys

abbrev pub HasSent : Request → Session → Type 0
HasSent request s = (s.request ≡ some request) × (s.written ≡ sent (some request) s.started)

on_shutdown-HasSent :
    (request : Request) (ec : ErrorCode) (s : Session)
    → HasSent request s
    → HasSent request (on_shutdown ec s)
unfolding on_shutdown
on_shutdown-HasSent request success s h = h
on_shutdown-HasSent request eof s h = h
on_shutdown-HasSent request not_connected s h = h
on_shutdown-HasSent request stream_truncated s h = h
on_shutdown-HasSent request timeout s h = h
on_shutdown-HasSent request end_of_stream s h = h
on_shutdown-HasSent request (other_error n) s h = h

-- Another operation than a write.
started-HasSent :
    (request : Request) (op : Operation) (s : Session)
    → sent (some request) (op ∷ []) ≡ []
    → HasSent request s
    → HasSent request (record s { started = s.started ++ op ∷ [] })
started-HasSent request op s none_sent (r, w) = (
  r,
  w
      ∙ sym (
          sent-append (some request) s.started (op ∷ [])
          ∙ ap (◌++◌ (sent (some request) s.started)) none_sent
          ∙ append-nil (sent (some request) s.started)),
)

write-HasSent :
    (request : Request) (s : Session) → HasSent request s → HasSent request (start_write s)
write-HasSent request s (r, w) =
    (r, ap₂ (λ xs x. xs ++ x ∷ []) w r ∙ sym (sent-append (some request) s.started (write ∷ [])))

handle-HasSent :
    (request : Request) (op : Operation) (c : Completion) (s : Session)
    → HasSent request s
    → HasSent request (handle op c s)
unfolding on_resolve on_connect on_handshake on_write on_read
handle-HasSent request resolve c s h = elim (Bool-cases (is_error c.ec)) [
  | inl e ↦ rw (e, on_resolve) h
  | inr e ↦ rw (e, on_resolve) (started-HasSent request connect s refl h)
]
handle-HasSent request connect c s h = elim (Bool-cases (is_error c.ec)) [
  | inl e ↦ rw (e, on_connect) h
  | inr e ↦ elim (Stream-cases s.stream) [
    | inl q ↦ rw (e, q, on_connect) (write-HasSent request s h)
    | inr q ↦ rw (e, q, on_connect) (started-HasSent request handshake s refl h)
  ]
]
handle-HasSent request handshake c s h = elim (Bool-cases (is_error c.ec)) [
  | inl e ↦ rw (e, on_handshake) h
  | inr e ↦ rw (e, on_handshake) (write-HasSent request s h)
]
handle-HasSent request write c s h = elim (Bool-cases (is_error c.ec)) [
  | inl e ↦ rw (e, on_write) h
  | inr e ↦ rw (e, on_write) (started-HasSent request read s refl h)
]
handle-HasSent request read c s h = elim (Bool-cases (is_error c.ec)) [
  | inl e ↦ rw (e, on_read) h
  | inr e ↦ elim (Stream-cases s.stream) [
    | inl q ↦
        rw (e, q, on_read, close)
          (on_shutdown-HasSent request c.shutdown_ec _ (started-HasSent request shutdown s refl h))
    | inr q ↦ rw (e, q, on_read, close) (started-HasSent request shutdown s refl h)
  ]
]
handle-HasSent request shutdown c s h = on_shutdown-HasSent request c.ec s h

complete-HasSent :
    (request : Request) (c : Completion) (s : Session)
    → HasSent request s
    → HasSent request (complete c s)
complete-HasSent request c s h = elim (Option-cases s.pending) [
  | inl e ↦ subst (HasSent request) (sym (complete-none c s e)) h
  | inr (op, e) ↦
      subst (HasSent request) (sym (complete-some op c s e))
        (handle-HasSent request op c (record s { pending = none }) h)
]

pub complete_all-HasSent :
    (request : Request) (cs : List Completion) (s : Session)
    → HasSent request s
    → HasSent request (complete_all cs s)
unfolding complete_all
complete_all-HasSent request [] s h = h
complete_all-HasSent request (c ∷ cs) s h =
    complete_all-HasSent request cs (complete c s) (complete-HasSent request c s h)
