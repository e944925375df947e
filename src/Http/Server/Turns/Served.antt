-- ===== src/Http/Server/Turns/Served.antt =====
-- HTTPServerSession: what a client gets for a sequence of requests.
use twitch_chat_worker.Base.{
  ◌≡◌, refl, sym, ap, subst, ◌∙◌, ◌⊎◌, inl, inr, Bool, true, false, none, some, List, [], ◌∷◌, ◌++◌,
  map, append-nil, append_assoc, if◌then◌else◌, Bool-cases,
}
use twitch_chat_worker.Base.Key.{Text, text_key, number_key, int_key}
use twitch_chat_worker.Http.{ErrorCode, success, Stream, tcp, ssl, is_error}
use twitch_chat_worker.Http.Server.{
  Message, reading, responding, shutting_down, writing, Session, Event, completes, responds, run,
  start_read, start, handshake, on_shutdown, close, on_read, send, on_write, step, steps,
}
use twitch_chat_worker.Http.Server.Turns.{idle, step-none, step-some, Stream-cases}

-- A request that arrives, and what the handler answers.
abbrev pub Exchange : Type 0
Exchange = Text × Message

-- The session is dispatched, and for SSL shakes hands; then each request is read, answered and the
-- answer written.
abbrev pub opening : Stream → List Event
opening tcp = completes success [] success ∷ []
opening ssl = completes success [] success ∷ completes success [] success ∷ []

abbrev pub exchanged : List Exchange → List Event
exchanged [] = []
exchanged ((request, msg) ∷ xs) =
    completes success request success ∷ responds msg ∷ completes success [] success ∷ exchanged xs

-- The exchanges up to the first whose message ends the connection.
abbrev pub until_eof : List Exchange → List Exchange
until_eof [] = []
until_eof ((request, msg) ∷ xs) = (request, msg) ∷ (if msg.need_eof then [] else until_eof xs)

abbrev pub requests : List Exchange → List Text
requests xs = map (λ x. x.0) xs

abbrev pub messages : List Exchange → List Message
messages xs = map (λ x. x.1) xs

steps-append : (es fs : List Event) (s : Session) → steps (es ++ fs) s ≡ steps fs (steps es s)
unfolding steps
steps-append [] fs s = refl
steps-append (e ∷ es) fs s = steps-append es fs (step e s)

-- The session is ready for a request.
abbrev IsReady : Session → Type 0
IsReady s = s.waiting ≡ some reading

-- A session that has been closed hands over and sends nothing more.
abbrev IsClosed : Session → Type 0
IsClosed s = (s.waiting ≡ none) ⊎ (s.waiting ≡ some shutting_down)

abbrev IsSame : Session → Session → Type 0
IsSame s s' = (s'.handed ≡ s.handed) × (s'.sent ≡ s.sent)

on_shutdown-IsClosed :
    (ec : ErrorCode) (s : Session)
    → IsClosed (on_shutdown ec (idle s)) × IsSame s (on_shutdown ec (idle s))
unfolding on_shutdown
on_shutdown-IsClosed ec s = elim (Bool-cases (is_error ec)) [
  | inl q ↦ rw (q, on_shutdown) (inl refl, (refl, refl))
  | inr q ↦ rw (q, on_shutdown) (inl refl, (refl, refl))
]

close-IsClosed :
    (ec : ErrorCode) (s : Session) → IsClosed (close ec (idle s)) × IsSame s (close ec (idle s))
unfolding close
close-IsClosed ec s = elim (Stream-cases s.stream) [
  | inl q ↦ rw (q, close) (on_shutdown-IsClosed ec s)
  | inr q ↦ rw (q, close) (inr refl, (refl, refl))
]

step-IsClosed : (e : Event) (s : Session) → IsClosed s → IsClosed (step e s) × IsSame s (step e s)
step-IsClosed e s (inl q) =
    subst (λ t. IsClosed t × IsSame s t) (sym (step-none e s q)) (inl q, (refl, refl))
step-IsClosed (completes ec request shutdown_ec) s (inr q) =
    subst (λ t. IsClosed t × IsSame s t)
      (sym (step-some shutting_down (completes ec request shutdown_ec) s q))
      (on_shutdown-IsClosed ec s)
step-IsClosed (responds msg) s (inr q) =
    subst (λ t. IsClosed t × IsSame s t) (sym (step-some shutting_down (responds msg) s q))
      (inr refl, (refl, refl))

steps-IsClosed : (es : List Event) (s : Session) → IsClosed s → IsSame s (steps es s)
unfolding steps
steps-IsClosed [] s h = (refl, refl)
steps-IsClosed (e ∷ es) s h =
    let (closed, (handed, sent)) = step-IsClosed e s h in
    let (handed', sent') = steps-IsClosed es (step e s) closed in (handed' ∙ handed, sent' ∙ sent)

-- The session once the answer has been written.
abbrev answered : Exchange → Session → Session
answered (request, msg) s = record s {
  request = some request;
  response = some msg;
  waiting = none;
  handed = s.handed ++ request ∷ [];
  sent = s.sent ++ msg ∷ [];
}

exchange-steps :
    (request : Text) (msg : Message) (es : List Event) (s : Session)
    → IsReady s
    → steps (exchanged ((request, msg) ∷ []) ++ es) s
      ≡ steps es (on_write msg.need_eof success success (answered (request, msg) s))
unfolding steps on_read send
exchange-steps request msg es s h =
    let read : Session = on_read success request success (idle s) in
    let sent : Session = send msg (idle read) in
    ap (λ t. steps es (step (completes success [] success) (step (responds msg) t)))
      (step-some reading (completes success request success) s h)
    ∙ ap (λ t. steps es (step (completes success [] success) t))
        (step-some responding (responds msg) read refl)
    ∙ ap (steps es) (step-some (writing msg.need_eof) (completes success [] success) sent refl)

on_write-closes :
    (b : Bool) (s : Session) → b ≡ true → on_write b success success s ≡ close success s
unfolding on_write
on_write-closes b s h =
    ap (λ b. if b then close success s else start_read (record s { response = none })) h

on_write-reads :
    (b : Bool) (s : Session)
    → b ≡ false
    → on_write b success success s ≡ start_read (record s { response = none })
unfolding on_write
on_write-reads b s h =
    ap (λ b. if b then close success s else start_read (record s { response = none })) h

abbrev Gets : List Exchange → Session → Session → Type 0
Gets xs s s' =
    (s'.handed ≡ s.handed ++ requests (until_eof xs))
    × (s'.sent ≡ s.sent ++ messages (until_eof xs))

exchanged-closes :
    (request : Text) (msg : Message) (xs : List Exchange) (s : Session)
    → IsReady s
    → msg.need_eof ≡ true
    → Gets ((request, msg) ∷ xs) s (steps (exchanged ((request, msg) ∷ xs)) s)
exchanged-closes request msg xs s h q =
    let done = answered (request, msg) s in
    let to =
      exchange-steps request msg (exchanged xs) s h
      ∙ ap (steps (exchanged xs)) (on_write-closes msg.need_eof done q) in
    let (closed, (kept, kept')) = close-IsClosed success done in
    let (handed, sent) = steps-IsClosed (exchanged xs) (close success done) closed in
    (
      ap (λ t. t.handed) to
          ∙ handed
          ∙ kept
          ∙ ap (λ b. s.handed ++ request ∷ requests (if b then [] else until_eof xs)) (sym q),
      ap (λ t. t.sent) to
          ∙ sent
          ∙ kept'
          ∙ ap (λ b. s.sent ++ msg ∷ messages (if b then [] else until_eof xs)) (sym q),
    )

exchanged-steps :
    (xs : List Exchange) (s : Session) → IsReady s → Gets xs s (steps (exchanged xs) s)
unfolding steps start_read
exchanged-steps [] s h = (sym (append-nil s.handed), sym (append-nil s.sent))
exchanged-steps ((request, msg) ∷ xs) s h = elim (Bool-cases msg.need_eof) [
  | inl q ↦ exchanged-closes request msg xs s h q
  | inr q ↦
      let done = answered (request, msg) s in
      let next = start_read (record done { response = none }) in
      let to =
        exchange-steps request msg (exchanged xs) s h
        ∙ ap (steps (exchanged xs)) (on_write-reads msg.need_eof done q) in
      let (handed, sent) = exchanged-steps xs next refl in
      (
        ap (λ t. t.handed) to
            ∙ handed
            ∙ append_assoc s.handed (request ∷ []) (requests (until_eof xs))
            ∙ ap (λ b. s.handed ++ request ∷ requests (if b then [] else until_eof xs)) (sym q),
        ap (λ t. t.sent) to
            ∙ sent
            ∙ append_assoc s.sent (msg ∷ []) (messages (until_eof xs))
            ∙ ap (λ b. s.sent ++ msg ∷ messages (if b then [] else until_eof xs)) (sym q),
      )
]

opening-IsReady :
    (stream : Stream)
    → (s : Session) × (steps (opening stream) (run stream) ≡ s)
      × IsReady s
      × (s.handed ≡ [])
      × (s.sent ≡ [])
unfolding steps step start start_read handshake
opening-IsReady tcp = (_, refl, refl, refl, refl)
opening-IsReady ssl = (_, refl, refl, refl, refl)

-- On a new session whose operations all succeed, the handler gets the requests in their order and
-- the client the responses, up to and including the first response that ends the connection, and
-- nothing after it.
pub served_lem :
    (stream : Stream) (xs : List Exchange)
    → let s = steps (opening stream ++ exchanged xs) (run stream) in
      (s.handed ≡ requests (until_eof xs)) × (s.sent ≡ messages (until_eof xs))
served_lem stream xs =
    let (s, opened, ready, handed, sent) = opening-IsReady stream in
    let to =
      steps-append (opening stream) (exchanged xs) (run stream)
      ∙ ap (steps (exchanged xs)) opened in
    let (handed', sent') = exchanged-steps xs s ready in
    (
      ap (λ t. t.handed) to ∙ handed' ∙ ap (λ ys. ys ++ requests (until_eof xs)) handed,
      ap (λ t. t.sent) to ∙ sent' ∙ ap (λ ys. ys ++ messages (until_eof xs)) sent,
    )
