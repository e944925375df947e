-- ===== src/Http/Listener.antt =====
-- http/server/HTTPListener.h and .cpp, and HTTPServer::start: the port that is listened on, and the
-- sessions that are run for what connects.
use twitch_chat_worker.Base.{
  ℕ, suc, ◌≡◌, refl, sym, ap, ◌∙◌, inl, inr, Bool, true, false, not, Option, none, some, List, [],
  ◌∷◌, ◌++◌, append-nil, append_assoc, if◌then◌else◌, Bool-cases, replicate,
}
use twitch_chat_worker.Base.Key.{Text, codes, text_key, number_key, int_key}
use twitch_chat_worker.Http.{ErrorCode, Stream, tcp, ssl, Errors, is_error}
use twitch_chat_worker.Http.Server.{Session, run}

pub record Listener : Type 0 where
  -- `ctx` is set
  pub secure : Bool
  -- the acceptor listens
  pub listening : Bool
  -- an `async_accept` has been started that has not completed
  pub accepting : Bool
  -- the sessions that have been run, the first one first
  pub sessions : List Session
  pub errors : Errors

abbrev pub failed : Text → ErrorCode → Listener → Listener
failed context ec l = record l { errors = l.errors ++ (context, ec) ∷ [] }

-- The constructor, by the errors of `open`, `set_option`, `bind` and `listen`.
unfoldable pub new_listener : Bool → ErrorCode → ErrorCode → ErrorCode → ErrorCode → Listener
new_listener secure opened set_option bound listened =
    let l : Listener = record {
      secure = secure;
      listening = false;
      accepting = false;
      sessions = [];
      errors = [];
    } in
    if is_error opened
    then failed (codes "Failed open") opened l
    else if is_error set_option
    then failed (codes "Failed set option") set_option l
    else if is_error bound
    then failed (codes "Failed to bind") bound l
    else if is_error listened
    then failed (codes "Failed to listen") listened l
    else record l { listening = true }

-- `accept`, all that `startAcceptConnections` does
unfoldable pub accept : Listener → Listener
accept l = record l { accepting = true }

abbrev pub stream_of : Bool → Stream
stream_of secure = if secure then ssl else tcp

-- `onAccept`
unfoldable pub on_accept : ErrorCode → Listener → Listener
on_accept ec l =
    let l = record l { accepting = false } in
    if not (is_error ec)
    then accept (record l { sessions = l.sessions ++ run (stream_of l.secure) ∷ [] })
    else failed [] ec l

-- The accept completes, if there is one.
unfoldable pub completes : ErrorCode → Listener → Listener
completes ec l = if l.accepting then on_accept ec l else l

unfoldable pub complete_all : List ErrorCode → Listener → Listener
complete_all [] l = l
complete_all (ec ∷ ecs) l = complete_all ecs (completes ec l)

-- `HTTPServer::start`, by whether the host is an address, and the errors of the acceptor. What the
-- listener has met with is not asked.
unfoldable pub start :
    Bool → ErrorCode → Bool → ErrorCode → ErrorCode → ErrorCode → ErrorCode → Bool × Option Listener
start is_address ec secure opened set_option bound listened =
    if not is_address
    then (false, none)
    else (true, some (accept (new_listener secure opened set_option bound listened)))

-- The connections before the first error.
abbrev pub connected : List ErrorCode → ℕ
connected [] = 0
connected (ec ∷ ecs) = if is_error ec then 0 else suc (connected ecs)

deaf : (ecs : List ErrorCode) (l : Listener) → l.accepting ≡ false → complete_all ecs l ≡ l
unfolding complete_all completes
deaf [] l h = refl
deaf (ec ∷ ecs) l h = ap (complete_all ecs) (shut ec l h) ∙ deaf ecs l h
  where
    shut : (ec : ErrorCode) (l : Listener) → l.accepting ≡ false → completes ec l ≡ l
    shut ec l h = ap (λ b. if b then on_accept ec l else l) h

completes-accepts :
    (ec : ErrorCode) (l : Listener) → l.accepting ≡ true → completes ec l ≡ on_accept ec l
unfolding completes
completes-accepts ec l h = ap (λ b. if b then on_accept ec l else l) h

on_accept-fails :
    (ec : ErrorCode) (l : Listener)
    → is_error ec ≡ true
    → on_accept ec l ≡ failed [] ec (record l { accepting = false })
unfolding on_accept
on_accept-fails ec l h = rw (h, on_accept) refl

on_accept-runs :
    (ec : ErrorCode) (l : Listener)
    → is_error ec ≡ false
    → on_accept ec l
      ≡ record l { accepting = true; sessions = l.sessions ++ run (stream_of l.secure) ∷ [] }
unfolding on_accept accept
on_accept-runs ec l h = rw (h, on_accept) refl

-- While an accept is awaited, a session is run for each connection up to the first error, and for none
-- after it.
pub complete_all-sessions :
    (ecs : List ErrorCode) (l : Listener)
    → l.accepting ≡ true
    → (complete_all ecs l).sessions
      ≡ l.sessions ++ replicate (connected ecs) (run (stream_of l.secure))
unfolding complete_all
complete_all-sessions [] l h = sym (append-nil l.sessions)
complete_all-sessions (ec ∷ ecs) l h =
    let session = run (stream_of l.secure) in
    elim (Bool-cases (is_error ec)) [
      | inl e ↦
          let stopped = failed [] ec (record l { accepting = false }) in
          let to = completes-accepts ec l h ∙ on_accept-fails ec l e in
          ap (λ t. (complete_all ecs t).sessions) to
          ∙ ap (λ t. t.sessions) (deaf ecs stopped refl)
          ∙ sym (append-nil l.sessions)
          ∙ ap (λ b. l.sessions ++ replicate (if b then 0 else suc (connected ecs)) session) (sym e)
      | inr e ↦
          let next : Listener = record l {
            accepting = true;
            sessions = l.sessions ++ session ∷ [];
          } in
          let to = completes-accepts ec l h ∙ on_accept-runs ec l e in
          ap (λ t. (complete_all ecs t).sessions) to
          ∙ complete_all-sessions ecs next refl
          ∙ append_assoc l.sessions (session ∷ []) (replicate (connected ecs) session)
          ∙ ap (λ b. l.sessions ++ replicate (if b then 0 else suc (connected ecs)) session) (sym e)
    ]
