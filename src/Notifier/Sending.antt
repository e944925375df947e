-- ===== src/Notifier/Sending.antt =====
-- HttpNotifier: which requests the client is given, and what becomes of them.
use twitch_chat_worker.Base.{
  ◌≡◌, refl, sym, ap, ◌∙◌, inl, inr, true, false, not, Option, none, some, List, [], ◌∷◌, ◌++◌, map,
  append-nil, append_assoc, if◌then◌else◌, Bool-cases, length,
}
use twitch_chat_worker.Base.Key.{Text, codes, text_key, number_key, int_key}
use twitch_chat_worker.Uri.{Uri, empty, get_port, is_empty}
use twitch_chat_worker.Uri.Print.{get_path_and_query}
use twitch_chat_worker.RequestFactory.{Request, request_for}
use twitch_chat_worker.Notifier.{
  Json, Kind, Build, trace, text_body, notify_body, Notifier, can_send_slack, slack_post, text,
  notify, exec, evt_slack_text, evt_slack_notify, so_evt_start, so_evt_finish,
}

-- The messages that the agent handles.
pub data Event : Type 0 where
  slack_text : Text → Event
  slack_notify : Kind → Text → Event

module _ (dump : Json → Text) (build : Build) where
  unfoldable pub handle : Event → Notifier → Notifier
  handle (slack_text message) s = evt_slack_text dump build message s
  handle (slack_notify kind message) s = evt_slack_notify dump build kind message s

  unfoldable pub handle_all : List Event → Notifier → Notifier
  handle_all [] s = s
  handle_all (e ∷ es) s = handle_all es (handle e s)

  -- The agent from its start to its end.
  unfoldable pub life : Uri → List Event → Notifier
  life hook_url es = so_evt_finish dump build (handle_all es (so_evt_start dump build hook_url))

  -- A request to the hook that carries a body.
  abbrev pub posted : Uri → Json → Request
  posted hook_url body = record {
    method = codes "POST";
    target = get_path_and_query hook_url;
    scheme = hook_url.scheme;
    host = hook_url.host;
    port = get_port hook_url;
    version = 11;
    keep_alive = false;
    fields =
        (codes "Host", hook_url.host)
        ∷ (codes "User-Agent", build.user_agent)
        ∷ (codes "Content-Type", codes "application/json")
        ∷ [];
    body = dump body;
    content_length = if is_empty (dump body) then none else some (length (dump body));
  }

  abbrev pub body_of : Event → Json
  body_of (slack_text message) = text_body message
  body_of (slack_notify kind message) = notify_body build.app kind message

  abbrev pub told : Uri → List Event → List (Option Request)
  told hook_url es = map (λ e. some (posted hook_url (body_of e))) es

  slack_post-posted :
      (hook_url : Uri) (body : Json)
      → slack_post dump build hook_url body ≡ some (posted hook_url body)
  unfolding slack_post request_for
  slack_post-posted hook_url body = refl

  exec-sends :
      (r : Option Request) (s : Notifier)
      → can_send_slack s ≡ true
      → exec dump build r s ≡ record s { executed = s.executed ++ r ∷ [] }
  exec-sends r s h = ap (λ b. if b then record s { executed = s.executed ++ r ∷ [] } else s) h

  exec-silent :
      (r : Option Request) (s : Notifier) → can_send_slack s ≡ false → exec dump build r s ≡ s
  exec-silent r s h = ap (λ b. if b then record s { executed = s.executed ++ r ∷ [] } else s) h

  handle-sends :
      (e : Event) (s : Notifier)
      → can_send_slack s ≡ true
      → handle e s ≡ record s { executed = s.executed ++ some (posted s.hook_url (body_of e)) ∷ [] }
  unfolding handle evt_slack_text evt_slack_notify text notify
  handle-sends (slack_text message) s h =
      exec-sends (slack_post dump build s.hook_url (text_body message)) s h
      ∙ ap (λ r. record s { executed = s.executed ++ r ∷ [] })
          (slack_post-posted s.hook_url (text_body message))
  handle-sends (slack_notify kind message) s h =
      exec-sends (slack_post dump build s.hook_url (notify_body build.app kind message)) s h
      ∙ ap (λ r. record s { executed = s.executed ++ r ∷ [] })
          (slack_post-posted s.hook_url (notify_body build.app kind message))

  handle-silent : (e : Event) (s : Notifier) → can_send_slack s ≡ false → handle e s ≡ s
  unfolding handle evt_slack_text evt_slack_notify
  handle-silent (slack_text message) s h = exec-silent (text dump build s.hook_url message) s h
  handle-silent (slack_notify kind message) s h =
      exec-silent (notify dump build s.hook_url kind message) s h

  handle_all-sends :
      (es : List Event) (s : Notifier)
      → can_send_slack s ≡ true
      → handle_all es s ≡ record s { executed = s.executed ++ told s.hook_url es }
  unfolding handle_all can_send_slack
  handle_all-sends [] s h = ap (λ xs. record s { executed = xs }) (sym (append-nil s.executed))
  handle_all-sends (e ∷ es) s h =
      let r = some (posted s.hook_url (body_of e)) in
      let next = record s { executed = s.executed ++ r ∷ [] } in
      ap (handle_all es) (handle-sends e s h)
      ∙ handle_all-sends es next h
      ∙ ap (λ xs. record s { executed = xs })
          (append_assoc s.executed (r ∷ []) (told s.hook_url es))

  handle_all-silent :
      (es : List Event) (s : Notifier) → can_send_slack s ≡ false → handle_all es s ≡ s
  unfolding handle_all
  handle_all-silent [] s h = refl
  handle_all-silent (e ∷ es) s h =
      ap (handle_all es) (handle-silent e s h) ∙ handle_all-silent es s h

  -- The agent's own messages around those that it is sent.
  abbrev pub with_own : List Event → List Event
  with_own es = slack_notify trace build.started ∷ (es ++ slack_notify trace build.finished ∷ [])

  -- The start and the end are notifications like others.
  life-handle_all :
      (hook_url : Uri) (es : List Event)
      → life hook_url es
        ≡ handle_all (with_own es) (record { client = true; hook_url = hook_url; executed = [] })
  unfolding life handle_all handle so_evt_start so_evt_finish evt_slack_notify
  life-handle_all hook_url es =
      sym (handle_all-append es (slack_notify trace build.finished ∷ []) _)
    where
      handle_all-append :
          (xs ys : List Event) (s : Notifier)
          → handle_all (xs ++ ys) s ≡ handle_all ys (handle_all xs s)
      handle_all-append [] ys s = refl
      handle_all-append (x ∷ xs) ys s = handle_all-append xs ys (handle x s)

  -- With a hook, the client is given one request for each message, the two of the agent itself included,
  -- in their order; without one it is given nothing.
  pub life_lem :
      (hook_url : Uri) (es : List Event)
      → (life hook_url es).executed ≡ (if empty hook_url then [] else told hook_url (with_own es))
  unfolding can_send_slack
  life_lem hook_url es =
      let new : Notifier = record { client = true; hook_url = hook_url; executed = [] } in
      let requests = told hook_url (with_own es) in
      let as_one = ap (λ s. s.executed) (life-handle_all hook_url es) in
      elim (Bool-cases (empty hook_url)) [
        | inl h ↦
            as_one
            ∙ ap (λ s. s.executed) (handle_all-silent (with_own es) new (ap not h))
            ∙ ap (λ b. if b then [] else requests) (sym h)
        | inr h ↦
            as_one
            ∙ ap (λ s. s.executed) (handle_all-sends (with_own es) new (ap not h))
            ∙ ap (λ b. if b then [] else requests) (sym h)
      ]
