-- ===== src/Bots/Deliveries.antt =====
-- Which handlers get a chat message after a bot has been removed or added.
use twitch_chat_worker.Base.{
  ℕ, ◌≡◌, ◌<◌, refl, ap, sym, ◌∙◌, not, ◌&&◌, true, false, Option-cases, inl, inr, some, List, [],
  ◌∷◌, ◌++◌, append_assoc, append-nil, eqb, if◌then◌else◌, arith, Bool, ◌||◌, Bool-cases, filter,
}
use twitch_chat_worker.Base.Int.{ℤ, pos}
use twitch_chat_worker.DbController.BotRows.{HandlerConfig, BotConfig}
use twitch_chat_worker.MessageProcessor.{ChatMessage}
use twitch_chat_worker.Base.Key.{Text, text_key, number_key, int_key, ◌==◌, eq_iff, eq_refl}
use twitch_chat_worker.Base.Dict.{lookup, emplace, has, lookup-emplace}
use twitch_chat_worker.Bots.{
  Engine, Environment, Delivery, handler_type, load_handlers, new_engine, shut_down, add_bot,
  remove_id, ignored, each_handler, evt_bot_message, send_to_box, evt_chat_message,
}

-- The handlers of one engine that get a message.
abbrev pub delivered_to : ℕ → List Delivery → List HandlerConfig
delivered_to b [] = []
delivered_to b (d ∷ ds) =
    if eqb d.engine b then d.handler ∷ delivered_to b ds else delivered_to b ds

delivered_to-append :
    (b : ℕ) (xs ys : List Delivery)
    → delivered_to b (xs ++ ys) ≡ delivered_to b xs ++ delivered_to b ys
delivered_to-append b [] ys = refl
delivered_to-append b (d ∷ xs) ys = ground (arith, delivered_to-append b xs ys)

delivered_to-each_handler :
    (a b : ℕ) (config : BotConfig) (hs : List HandlerConfig)
    → delivered_to b (each_handler a config hs) ≡ (if eqb a b then hs else [])
unfolding each_handler
delivered_to-each_handler a b config [] = ground arith
delivered_to-each_handler a b config (h ∷ hs) =
    ground (arith, delivered_to-each_handler a b config hs)

delivered_to-evt_bot_message :
    (b : ℕ) (m : ChatMessage) (e : Engine)
    → delivered_to b (evt_bot_message m e)
      ≡ (if m.user == e.config.account then [] else if eqb e.address b then e.handlers else [])
unfolding evt_bot_message
delivered_to-evt_bot_message b m e =
    ground (arith, delivered_to-each_handler e.address b e.config e.handlers)

send_to_box-shut_down :
    (a b : ℕ) (m : ChatMessage) (es : List Engine)
    → delivered_to b (send_to_box m (shut_down a es))
      ≡ (if eqb a b then [] else delivered_to b (send_to_box m es))
unfolding send_to_box shut_down
send_to_box-shut_down a b m [] = ground arith
send_to_box-shut_down a b m (e ∷ es) = ground (
  arith,
  delivered_to-evt_bot_message b m e,
  delivered_to-append b (evt_bot_message m e) (send_to_box m es),
  delivered_to-append b (evt_bot_message m e) (send_to_box m (shut_down a es)),
  send_to_box-shut_down a b m es,
)

-- Once a bot has been removed, no handler of its engine gets a message any more, and every other
-- engine's handlers get the messages that they got before.
pub remove_id-delivered_to :
    (id : ℤ) (a b : ℕ) (m : ChatMessage) (env : Environment)
    → lookup id env.bots_by_id ≡ some a
    → delivered_to b (evt_chat_message m (remove_id id env).1)
      ≡ (if eqb a b then [] else delivered_to b (evt_chat_message m env))
unfolding remove_id evt_chat_message lookup
remove_id-delivered_to id a b m env h =
    rw (h) (ground (arith, send_to_box-shut_down a b m env.engines))

-- No engine has an address that is still to be given out.
abbrev pub AllBelow : ℕ → List Engine → Type 0
AllBelow n [] = Unit
AllBelow n (e ∷ es) = (e.address < n) × AllBelow n es

send_to_box-fresh :
    (n : ℕ) (m : ChatMessage) (es : List Engine)
    → AllBelow n es
    → delivered_to n (send_to_box m es) ≡ []
unfolding send_to_box
send_to_box-fresh n m [] h = refl
send_to_box-fresh n m (e ∷ es) (p, h) = ground (
  arith,
  p,
  delivered_to-evt_bot_message n m e,
  delivered_to-append n (evt_bot_message m e) (send_to_box m es),
  send_to_box-fresh n m es h,
)

pub send_to_box-append :
    (m : ChatMessage) (xs ys : List Engine)
    → send_to_box m (xs ++ ys) ≡ send_to_box m xs ++ send_to_box m ys
unfolding send_to_box
send_to_box-append m [] ys = refl
send_to_box-append m (e ∷ es) ys = ground (
  arith,
  send_to_box-append m es ys,
  append_assoc (evt_bot_message m e) (send_to_box m es) (send_to_box m ys),
)

send_to_box-new_engine :
    (n : ℕ) (config : BotConfig) (m : ChatMessage)
    → m.channel ≡ config.channel
    → (m.user == config.account) ≡ false
    → delivered_to n (send_to_box m (new_engine n config.channel config ∷ []))
      ≡ load_handlers config.handlers
unfolding send_to_box new_engine
send_to_box-new_engine n config m h k =
    (let e = new_engine n config.channel config in
      let here : (config.channel == m.channel) ≡ true =
        (eq_iff config.channel m.channel).1 (sym h) in
      ground (arith, here, k, append-nil (evt_bot_message m e), delivered_to-evt_bot_message n m e))

-- A handler whose type is 1, for Lua, or 2, for a command.
abbrev pub is_known : HandlerConfig → Bool
is_known h = h.type_id == pos 1 || h.type_id == pos 2

pub load_handlers-filter : (hs : List HandlerConfig) → load_handlers hs ≡ filter is_known hs
unfolding load_handlers handler_type
load_handlers-filter [] = refl
load_handlers-filter (h ∷ hs) = elim (Bool-cases (h.type_id == pos 1)) [
  | inl e ↦ rw (e, load_handlers) (ap (λ rest. h ∷ rest) (load_handlers-filter hs))
  | inr e ↦ elim (Bool-cases (h.type_id == pos 2)) [
    | inl k ↦ rw (e, k, load_handlers) (ap (λ rest. h ∷ rest) (load_handlers-filter hs))
    | inr k ↦ rw (e, k, load_handlers) (load_handlers-filter hs)
  ]
]

has_box :
    (config : BotConfig) (env : Environment)
    → (box : Text) × (lookup config.channel (add_bot config env).bot_boxes ≡ some box)
unfolding add_bot has
has_box config env = elim (Option-cases (lookup config.channel env.bot_boxes)) [
  | inl p ↦ (config.channel, ground (arith, p, eq_refl config.channel, emplaced))
  | inr (box, p) ↦ (box, ground (arith, p, emplaced))
]
  where
    emplaced : lookup config.channel (emplace config.channel config.channel env.bot_boxes) ≡ (
        if not (has config.channel env.bot_boxes) && (config.channel == config.channel)
        then some config.channel
        else lookup config.channel env.bot_boxes)
    emplaced = lookup-emplace config.channel config.channel config.channel env.bot_boxes

-- Where every running engine has an address below the next one, a bot that has been added gets
-- each valid message to its channel whose author is neither a service account nor the bot's own
-- account, on each handler whose type is 1 (Lua) or 2 (command), in the order of its
-- configuration.
pub add_bot-delivered_to :
    (config : BotConfig) (m : ChatMessage) (env : Environment)
    → AllBelow env.fresh env.engines
    → m.valid ≡ true
    → m.channel ≡ config.channel
    → ignored m.user env.ignore_users ≡ false
    → (m.user == config.account) ≡ false
    → delivered_to env.fresh (evt_chat_message m (add_bot config env))
      ≡ filter is_known config.handlers
unfolding evt_chat_message add_bot
add_bot-delivered_to config m env below v h i k =
    (let (box, found) = has_box config env in
      let env' = add_bot config env in
      let e = new_engine env.fresh config.channel config in
      let there : lookup m.channel env'.bot_boxes ≡ some box =
        ap (λ c. lookup c env'.bot_boxes) h ∙ found in
      ground (
        arith,
        v,
        i,
        there,
        send_to_box-append m env.engines (e ∷ []),
        delivered_to-append env.fresh (send_to_box m env.engines) (send_to_box m (e ∷ [])),
        send_to_box-fresh env.fresh m env.engines below,
        send_to_box-new_engine env.fresh config m h k,
        load_handlers-filter config.handlers,
      ))
