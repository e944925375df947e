-- ===== src/Notifier.antt =====
-- HttpNotifier.h and HttpNotifier.cpp: messages to Slack. A body is what the JSON library is given to
-- dump.
pub mod Sending
use twitch_chat_worker.Base.{
  ℕ, zero, suc, ◌+◌, ◌-◌, ◌*◌, ◌/◌, ◌%◌, ◌^◌, ◌≤◌, ◌<◌, ◌≡◌, refl, sym, ap, ap₂, subst, ◌∙◌, ◌≢◌,
  ◌↔◌, ◌⊎◌, inl, inr, Bool, true, false, ◌&&◌, ◌||◌, not, Option, none, some, List, [], ◌∷◌, ◌++◌,
  map, append-nil, append_assoc, arith, u32_mod, add32, ltb, leb, eqb, if◌then◌else◌, Bool-cases,
  Option-cases, eqb_iff, length, replicate, take-all, length-append, length-replicate, max,
  get_elem?, get_elem?-none, drop, take, filter, All, All-append,
}
use twitch_chat_worker.Base.Key.{Text, codes, text_key, number_key, int_key, ◌==◌, eq_iff, eq_refl}
use twitch_chat_worker.Base.Int.{ℤ, pos, negsuc}
use twitch_chat_worker.Base.Dict.{
  Dict, lookup, has, insert_at, emplace, update, erase, lookup-emplace, lookup-update, lookup-erase,
  value_or, lookup-update-emplace,
}
use twitch_chat_worker.Base.Fault.{◌>>=◌, OnSome, OnSome-bind, OnSome-any, OnSome-map}
use twitch_chat_worker.Base
use twitch_chat_worker.Uri.{Uri, empty}
use twitch_chat_worker.RequestFactory.{Request, post, typed_text, request_for}

mutual
  pub data Json : Type 0 where
    string : Text → Json
    object : Fields → Json
    array : Items → Json

  pub data Fields : Type 0 where
    no_fields : Fields
    field : Text → Json → Fields → Fields

  pub data Items : Type 0 where
    no_items : Items
    item : Json → Items → Items

-- `SlackNotifier::Type`, and a value that is none of them.
pub data Kind : Type 0 where
  error warning info trace other : Kind

-- `getColor`
unfoldable pub get_color : Kind → Text
get_color error = codes "#dc3545"
get_color warning = codes "#ffc107"
get_color info = codes "#17a2b8"
get_color trace = codes "#6c757d"
get_color other = codes "#f8f9fa"

-- `getTypeStr`
unfoldable pub get_type_str : Kind → Text
get_type_str error = codes "error"
get_type_str warning = codes "warn"
get_type_str info = codes "info"
get_type_str trace = codes "trace"
get_type_str other = codes "other"

-- Objects of one and of two fields.
abbrev pub one : Text → Json → Json
one name value = object (field name value no_fields)

abbrev pub two : Text → Json → Text → Json → Json
two name value name' value' = object (field name value (field name' value' no_fields))

-- `body` of `text`
unfoldable pub text_body : Text → Json
text_body text = one (codes "text") (string text)

-- `body` of `notify`; `app` is the text that the build makes of the name, version and hash.
unfoldable pub notify_body : Text → Kind → Text → Json
notify_body app kind text =
    let section : Json =
      two (codes "type") (string (codes "section")) (codes "text")
        (two (codes "type") (string (codes "plain_text")) (codes "text") (string text)) in
    let markdown : Text → Json =
      λ line. two (codes "type") (string (codes "mrkdwn")) (codes "text") (string line) in
    let context : Json = two (codes "type") (string (codes "context")) (codes "elements") (
      array
        (item (markdown app) (item (markdown (codes "*Type*: " ++ get_type_str kind)) no_items))) in
    one (codes "attachments") (
      array (
        item
          (two (codes "color") (string (get_color kind)) (codes "blocks")
            (array (item section (item context no_items))))
          no_items))

-- The agent: `client` is set, the hook of `slack`, and the requests that the client has been given.
pub record Notifier : Type 0 where
  pub client : Bool
  pub hook_url : Uri
  pub executed : List (Option Request)

-- `canSendSlack`
unfoldable pub can_send_slack : Notifier → Bool
can_send_slack s = s.client && not (empty s.hook_url)

-- The texts that the build makes: the library's version, the name with version and hash, and the two
-- messages of the agent itself.
pub record Build : Type 0 where
  pub user_agent : Text
  pub app : Text
  pub started : Text
  pub finished : Text

-- `dump` is `json::dump`.
module _ (dump : Json → Text) (build : Build) where
  -- `HTTPRequestFactory::Post(hookUrl, body.dump(), "application/json")`
  unfoldable pub slack_post : Uri → Json → Option Request
  slack_post hook_url body =
      request_for build.user_agent post (typed_text (dump body) (codes "application/json")) hook_url

  -- `SlackNotifier::text` and `notify`
  unfoldable pub text : Uri → Text → Option Request
  text hook_url message = slack_post hook_url (text_body message)

  unfoldable pub notify : Uri → Kind → Text → Option Request
  notify hook_url kind message = slack_post hook_url (notify_body build.app kind message)

  -- `if (canSendSlack()) client->exec(...)`
  abbrev pub exec : Option Request → Notifier → Notifier
  exec request s =
      if can_send_slack s then record s { executed = s.executed ++ request ∷ [] } else s

  -- `evtSlackText`
  unfoldable pub evt_slack_text : Text → Notifier → Notifier
  evt_slack_text message s = exec (text s.hook_url message) s

  -- `evtSlackNotify`
  unfoldable pub evt_slack_notify : Kind → Text → Notifier → Notifier
  evt_slack_notify kind message s = exec (notify s.hook_url kind message) s

  -- `so_evt_start`, once the client has been started, and `so_evt_finish`
  unfoldable pub so_evt_start : Uri → Notifier
  so_evt_start hook_url =
      let s : Notifier = record { client = true; hook_url = hook_url; executed = [] } in
      exec (notify hook_url trace build.started) s

  unfoldable pub so_evt_finish : Notifier → Notifier
  so_evt_finish s = exec (notify s.hook_url trace build.finished) s
