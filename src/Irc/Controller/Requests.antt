-- ===== src/Irc/Controller/Requests.antt =====
-- The HTTP handlers of irc/IRCController.cpp, over what the JSON library makes of a request.
use twitch_chat_worker.Base.{
  ℕ, zero, suc, ◌+◌, Bool, true, false, Option, none, some, List, [], ◌∷◌, ◌++◌, if◌then◌else◌,
}
use twitch_chat_worker.Base.Key.{Text, codes, text_key, number_key, int_key}
use twitch_chat_worker.Base.Int.{ℤ, pos, negsuc}
use twitch_chat_worker.Base.Dict.{Dict, lookup, emplace, update, erase, value_or}
use twitch_chat_worker.Base.Fault.{◌>>=◌}
use twitch_chat_worker.DbController.{Account, no_account}
use twitch_chat_worker.Uri.Chars.{decimal_on}
use twitch_chat_worker.Irc.Controller.{
  Controller, Sent, reload, shutdown, find_agent, drop_agent, reload_agent, get_irc_client_by_id,
  add_new_irc_client,
}

-- An element of an array, where numbers are converted to `int`.
pub data Item : Type 0 where
  a_text : Text → Item
  a_number : ℤ → Item
  other_item : Item

pub data Field : Type 0 where
  item : Item → Field
  array : List Item → Field

-- A text that does not parse, a value on which `[]` throws, or an object (`null` is an empty one).
pub data Request : Type 0 where
  discarded no_object : Request
  object : Dict Text Field → Request

-- A missing key is null.
abbrev pub null : Field
null = item other_item

abbrev pub field : Text → Dict Text Field → Field
field key req = value_or null (lookup key req)

-- The JSON text of an answer.
pub data Body : Type 0 where
  result : Text → Body
  about : ℤ → Text → Body
  marks : Dict Text Bool → Body
  -- each key with an object of one field
  flags : Text → Dict Text Bool → Body
  nested : Dict Text (Dict Text Bool) → Body

pub record Response : Type 0 where
  pub status : ℕ
  pub body : Body

abbrev pub Outcome : Type 0
Outcome = Option (Controller × List Sent × Response)

abbrev pub refuse : ℕ → Text → Controller → Outcome
refuse status text c = some (c, [], record { status = status; body = result text })

abbrev pub answer : Controller → List Sent → Body → Outcome
answer c out body = some (c, out, record { status = 200; body = body })

-- `body[key] = value`
unfoldable pub put {ℓ} : {V : Type ℓ} → Text → V → Dict Text V → Dict Text V
unfolding update emplace
put key value m = update key (λ _. value) (emplace key value m)

-- `std::to_string` of an `int`, which has at most ten digits
abbrev pub int_to_string : ℤ → Text
int_to_string (pos n) = decimal_on 10 n
int_to_string (negsuc n) = b'-' ∷ decimal_on 10 (n + 1)

abbrev pub is_zero : ℤ → Bool
is_zero (pos zero) = true
is_zero (pos (suc n)) = false
is_zero (negsuc n) = false

-- `json::parse`, with what is answered where it fails
abbrev pub on_object : ℕ → (Dict Text Field → Outcome) → Request → Controller → Outcome
on_object status k discarded c = refuse status (codes "Failed to parse JSON") c
on_object status k no_object c = none
on_object status k (object req) c = k req

-- The field "id", if it is a number
abbrev pub on_id : (ℤ → Outcome) → Field → Controller → Outcome
on_id k (item (a_number id)) c = k id
on_id k (item (a_text t)) c = refuse 400 (codes "Wrong account id") c
on_id k (item other_item) c = refuse 400 (codes "Wrong account id") c
on_id k (array items) c = refuse 400 (codes "Wrong account id") c

-- `loadAccount` may throw: then the account stays as it was made.
unfoldable pub add_account : ℤ → Option Account → Controller → Outcome
add_account id loaded c = elim (get_irc_client_by_id id c) [
  | some a ↦ refuse 403 (codes "Account already added") c
  | none ↦
      let account = value_or no_account loaded in
      if is_zero account.id
      then refuse 404 (codes "Account not found in db") c
      else answer (add_new_irc_client account c) [] (about id (codes "Account added"))
]

unfoldable pub evt_http_account_add : (ℤ → Option Account) → Request → Controller → Outcome
unfolding lookup
evt_http_account_add load req c =
    on_object 501 (λ o. on_id (λ id. add_account id (load id) c) (field (codes "id") o) c) req c

unfoldable pub remove_account : ℤ → Controller → Outcome
remove_account id c = elim (get_irc_client_by_id id c) [
  | none ↦ refuse 404 (codes "Account not found") c
  | some a ↦ elim (find_agent a c.agents) [
    | none ↦ none
    | some g ↦
        answer
          (record c {
            by_name = erase g.nick c.by_name;
            by_id = erase id c.by_id;
            agents = drop_agent a c.agents;
          })
          (shutdown a ∷ []) (about id (codes "Account removed"))
  ]
]

unfoldable pub evt_http_account_remove : Request → Controller → Outcome
unfolding lookup
evt_http_account_remove req c =
    on_object 501 (λ o. on_id (λ id. remove_account id c) (field (codes "id") o) c) req c

-- The account goes to the client without a look at what was loaded.
unfoldable pub reload_client : ℕ → Account → Controller → Option (Controller × List Sent)
reload_client a account c = elim (find_agent a c.agents) [
  | none ↦ none
  | some g ↦ some (record c { agents = reload_agent a account c.agents }, reload a account ∷ [])
]

unfoldable pub reload_account : ℤ → Option Account → Controller → Outcome
reload_account id loaded c = elim (get_irc_client_by_id id c) [
  | none ↦ refuse 404 (codes "Account not found") c
  | some a ↦ do
    account ← loaded
    (c', out) ← reload_client a account c
    answer c' out (about id (codes "Account reloaded"))
]

unfoldable pub evt_http_account_reload : (ℤ → Option Account) → Request → Controller → Outcome
unfolding lookup
evt_http_account_reload load req c =
    on_object 501 (λ o. on_id (λ id. reload_account id (load id) c) (field (codes "id") o) c) req c

-- The loop of `evtHttpReload` over the clients by id.
unfoldable pub reload_each :
    (ℤ → Option Account)
    → Dict ℤ ℕ
    → Dict Text Bool
    → Controller
    → Option (Controller × List Sent × Dict Text Bool)
reload_each load [] body c = some (c, [], body)
reload_each load ((id, a) ∷ clients) body c = do
  account ← load id
  (c', out) ← reload_client a account c
  (c'', rest, body') ← reload_each load clients (put account.nick true body) c'
  some (c'', out ++ rest, body')

unfoldable pub evt_http_reload : (ℤ → Option Account) → Controller → Outcome
evt_http_reload load c = do
  (c', out, body) ← reload_each load c.by_id [] c
  answer c' out (marks body)
