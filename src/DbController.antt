-- ===== src/DbController.antt =====
-- DBController.h and .cpp: what is made of the rows that the data base returns. A value that is read
-- behind the end of a row is `none`.
pub mod BotRows
pub mod Queries
use twitch_chat_worker.Base.{
  ℕ, ◌+◌, Bool, false, ◌||◌, Option, some, List, [], ◌∷◌, if◌then◌else◌, get_elem?,
}
use twitch_chat_worker.Base.Key.{Text, codes, text_key, number_key, int_key, ◌==◌}
use twitch_chat_worker.Base.Int.{ℤ, pos}
use twitch_chat_worker.Base.Dict.{Dict, emplace}
use twitch_chat_worker.Base.Fault.{◌>>=◌}
use twitch_chat_worker.Uri.Chars.{to_number}

abbrev pub Row : Type 0
Row = List Text

-- What `ping` and `request` give.
pub data Reply : Type 0 where
  no_connection failed : Reply
  rows : List Row → Reply

-- `row[i]`
abbrev pub column : ℕ → Row → Option Text
column i row = get_elem? row i

abbrev pub number_at : ℕ → Row → Option ℤ
number_at i row = do text ← column i row; some (to_number text)

unfoldable pub each_row {ℓ} : {A : Type ℓ} → (Row → Option A) → List Row → Option (List A)
each_row read [] = some []
each_row read (row ∷ res) = do a ← read row; rest ← each_row read res; some (a ∷ rest)

-- Nothing is read without a connection, or when the request fails.
abbrev pub rows_of : Reply → List Row
rows_of no_connection = []
rows_of failed = []
rows_of (rows res) = res

-- `std::unordered_set`: a name stands in it once; the order is not specified.
unfoldable pub insert_all : List Text → List Text → List Text
insert_all names [] = names
insert_all names (name ∷ new) = insert_all (if contains name names then names else name ∷ names) new
  where
    contains : Text → List Text → Bool
    contains name [] = false
    contains name (n ∷ ns) = n == name || contains name ns

-- `loadUsersNicknames` and `loadServiceAccountsNicknames`
unfoldable pub load_users_nicknames : Reply → Option (List Text)
load_users_nicknames reply = do
  names ← each_row (column 0) (rows_of reply)
  some (insert_all [] names)

-- `IRCClientConfig`
pub record Account : Type 0 where
  pub id : ℤ
  pub nick : Text
  pub user : Text
  pub password : Text
  pub channels_limit : ℤ
  pub command_per_sec_limit : ℤ
  pub whisper_per_sec_limit : ℤ
  pub auth_per_sec_limit : ℤ
  pub session_count : ℤ

abbrev pub no_account : Account
no_account = record {
  id = pos 0;
  nick = [];
  user = [];
  password = [];
  channels_limit = pos 20;
  command_per_sec_limit = pos 0;
  whisper_per_sec_limit = pos 3;
  auth_per_sec_limit = pos 2;
  session_count = pos 1;
}

-- The columns from `i` on after the account's id.
unfoldable pub read_account : ℤ → ℕ → Row → Option Account
read_account id i row = do
  nick ← column i row
  user ← column (i + 1) row
  password ← column (i + 2) row
  channels ← number_at (i + 3) row
  command ← number_at (i + 4) row
  whisper ← number_at (i + 5) row
  auth ← number_at (i + 6) row
  sessions ← number_at (i + 7) row
  some (record {
    id = id;
    nick = nick;
    user = user;
    password = password;
    channels_limit = channels;
    command_per_sec_limit = command;
    whisper_per_sec_limit = whisper;
    auth_per_sec_limit = auth;
    session_count = sessions;
  })

-- A row of `loadAccounts`, which starts with the id.
abbrev pub read_account_row : Row → Option Account
read_account_row row = number_at 0 row >>= λ id. read_account id 1 row

unfoldable pub load_accounts : Reply → Option (List Account)
load_accounts reply = each_row read_account_row (rows_of reply)

abbrev first_account : ℤ → List Row → Option Account
first_account id [] = some no_account
first_account id (row ∷ res) = read_account id 0 row

unfoldable pub load_account : ℤ → Reply → Option Account
unfolding read_account
load_account id reply = first_account id (rows_of reply)

-- `loadChannels` and both `loadChannelsFor`
unfoldable pub load_channels : Reply → Option (List Text)
load_channels reply = each_row (column 0) (rows_of reply)

-- `toBool(row[1])`
abbrev read_watch : Row → Option (Text × Bool)
read_watch row = do name ← column 0 row; watch ← column 1 row; some (name, watch == codes "t")

-- Into a `std::map`: the first of several rows of a channel stays.
unfoldable pub updated : Dict Text Bool → List (Text × Bool) → Dict Text Bool
updated m [] = m
updated m ((name, watch) ∷ channels) = updated (emplace name watch m) channels

-- The updated channels, and the new `timestamp`, which stays only without a connection.
unfoldable pub load_updated_channels : ℕ → ℕ → Reply → Option (Dict Text Bool × ℕ)
unfolding updated
load_updated_channels now timestamp no_connection = some ([], timestamp)
load_updated_channels now timestamp failed = some ([], now)
load_updated_channels now timestamp (rows res) = do
  channels ← each_row read_watch res
  some (updated [] channels, now)
