-- ===== src/Irc/Channels.antt =====
-- irc/IRCChannelList.h and irc/IRCChannelList.cpp: which channels an account listens to and which
-- session serves each. Each method holds the mutex for its whole length, so it is one step.
pub mod Reserve
pub mod Attach
use twitch_chat_worker.Base.{
  ℕ, ◌+◌, ◌-◌, ◌/◌, ◌^◌, Bool, true, false, not, Option, none, some, List, [], ◌∷◌, ◌++◌, length,
  eqb, if◌then◌else◌,
}
use twitch_chat_worker.Base.Key.{Text, text_key}
use twitch_chat_worker.Base.Int.{ℤ, to_size}
use twitch_chat_worker.Base.Dict.{Dict, lookup, has, emplace, update, erase}

-- `session` is the `IRCSession *`, by the session's position in `IRCClient::sessions`; `none` is the
-- null pointer.
pub record Channel : Type 0 where
  pub name : Text
  pub session : Option ℕ
  pub joined : Bool

abbrev pub ChannelMap : Type 0
ChannelMap = Dict Text Channel

-- `Channel{name}`
abbrev pub new_channel : Text → Channel
new_channel name = record { name = name; session = none; joined = false }

unfoldable pub set_joined : Bool → Channel → Channel
set_joined join c = record c { joined = join }

unfoldable pub attach : ℕ → Channel → Channel
attach irc c = record c { session = some irc }

unfoldable pub detach : Channel → Channel
detach c = record c { session = none }

unfoldable pub attached_to : ℕ → Channel → Bool
attached_to irc c = elim c.session [ none ↦ false | some s ↦ eqb s irc ]

unfoldable pub attached : Channel → Bool
attached c = elim c.session [ none ↦ false | some s ↦ true ]

-- `transform` of the loaded names into an empty map, which then replaces the old one
unfoldable pub insert_all : List Text → ChannelMap → ChannelMap
insert_all [] m = m
insert_all (name ∷ names) m = insert_all names (emplace name (new_channel name) m)

unfoldable pub load : List Text → ChannelMap
unfolding insert_all
load names = insert_all names []

unfoldable pub in_list : Text → ChannelMap → Bool
in_list name m = has name m

unfoldable pub add_channel : Channel → ChannelMap → ChannelMap
add_channel c m = emplace c.name c m

unfoldable pub remove_channel : Text → ChannelMap → ChannelMap
remove_channel name m = erase name m

unfoldable pub mark_channel_joined : Text → ChannelMap → ChannelMap
unfolding set_joined
mark_channel_joined name m = update name (set_joined true) m

unfoldable pub extract_channel : Text → ChannelMap → Option Channel × ChannelMap
extract_channel name m = elim (lookup name m) [ none ↦ (none, m) | some c ↦ (some c, erase name m) ]

needs_join : Option Channel → Bool
needs_join none = false
needs_join (some c) = not c.joined

unfoldable pub select_not_joined_channels : List Text → ChannelMap → List Text
unfolding needs_join
select_not_joined_channels [] m = []
select_not_joined_channels (name ∷ names) m =
    let rest = select_not_joined_channels names m in
    if needs_join (lookup name m) then name ∷ rest else rest

-- The loop of `reserveChannelsForSession`, with the names that it has collected.
unfoldable pub reserve_from : ℕ → ℕ → List Text → ChannelMap → List Text × ChannelMap
unfolding attached attach
reserve_from capacity irc result [] = (result, [])
reserve_from capacity irc result ((name, c) ∷ m) =
    let result' = result ++ c.name ∷ [] in
    let skip = reserve_from capacity irc result m in
    let more = reserve_from capacity irc result' m in
    if attached c
    then (skip.0, (name, c) ∷ skip.1)
    else if eqb (length result') capacity
    then (result', (name, attach irc c) ∷ m)
    else (more.0, (name, attach irc c) ∷ more.1)

-- `none` is a division by zero.
unfoldable pub reserve_capacity : ℕ → ℤ → Option ℕ
reserve_capacity size session_count =
    if eqb (to_size session_count) 0 then none else some (size / to_size session_count + 1)

unfoldable pub reserve_channels_for_session : ℤ → ℕ → ChannelMap → Option (List Text × ChannelMap)
unfolding reserve_capacity
reserve_channels_for_session session_count irc m =
    elim (reserve_capacity (length m) session_count) [
      | none ↦ none
      | some capacity ↦ some (reserve_from capacity irc [] m)
    ]

unfoldable pub detach_and_part_from_session : ℕ → ChannelMap → ChannelMap
unfolding attached_to set_joined detach
detach_and_part_from_session irc [] = []
detach_and_part_from_session irc ((name, c) ∷ m) =
    (name, if attached_to irc c then set_joined false (detach c) else c)
    ∷ detach_and_part_from_session irc m

-- `-1` as an `unsigned int`
abbrev pub unattached_id : ℕ
unattached_id = 2 ^ 32 - 1

-- `get_id` is `IRCSession::getId`.
unfoldable pub dump_channels_to_session_id : (ℕ → ℕ) → ChannelMap → List (Text × ℕ)
dump_channels_to_session_id get_id [] = []
dump_channels_to_session_id get_id ((name, c) ∷ m) =
    (name, elim c.session [ none ↦ unattached_id | some s ↦ get_id s ])
    ∷ dump_channels_to_session_id get_id m
