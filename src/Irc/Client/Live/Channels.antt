-- ===== src/Irc/Client/Live/Channels.antt =====
-- The session pointers in the channel list, over the methods of `IRCChannelList`.
use twitch_chat_worker.Base.{
  ℕ, ◌≡◌, Bool, true, false, Bool-cases, inl, inr, List, [], ◌∷◌, ◌++◌, Option, none, some, length,
  eqb, if◌then◌else◌,
}
use twitch_chat_worker.Base.Fault.{OnSome}
use twitch_chat_worker.Base.Key.{Text, text_key, ◌==◌}
use twitch_chat_worker.Base.Int.{ℤ}
use twitch_chat_worker.Base.Dict.{has, insert_at, emplace, update, erase, lookup}
use twitch_chat_worker.Irc.Channels.{
  Channel, ChannelMap, new_channel, attached, attached_to, load, insert_all, add_channel,
  mark_channel_joined, extract_channel, reserve_from, reserve_channels_for_session,
  reserve_capacity, detach_and_part_from_session,
}

abbrev pub listed : ℕ → List ℕ → Bool
listed a [] = false
listed a (b ∷ bs) = if eqb b a then true else listed a bs

-- The pointer is null or leads to one of the addresses.
abbrev pub Points : List ℕ → Option ℕ → Type 0
Points live none = Unit
Points live (some a) = listed a live ≡ true

abbrev pub AllLive : List ℕ → ChannelMap → Type 0
AllLive live [] = Unit
AllLive live ((name, c) ∷ m) = Points live c.session × AllLive live m

AllLive-insert_at :
    (live : List ℕ) (name : Text) (c : Channel) (m : ChannelMap)
    → Points live c.session
    → AllLive live m
    → AllLive live (insert_at name c m)
unfolding insert_at
AllLive-insert_at live name c [] p h = (p, tt)
AllLive-insert_at live name c ((k, d) ∷ m) p (q, h) = elim (Bool-cases (text_key.before name k)) [
  | inl e ↦ rw (e) (p, (q, h))
  | inr e ↦ rw (e) (q, AllLive-insert_at live name c m p h)
]

AllLive-emplace :
    (live : List ℕ) (name : Text) (c : Channel) (m : ChannelMap)
    → Points live c.session
    → AllLive live m
    → AllLive live (emplace name c m)
unfolding emplace
AllLive-emplace live name c m p h = elim (Bool-cases (has name m)) [
  | inl e ↦ rw (e) h
  | inr e ↦ rw (e) (AllLive-insert_at live name c m p h)
]

pub AllLive-add_channel :
    (live : List ℕ) (c : Channel) (m : ChannelMap)
    → Points live c.session
    → AllLive live m
    → AllLive live (add_channel c m)
unfolding add_channel
AllLive-add_channel live c m p h = AllLive-emplace live c.name c m p h

AllLive-insert_all :
    (live : List ℕ) (names : List Text) (m : ChannelMap)
    → AllLive live m
    → AllLive live (insert_all names m)
unfolding insert_all
AllLive-insert_all live [] m h = h
AllLive-insert_all live (name ∷ names) m h =
    AllLive-insert_all live names (emplace name (new_channel name) m)
      (AllLive-emplace live name (new_channel name) m tt h)

pub AllLive-load : (live : List ℕ) (names : List Text) → AllLive live (load names)
unfolding load
AllLive-load live names = AllLive-insert_all live names [] tt

pub AllLive-mark_channel_joined :
    (live : List ℕ) (name : Text) (m : ChannelMap)
    → AllLive live m
    → AllLive live (mark_channel_joined name m)
unfolding mark_channel_joined update
AllLive-mark_channel_joined live name [] h = tt
AllLive-mark_channel_joined live name ((k, c) ∷ m) (p, h) = elim (Bool-cases (k == name)) [
  | inl e ↦ rw (e) (p, AllLive-mark_channel_joined live name m h)
  | inr e ↦ rw (e) (p, AllLive-mark_channel_joined live name m h)
]

AllLive-erase :
    (live : List ℕ) (name : Text) (m : ChannelMap) → AllLive live m → AllLive live (erase name m)
unfolding erase
AllLive-erase live name [] h = tt
AllLive-erase live name ((k, c) ∷ m) (p, h) = elim (Bool-cases (k == name)) [
  | inl e ↦ rw (e) (AllLive-erase live name m h)
  | inr e ↦ rw (e) (p, AllLive-erase live name m h)
]

pub AllLive-extract_channel :
    (live : List ℕ) (name : Text) (m : ChannelMap)
    → AllLive live m
    → AllLive live (extract_channel name m).1
unfolding extract_channel
AllLive-extract_channel live name m h = by_lookup (lookup name m)
  where
    by_lookup :
        (o : Option Channel)
        → AllLive live
            (elim o as (λ _. Option Channel × ChannelMap) [
              | none ↦ (none, m)
              | some c ↦ (some c, erase name m)
            ]).1
    by_lookup none = h
    by_lookup (some c) = AllLive-erase live name m h

pub AllLive-detach :
    (live : List ℕ) (a : ℕ) (m : ChannelMap)
    → AllLive live m
    → AllLive live (detach_and_part_from_session a m)
unfolding detach_and_part_from_session
AllLive-detach live a [] h = tt
AllLive-detach live a ((k, c) ∷ m) (p, h) = elim (Bool-cases (attached_to a c)) [
  | inl e ↦ rw (e) (tt, AllLive-detach live a m h)
  | inr e ↦ rw (e) (p, AllLive-detach live a m h)
]

AllLive-reserve_from :
    (live : List ℕ) (capacity a : ℕ) (names : List Text) (m : ChannelMap)
    → listed a live ≡ true
    → AllLive live m
    → AllLive live (reserve_from capacity a names m).1
unfolding reserve_from
AllLive-reserve_from live capacity a names [] i h = tt
AllLive-reserve_from live capacity a names ((k, c) ∷ m) i (p, h) = elim (Bool-cases (attached c)) [
  | inl e ↦ rw (e) (p, AllLive-reserve_from live capacity a names m i h)
  | inr e ↦ elim (Bool-cases (eqb (length (names ++ c.name ∷ [])) capacity)) [
    | inl f ↦ rw (e, f) (i, h)
    | inr f ↦ rw (e, f) (i, AllLive-reserve_from live capacity a (names ++ c.name ∷ []) m i h)
  ]
]

pub AllLive-reserve :
    (live : List ℕ) (count : ℤ) (a : ℕ) (m : ChannelMap)
    → listed a live ≡ true
    → AllLive live m
    → OnSome (λ r. AllLive live r.1) (reserve_channels_for_session count a m)
unfolding reserve_channels_for_session
AllLive-reserve live count a m i h = by_capacity (reserve_capacity (length m) count)
  where
    by_capacity :
        (o : Option ℕ)
        → OnSome
            (λ r. AllLive live r.1)
            (elim o as (λ _. Option (List Text × ChannelMap)) [
              | none ↦ none
              | some n ↦ some (reserve_from n a [] m)
            ])
    by_capacity none = tt
    by_capacity (some n) = AllLive-reserve_from live n a [] m i h
