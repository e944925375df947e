-- ===== src/Exceptions.antt =====
-- common/Exception.h and .cpp: the text that an exception shows. Each class is its name, a text.
use twitch_chat_worker.Base.{[], ◌++◌, if◌then◌else◌}
use twitch_chat_worker.Base.Key.{Text, codes, text_key, number_key, int_key}
use twitch_chat_worker.Base.Int.{ℤ}
use twitch_chat_worker.Uri.{is_empty}

pub record Exception : Type 0 where
  pub name : Text
  pub msg : Text
  pub code : ℤ

-- The message, with the argument behind a colon if there is one.
unfoldable pub new_exception : Text → Text → Text → ℤ → Exception
new_exception name msg arg code = record {
  name = name;
  msg = if is_empty arg then msg else msg ++ codes ": " ++ arg;
  code = code;
}

-- It is the name alone.
abbrev pub what : Exception → Text
what e = e.name

unfoldable pub display_text : Exception → Text
display_text e = if is_empty e.msg then e.name else e.name ++ codes ": " ++ e.msg

unfoldable pub extended_message : Text → Exception → Exception
extended_message arg e =
    if is_empty arg
    then e
    else record e { msg = (if is_empty e.msg then [] else e.msg ++ codes ": ") ++ arg }
