-- ===== src/Buffer.antt =====
-- common/BufferStatic.h: a ring buffer of bytes in a fixed array. `unsigned int` arithmetic wraps,
-- a copy out of range or between overlapping ranges is a fault (`none`).
pub mod Codes
pub mod Fifo
pub mod Holds
pub mod Append
pub mod Get
pub mod Refine
pub mod Linear
pub mod Normilize
pub mod Run
use twitch_chat_worker.Base.{
  ℕ, Bool, true, false, ◌&&◌, ◌||◌, not, Option, none, some, List, [], ◌++◌, replicate, ltb, leb,
  eqb, if◌then◌else◌, add32, sub32,
}
use twitch_chat_worker.Base.Memory.{read, write, move}
use twitch_chat_worker.Base.Fault.{◌>>=◌}
use Codes.{Status, ok, no_data, buffer_full, invalid_len, invalid_usage}

pub record Buffer : Type 0 where
  pub buffer : List ℕ
  pub capacity : ℕ
  pub size : ℕ
  pub head : ℕ
  pub tail : ℕ

-- the reply of a call that may read, and the buffer after it
abbrev pub Reply : Type 0
Reply = Option (Status × List ℕ × Buffer)

-- `memcpy(buffer + pos, data + from, len)`
pub store : Buffer → ℕ → List ℕ → ℕ → ℕ → Option Buffer
store b pos bytes from len = do
  src ← read bytes from len
  mem ← write b.buffer pos src
  some (record b { buffer = mem })

pub append_split : Buffer → List ℕ → ℕ → Option (Status × Buffer)
append_split b bytes len =
    if ltb 0 tail && leb (sub32 len (sub32 capacity tail)) head
    then (do
      first ← if ltb 0 first_len then store b tail bytes 0 first_len else some b
      second ← store first 0 bytes first_len second_len
      some (ok, record second { tail = second_len; size = add32 size len }))
    else some (buffer_full, b)
  where
    open b use {capacity, size, head, tail}

    first_len : ℕ
    first_len = sub32 capacity tail

    second_len : ℕ
    second_len = sub32 len first_len

pub append_block : Buffer → List ℕ → ℕ → Option (Status × Buffer)
append_block b bytes len = do
  b' ← store b b.tail bytes 0 len
  some (ok, record b' { tail = add32 b.tail len; size = add32 b.size len })

pub append : Buffer → List ℕ → ℕ → Option (Status × Buffer)
append b bytes len =
    if ltb capacity len
    then some (invalid_len, b)
    else if eqb capacity size
    then some (buffer_full, b)
    else if leb head tail
    then (if leb (add32 tail len) capacity
        then append_block b bytes len
        else append_split b bytes len)
    else if leb len (sub32 head tail)
    then append_block b bytes len
    else some (buffer_full, b)
  where
    open b use {capacity, size, head, tail}

-- `memcpy(out, buffer + pos, len)`; `out` tells whether the caller's pointer is not null.
pub fetch : Buffer → Bool → ℕ → ℕ → Option (List ℕ)
fetch b out pos len = if out then read b.buffer pos len else none

-- the lambda `validateBuffer`
pub validate_buffer : ℕ → ℕ → Status
validate_buffer size len = if eqb size 0 then no_data else if ltb size len then invalid_len else ok

-- `if (!peek) head = ...` and, at the end, `if (!peek) size -= len`
pub consume : Buffer → Bool → ℕ → ℕ → Buffer
consume b peek new_head len =
    if peek then b else record b { head = new_head; size = sub32 b.size len }

-- `tail > head`: the data is one block.
pub get_linear : Buffer → Bool → ℕ → Bool → Bool → Reply
unfolding fetch consume
get_linear b out len peek move_head_only =
    if leb (add32 head len) tail
    then (do
      bytes ← if not move_head_only && out then fetch b out head len else some []
      some (ok, bytes, consume b peek (add32 head len) len))
    else some (invalid_len, [], b)
  where
    open b use {head, tail}

-- `tail <= head`: the data may be two blocks.
pub get_wrapped : Buffer → Bool → ℕ → Bool → Bool → Reply
unfolding fetch consume
get_wrapped b out len peek move_head_only =
    if leb (add32 head len) capacity
    then (do
      bytes ← if not move_head_only then fetch b out head len else some []
      some (ok, bytes, consume b peek (add32 head len) len))
    else if ltb 0 tail && leb second_len tail
    then (do
      first ← if not move_head_only then fetch b out head first_len else some []
      second ← if not move_head_only then fetch b out 0 second_len else some []
      some (ok, first ++ second, consume b peek second_len len))
    else some (invalid_len, [], b)
  where
    open b use {capacity, head, tail}

    first_len : ℕ
    first_len = sub32 capacity head

    second_len : ℕ
    second_len = sub32 len first_len

pub get_valid : Status → Buffer → Bool → ℕ → Bool → Bool → Reply
unfolding get_linear get_wrapped
get_valid ok b out len peek move_head_only =
    if ltb b.head b.tail
    then get_linear b out len peek move_head_only
    else get_wrapped b out len peek move_head_only
get_valid s b out len peek move_head_only = some (s, [], b)

-- the private `getData`
pub get : Buffer → Bool → ℕ → Bool → Bool → Reply
get b out len peek move_head_only =
    if peek && move_head_only
    then some (invalid_usage, [], b)
    else get_valid (validate_buffer b.size len) b out len peek move_head_only

pub get_data : Buffer → Bool → ℕ → Reply
unfolding get
get_data b out len = get b out len false false

pub peek_data : Buffer → Bool → ℕ → Reply
unfolding get
peek_data b out len = get b out len true false

pub seek_data : Buffer → ℕ → Reply
unfolding get
seek_data b len = get b false len false true

unfoldable pub get_total_free_space : Buffer → ℕ
get_total_free_space b = sub32 b.capacity b.size

unfoldable pub get_linear_free_space : Buffer → ℕ
unfolding get_total_free_space
get_linear_free_space b =
    if eqb tail capacity
    then get_total_free_space b
    else if ltb head tail
    then sub32 capacity tail
    else if ltb tail head
    then sub32 head tail
    else sub32 capacity tail
  where
    open b use {capacity, head, tail}

-- The pointer is the offset into the array.
pub get_linear_append_ptr : Buffer → ℕ × Buffer
get_linear_append_ptr b =
    let b' =
      if eqb b.tail b.capacity && not (eqb b.capacity b.size) then record b { tail = 0 } else b in
    (b'.tail, b')

pub expand_size : Buffer → ℕ → Status × Buffer
expand_size b len =
    if ltb b.capacity (add32 b.size len)
    then (invalid_len, b)
    else (ok, record b { tail = add32 b.tail len; size = add32 b.size len })

pub normilize_blocks : Buffer → Option (List ℕ)
normilize_blocks b = if eqb tail 0 || ltb head tail then move buffer 0 head size else (do
  temp ← read buffer 0 second_len
  mem ← move buffer 0 head first_len
  write mem first_len temp)
  where
    open b use {buffer, capacity, size, head, tail}

    first_len : ℕ
    first_len = sub32 capacity head

    second_len : ℕ
    second_len = sub32 size first_len

pub normilize : Buffer → Option Buffer
unfolding normilize_blocks
normilize b = if eqb b.head 0 then some b else (do
  mem ← if eqb b.size 0 then some b.buffer else normilize_blocks b
  some (record b { buffer = mem; head = 0; tail = b.size }))

pub clear : Buffer → Buffer
clear b = record b { size = 0; head = 0; tail = 0 }

-- The constructor, for a CAPACITY that passes its static_assert; the array is zeroed.
pub init : ℕ → Buffer
init capacity = record {
  buffer = replicate capacity 0;
  capacity = capacity;
  size = 0;
  head = 0;
  tail = 0;
}
