-- ===== src/Buffer/Fifo.antt =====
-- What common/BufferStatic.h promises: a queue of at most `cap` bytes, oldest first.
use twitch_chat_worker.Base.{
  ℕ, ◌+◌, List, [], ◌∷◌, ◌++◌, length, take, drop, ltb, leb, eqb, if◌then◌else◌,
}
use twitch_chat_worker.Buffer.Codes.{Status, ok, no_data, buffer_full, invalid_len}

abbrev pub append : ℕ → List ℕ → List ℕ → Status × List ℕ
append cap q d =
    if ltb cap (length d)
    then (invalid_len, q)
    else if eqb cap (length q)
    then (buffer_full, q)
    else if leb (length q + length d) cap
    then (ok, q ++ d)
    else (buffer_full, q)

-- Whether `len` bytes can be taken from the queue.
abbrev pub check : List ℕ → ℕ → Status
check q len = if eqb (length q) 0 then no_data else if ltb (length q) len then invalid_len else ok

-- The status, the bytes handed to the caller, and the queue afterwards.
abbrev pub answer : Status → List ℕ → List ℕ → List ℕ → Status × List ℕ × List ℕ
answer ok q bytes q' = (ok, bytes, q')
answer s q bytes q' = (s, [], q)

abbrev pub get : List ℕ → ℕ → Status × List ℕ × List ℕ
get q len = answer (check q len) q (take len q) (drop len q)

abbrev pub peek : List ℕ → ℕ → Status × List ℕ × List ℕ
peek q len = answer (check q len) q (take len q) q

abbrev pub seek : List ℕ → ℕ → Status × List ℕ × List ℕ
seek q len = answer (check q len) q [] (drop len q)

-- A client's calls.
pub data Call : Type 0 where
  appends : List ℕ → Call
  gets peeks seeks : ℕ → Call

abbrev pub call : ℕ → List ℕ → Call → Status × List ℕ × List ℕ
call cap q (appends d) = let (status, q') = append cap q d in (status, [], q')
call cap q (gets len) = get q len
call cap q (peeks len) = peek q len
call cap q (seeks len) = seek q len

-- What the client sees of a sequence of calls.
unfoldable pub run : ℕ → List ℕ → List Call → List (Status × List ℕ)
run cap q [] = []
run cap q (c ∷ cs) = let (status, bytes, q') = call cap q c in (status, bytes) ∷ run cap q' cs
