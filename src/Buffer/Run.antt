-- ===== src/Buffer/Run.antt =====
-- Sequences of calls on a `BufferStatic`.
use twitch_chat_worker.Base.{
  ℕ, ◌≡◌, refl, Option, List, [], ◌∷◌, length, some, true, arith, append-nil,
}
use twitch_chat_worker.Base.Fault.{◌>>=◌}
use twitch_chat_worker.Buffer.{Buffer, Reply, append, get_data, peek_data, seek_data}
use twitch_chat_worker.Buffer.Codes.{Status}
use twitch_chat_worker.Buffer.Fifo
use twitch_chat_worker.Buffer.Fifo.{Call, appends, gets, peeks, seeks}
use twitch_chat_worker.Buffer.Holds.{Valid}
use twitch_chat_worker.Buffer.Refine.{
  AnswersTo, append_refines, get_data_refines, peek_data_refines, seek_data_refines,
}

unfoldable pub call : Buffer → Call → Reply
call b (appends d) = do (status, b') ← append b d (length d); some (status, [], b')
call b (gets len) = get_data b true len
call b (peeks len) = peek_data b true len
call b (seeks len) = seek_data b len

unfoldable pub run : Buffer → List Call → Option (List (Status × List ℕ))
run b [] = some []
run b (c ∷ cs) = do (status, bytes, b') ← call b c; rest ← run b' cs; some ((status, bytes) ∷ rest)

call_refines :
    (b : Buffer) (q : List ℕ) (c : Call)
    → Valid b q
    → AnswersTo b (call b c) (Fifo.call b.capacity q c)
unfolding call
call_refines b q (appends d) v =
    (let (b', e, v', k) = append_refines b q d [] v in (b', ground (arith, e, append-nil d), v', k))
call_refines b q (gets len) v = get_data_refines b q len v
call_refines b q (peeks len) v = peek_data_refines b q len v
call_refines b q (seeks len) v = seek_data_refines b q len v

-- No sequence of `append`, `getData`, `peekData` and `seekData` faults, and none tells a buffer that
-- holds the bytes `q` from the bounded queue of these bytes.
pub run_refines :
    (cs : List Call) (b : Buffer) (q : List ℕ)
    → Valid b q
    → run b cs ≡ some (Fifo.run b.capacity q cs)
unfolding run Fifo.run
run_refines [] b q v = refl
run_refines (c ∷ cs) b q v =
    (let (b', e, v', k) = call_refines b q c v in
      ground (arith, e, run_refines cs b' (Fifo.call b.capacity q c).2 v', k))
