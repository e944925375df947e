-- ===== src/Tests/Ring.antt =====
-- common/BufferStatic.h: a buffer of four bytes.
use twitch_chat_worker.Base.{ℕ, ◌≡◌, refl, List, [], ◌∷◌, some, none, arith}
use twitch_chat_worker.Buffer.{Buffer, get_linear_free_space, get_total_free_space, normilize}
use twitch_chat_worker.Buffer.Fifo
use twitch_chat_worker.Buffer.Fifo.{Call, appends, gets, peeks, seeks}
use twitch_chat_worker.Buffer.Holds.{Valid, linear, wrapped}
use twitch_chat_worker.Buffer.Linear.{Placed, append_in_place-Valid}
use twitch_chat_worker.Buffer.Normilize.{normilize-Valid, normilize_overlaps}
use twitch_chat_worker.Buffer.Run.{run, run_refines}

-- Three bytes, the first at the end of the array.
abbrev ring : Buffer
ring = record { buffer = 1 ∷ 2 ∷ 0 ∷ 9 ∷ []; capacity = 4; size = 3; head = 3; tail = 2 }

abbrev bytes : List ℕ
bytes = 9 ∷ 1 ∷ 2 ∷ []

ring-Valid : Valid ring bytes
ring-Valid = record {
  holds = wrapped (9 ∷ []) (1 ∷ 2 ∷ []) (0 ∷ []) refl refl refl refl;
  counted = refl;
  storage = refl;
  positive = omega arith;
  small = omega arith;
}

-- The same bytes and one more: the buffer is full, and its end is not at the array's.
abbrev full_ring : Buffer
full_ring = record { buffer = 1 ∷ 2 ∷ 7 ∷ 9 ∷ []; capacity = 4; size = 4; head = 3; tail = 3 }

full_ring-Valid : Valid full_ring (9 ∷ 1 ∷ 2 ∷ 7 ∷ [])
full_ring-Valid = record {
  holds = wrapped (9 ∷ []) (1 ∷ 2 ∷ 7 ∷ []) [] refl refl refl refl;
  counted = refl;
  storage = refl;
  positive = omega arith;
  small = omega arith;
}

-- Three bytes in one block, one place behind the start.
abbrev shifted_ring : Buffer
shifted_ring = record { buffer = 0 ∷ 5 ∷ 6 ∷ 7 ∷ []; capacity = 4; size = 3; head = 1; tail = 4 }

shifted_ring-Valid : Valid shifted_ring (5 ∷ 6 ∷ 7 ∷ [])
shifted_ring-Valid = record {
  holds = linear (0 ∷ []) [] refl refl refl;
  counted = refl;
  storage = refl;
  positive = omega arith;
  small = omega arith;
}

abbrev calls : List Call
calls = peeks 2 ∷ appends (7 ∷ []) ∷ appends (8 ∷ []) ∷ gets 4 ∷ gets 1 ∷ seeks 5 ∷ []

run_refines_example : run ring calls ≡ some (Fifo.run 4 bytes calls)
run_refines_example = run_refines calls ring bytes ring-Valid

append_in_place-Valid_example : Placed ring bytes (7 ∷ [])
unfolding get_linear_free_space get_total_free_space
append_in_place-Valid_example =
    append_in_place-Valid ring bytes (7 ∷ []) ring-Valid (omega arith) (omega arith)

normilize-Valid_example :
    (b' : Buffer) × (normilize ring ≡ some b') × Valid b' bytes × (b'.head ≡ 0) × (b'.tail ≡ 3)
normilize-Valid_example = normilize-Valid ring bytes ring-Valid (omega arith) (omega arith)

normilize_overlaps_example : normilize shifted_ring ≡ none
normilize_overlaps_example =
    normilize_overlaps shifted_ring (5 ∷ 6 ∷ 7 ∷ []) shifted_ring-Valid (omega arith) (omega arith)
