-- ===== src/Buffer/Append/Copies.antt =====
-- The copies that `append` of common/BufferStatic.h makes.
use twitch_chat_worker.Base.{
  ℕ, ◌+◌, ◌*◌, ◌≤◌, ◌<◌, ◌≡◌, refl, List, [], ◌++◌, length, some, arith, length-append,
  append_assoc, append-nil, ◌∷◌, if◌then◌else◌, ltb, add32, sub32,
}
use twitch_chat_worker.Buffer.{Buffer, store, append_block, append_split}
use twitch_chat_worker.Buffer.Codes.{ok}
use twitch_chat_worker.Buffer.Holds.{store_lem}

-- One copy at `tail`, where the array has room for it.
pub append_block_lem :
    (b : Buffer) (x y z d rest : List ℕ)
    → b.buffer ≡ x ++ (y ++ z)
    → b.tail ≡ length x
    → length y ≡ length d
    → append_block b (d ++ rest) (length d)
      ≡ some (
        ok,
        record b {
          buffer = x ++ (d ++ z);
          tail = add32 b.tail (length d);
          size = add32 b.size (length d);
        },
      )
unfolding append_block
append_block_lem b x y z d rest e hx hy =
    ground (arith, store_lem b x y z [] d rest b.tail 0 (length d))

-- The first copy of two fills the array to its end; with nothing to copy it is skipped.
first_copy :
    (b : Buffer) (x m y d1 d2 rest : List ℕ)
    → b.buffer ≡ x ++ (m ++ y)
    → b.tail ≡ length x + length m
    → length y ≡ length d1
    → (if ltb 0 (length d1) then store b b.tail (d1 ++ (d2 ++ rest)) 0 (length d1) else some b)
      ≡ some (record b { buffer = x ++ (m ++ d1) })
first_copy b x m [] [] d2 rest e ht h = ground arith
first_copy b x m (c ∷ y) [] d2 rest e ht h = absurd (omega arith)
first_copy b x m y (c ∷ d1) d2 rest e ht h = ground (
  arith,
  store_lem b (x ++ m) y [] [] (c ∷ d1) (d2 ++ rest) b.tail 0 (length (c ∷ d1)),
  length-append x m,
  append_assoc x m (y ++ []),
  append_assoc x m ((c ∷ d1) ++ []),
  append-nil y,
  append-nil (c ∷ d1),
)

-- Two copies: `d1` fills the array to its end, `d2` goes to its beginning.
pub append_split_lem :
    (b : Buffer) (x m y d1 d2 rest : List ℕ)
    → b.buffer ≡ x ++ (m ++ y)
    → b.tail ≡ length x + length m
    → b.capacity ≡ b.tail + length y
    → length y ≡ length d1
    → length x ≡ length d2
    → b.capacity < 1024 * 100
    → 0 < length d2
    → length d2 ≤ b.head
    → append_split b (d1 ++ (d2 ++ rest)) (length d1 + length d2)
      ≡ some (
        ok,
        record b {
          buffer = d2 ++ (m ++ d1);
          tail = length d2;
          size = add32 b.size (length d1 + length d2);
        },
      )
unfolding append_split
append_split_lem b x m y d1 d2 rest e ht hc h1 h2 hs hp hh =
    rw (first_len, second_len) (ground (arith, first_copy b x m y d1 d2 rest e ht h1, second_copy))
  where
    first_len : sub32 b.capacity b.tail ≡ length d1
    first_len = omega arith

    second_len : sub32 (length d1 + length d2) (length d1) ≡ length d2
    second_len = omega arith

    filled : Buffer
    filled = record b { buffer = x ++ (m ++ d1) }

    second_copy :
        store filled 0 (d1 ++ (d2 ++ rest)) (length d1) (length d2)
        ≡ some (record filled { buffer = d2 ++ (m ++ d1) })
    second_copy =
        store_lem filled [] x (m ++ d1) d1 d2 rest 0 (length d1) (length d2) refl refl h2 refl refl
