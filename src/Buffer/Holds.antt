-- ===== src/Buffer/Holds.antt =====
-- How a `BufferStatic` represents the bytes that it holds.
use twitch_chat_worker.Base.{
  ℕ, ◌+◌, ◌*◌, ◌<◌, ◌≡◌, refl, List, [], ◌++◌, length, some, arith, length-replicate,
}
use twitch_chat_worker.Base.Memory.{read-append, write-append}
use twitch_chat_worker.Buffer.{Buffer, store, init}

-- Either one block between `head` and `tail`, or a block from `head` to the end of the array and
-- one from its beginning to `tail`.
pub data Holds (b : Buffer) (q : List ℕ) : Type 0 where
  linear :
      (p s : List ℕ)
      → b.buffer ≡ p ++ (q ++ s)
      → b.head ≡ length p
      → b.tail ≡ length p + length q
      → Holds b q
  wrapped :
      (q1 q2 s : List ℕ)
      → q ≡ q1 ++ q2
      → b.buffer ≡ q2 ++ (s ++ q1)
      → b.tail ≡ length q2
      → b.head ≡ length q2 + length s
      → Holds b q

-- The buffer holds exactly the bytes `q`, and its fields are consistent.
pub record Valid (b : Buffer) (q : List ℕ) : Type 0 where
  pub holds : Holds b q
  pub counted : b.size ≡ length q
  pub storage : b.capacity ≡ length b.buffer
  pub positive : 0 < b.capacity
  pub small : b.capacity < 1024 * 100

pub store_lem :
    (b : Buffer) (x y z d0 d d1 : List ℕ) (pos from len : ℕ)
    → b.buffer ≡ x ++ (y ++ z)
    → pos ≡ length x
    → length y ≡ len
    → from ≡ length d0
    → length d ≡ len
    → store b pos (d0 ++ (d ++ d1)) from len ≡ some (record b { buffer = x ++ (d ++ z) })
unfolding store
store_lem b x y z d0 d d1 pos from len e hx hy hf hd =
    ground (arith, read-append d0 d d1 from len, write-append x y z d pos)

-- A new buffer is empty and valid.
pub init-Valid : (cap : ℕ) → 0 < cap → cap < 1024 * 100 → Valid (init cap) []
unfolding init
init-Valid cap h k = record {
  holds = linear [] (init cap).buffer refl refl refl;
  counted = refl;
  storage = omega (arith, length-replicate {A = ℕ} cap 0);
  positive = h;
  small = k;
}
