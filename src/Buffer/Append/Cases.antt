-- ===== src/Buffer/Append/Cases.antt =====
-- `append` of common/BufferStatic.h, by where the bytes stand before and after.
use twitch_chat_worker.Base.{
  ℕ, ◌+◌, ◌<◌, ◌≡◌, refl, sym, ap, List, ◌++◌, length, some, arith, length-append, append_assoc,
  ◌∙◌, add32,
}
use twitch_chat_worker.Buffer.{Buffer, append, append_block, append_split}
use twitch_chat_worker.Buffer.Codes.{ok}
use twitch_chat_worker.Buffer.Holds.{linear, wrapped, Valid}
use twitch_chat_worker.Buffer.Append.Copies.{append_block_lem, append_split_lem}

-- What `append` has done when it succeeds.
abbrev pub Appended : Buffer → List ℕ → List ℕ → List ℕ → Type 0
Appended b q d rest =
    (b' : Buffer) × (append b (d ++ rest) (length d) ≡ some (ok, b'))
    × Valid b' (q ++ d)
    × (b'.capacity ≡ b.capacity)

-- One block that stays one block.
pub append-linear :
    (b : Buffer) (q d rest p s1 s2 : List ℕ)
    → Valid b q
    → length q < b.capacity
    → b.buffer ≡ p ++ (q ++ (s1 ++ s2))
    → b.head ≡ length p
    → b.tail ≡ length p + length q
    → length s1 ≡ length d
    → Appended b q d rest
unfolding append
append-linear b q d rest p s1 s2 v hq e hh ht hs = (
  b',
  ground (arith, stored, sizes),
  record {
    holds = linear p s2 (rw append_assoc refl) hh (omega (arith, length-append q d, sizes));
    counted = omega (arith, length-append q d, sizes);
    storage = omega (arith, sizes, after);
    positive = v.positive;
    small = v.small;
  },
  refl,
)
  where
    open b use {capacity, size, head, tail}

    b' : Buffer
    b' = record b {
      buffer = p ++ (q ++ (d ++ s2));
      tail = add32 tail (length d);
      size = add32 size (length d);
    }

    sizes : capacity ≡ length p + length q + length d + length s2
    sizes = omega (
      arith,
      ap length e,
      length-append p (q ++ (s1 ++ s2)),
      length-append q (s1 ++ s2),
      length-append s1 s2,
    )

    after : length b'.buffer ≡ length p + length q + length d + length s2
    after =
        omega
          (arith, length-append p (q ++ (d ++ s2)), length-append q (d ++ s2), length-append d s2)

    stored : append_block b (d ++ rest) (length d) ≡ some (ok, b')
    stored = rw (← append_assoc) (
        append_block_lem b (p ++ q) s1 s2 d rest (e ∙ sym (append_assoc p q (s1 ++ s2)))
          (omega (arith, length-append p q)) hs)

-- Two blocks, the second of which grows towards `head`.
pub append-wrapped :
    (b : Buffer) (q1 q2 d rest s1 s2 : List ℕ)
    → Valid b (q1 ++ q2)
    → length (q1 ++ q2) < b.capacity
    → b.buffer ≡ q2 ++ ((s1 ++ s2) ++ q1)
    → b.tail ≡ length q2
    → b.head ≡ length q2 + length (s1 ++ s2)
    → length s1 ≡ length d
    → Appended b (q1 ++ q2) d rest
unfolding append
append-wrapped b q1 q2 d rest s1 s2 v hq e ht hh hs = (
  b',
  ground (arith, stored, sizes, room, length-append s1 s2),
  record {
    holds =
        wrapped q1 (q2 ++ d) s2 (append_assoc q1 q2 d) (sym (append_assoc q2 d (s2 ++ q1)))
          (omega (arith, length-append q2 d, sizes))
          (omega (arith, length-append q2 d, length-append s1 s2));
    counted = omega (arith, length-append (q1 ++ q2) d, sizes);
    storage = omega (arith, sizes, after);
    positive = v.positive;
    small = v.small;
  },
  refl,
)
  where
    open b use {capacity, size, head, tail}

    b' : Buffer
    b' = record b {
      buffer = q2 ++ (d ++ (s2 ++ q1));
      tail = add32 tail (length d);
      size = add32 size (length d);
    }

    e' : b.buffer ≡ q2 ++ (s1 ++ (s2 ++ q1))
    e' = e ∙ ap (◌++◌ q2) (append_assoc s1 s2 q1)

    sizes : capacity ≡ length q2 + length d + length s2 + length q1
    sizes = omega (
      arith,
      ap length e',
      length-append q2 (s1 ++ (s2 ++ q1)),
      length-append s1 (s2 ++ q1),
      length-append s2 q1,
    )

    room : head < tail + 1 → ⊥
    room h = omega (arith, sizes, length-append q1 q2, length-append s1 s2)

    after : length b'.buffer ≡ length q2 + length d + length s2 + length q1
    after =
        omega (
          arith,
          length-append q2 (d ++ (s2 ++ q1)),
          length-append d (s2 ++ q1),
          length-append s2 q1,
        )

    stored : append_block b (d ++ rest) (length d) ≡ some (ok, b')
    stored = append_block_lem b q2 s1 (s2 ++ q1) d rest e' ht hs

-- One block that becomes two.
pub append-wrap :
    (b : Buffer) (q d1 d2 rest p1 p2 s : List ℕ)
    → Valid b q
    → b.buffer ≡ (p1 ++ p2) ++ (q ++ s)
    → b.head ≡ length (p1 ++ p2)
    → b.tail ≡ length (p1 ++ p2) + length q
    → length s ≡ length d1
    → length p1 ≡ length d2
    → 0 < length d2
    → Appended b q (d1 ++ d2) rest
unfolding append
append-wrap b q d1 d2 rest p1 p2 s v e hh ht h1 h2 hp = (
  b',
  ground (arith, stored, sizes, length-append p1 p2, length-append d1 d2),
  record {
    holds =
        wrapped (q ++ d1) d2 p2 (sym (append_assoc q d1 d2)) refl refl
          (omega (arith, length-append p1 p2));
    counted = omega (arith, length-append q (d1 ++ d2), length-append d1 d2, sizes);
    storage = omega (arith, sizes, after);
    positive = v.positive;
    small = v.small;
  },
  refl,
)
  where
    open b use {capacity, size, head, tail}

    b' : Buffer
    b' = record b {
      buffer = d2 ++ (p2 ++ (q ++ d1));
      tail = length d2;
      size = add32 size (length d1 + length d2);
    }

    e' : b.buffer ≡ p1 ++ ((p2 ++ q) ++ s)
    e' = e ∙ append_assoc p1 p2 (q ++ s) ∙ ap (◌++◌ p1) (sym (append_assoc p2 q s))

    sizes : capacity ≡ length p1 + length p2 + length q + length s
    sizes = omega (
      arith,
      ap length e',
      length-append p1 ((p2 ++ q) ++ s),
      length-append (p2 ++ q) s,
      length-append p2 q,
    )

    after : length b'.buffer ≡ length d2 + length p2 + length q + length d1
    after =
        omega (
          arith,
          length-append d2 (p2 ++ (q ++ d1)),
          length-append p2 (q ++ d1),
          length-append q d1,
        )

    stored : append_split b ((d1 ++ d2) ++ rest) (length (d1 ++ d2)) ≡ some (ok, b')
    stored =
        rw (append_assoc d1 d2 rest, length-append d1 d2, ← append_assoc p2 q d1)
          (append_split_lem b p1 (p2 ++ q) s d1 d2 rest e'
            (omega (arith, length-append p1 p2, length-append p2 q))
            (omega (arith, sizes, length-append p1 p2)) h1 h2 v.small hp
            (omega (arith, length-append p1 p2)))
