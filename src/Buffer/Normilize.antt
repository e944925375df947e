-- ===== src/Buffer/Normilize.antt =====
-- `normilize` of common/BufferStatic.h: where its copies are defined, and where they overlap.
use native.Mathlib.Decide.{dec_lt}
use twitch_chat_worker.Base.{
  ℕ, ◌+◌, ◌-◌, ◌≤◌, ◌<◌, ◌≡◌, refl, sym, ap, ◌∙◌, subst, List, [], ◌++◌, length, none, some, arith,
  min, length-append, append_assoc, append-nil, nil_of_length, sub32,
}
use twitch_chat_worker.Base.Memory.{move, read-append, write-append, split_at}
use twitch_chat_worker.Buffer.{Buffer, normilize, normilize_blocks}
use twitch_chat_worker.Buffer.Holds.{Holds, linear, wrapped, Valid}
use twitch_chat_worker.Buffer.Linear.{sizes_linear, sizes_wrapped}

-- Moving `q` to the front of the array, where the two ranges do not overlap.
move-front :
    (x q s : List ℕ) (head size : ℕ)
    → head ≡ length x
    → size ≡ length q
    → length q ≤ length x
    → (rest : List ℕ) × (move (x ++ (q ++ s)) 0 head size ≡ some (q ++ rest))
      × (length rest ≡ length x + length s)
unfolding move
move-front x q s head size hh hs h =
    (let (a, c, e, ha) = split_at (length q) x h in
      (
        c ++ (q ++ s),
        ground (
          arith,
          read-append x q s head size,
          write-append [] a (c ++ (q ++ s)) q 0,
          ap (λ y. y ++ (q ++ s)) e ∙ append_assoc a c (q ++ s),
        ),
        omega (arith, ap length e, length-append a c, length-append c (q ++ s), length-append q s),
      ))

-- Any array that begins with the bytes, with `head` at 0 and `tail` behind them.
front-Valid :
    (b : Buffer) (q rest : List ℕ)
    → Valid b q
    → length q + length rest ≡ b.capacity
    → Valid (record b { buffer = q ++ rest; head = 0; tail = b.size }) q
front-Valid b q rest v h = record {
  holds = linear [] rest refl refl (omega (arith, v.counted));
  counted = v.counted;
  storage = omega (arith, length-append q rest);
  positive = v.positive;
  small = v.small;
}

-- The blocks are put in order at the front of the array.
blocks-linear :
    (b : Buffer) (q p s : List ℕ)
    → Valid b q
    → b.buffer ≡ p ++ (q ++ s)
    → b.head ≡ length p
    → b.tail ≡ length p + length q
    → 0 < length q
    → length q ≤ length p
    → (rest : List ℕ) × (normilize_blocks b ≡ some (q ++ rest))
      × (length q + length rest ≡ b.capacity)
unfolding normilize_blocks
blocks-linear b q p s v e hh ht hq h =
    (let (rest, m, hr) = move-front p q s b.head b.size hh v.counted h in
      (rest, ground (arith, m, e), omega (arith, hr, sizes_linear b q p s v e)))

-- What the blocks become: the bytes in order, and whatever stands behind them.
abbrev Ordered : Buffer → List ℕ → Type 0
Ordered b q =
    (rest : List ℕ) × (normilize_blocks b ≡ some (q ++ rest))
    × (length q + length rest ≡ b.capacity)

blocks-one :
    (b : Buffer) (q s : List ℕ)
    → Valid b q
    → b.buffer ≡ s ++ q
    → b.tail ≡ 0
    → b.head ≡ length s
    → length q ≤ length s
    → Ordered b q
unfolding normilize_blocks
blocks-one b q s v e ht hh h =
    (let (rest, m, hr) = move-front s q [] b.head b.size hh v.counted h in
      (
        rest,
        ground (arith, m, e, append-nil q),
        omega (arith, hr, v.storage, ap length e, length-append s q),
      ))

blocks-two :
    (b : Buffer) (q1 q2 s : List ℕ)
    → Valid b (q1 ++ q2)
    → b.buffer ≡ q2 ++ (s ++ q1)
    → b.tail ≡ length q2
    → b.head ≡ length q2 + length s
    → 0 < length q2
    → length q1 ≤ b.head
    → Ordered b (q1 ++ q2)
unfolding normilize_blocks
blocks-two b q1 q2 s v e ht hh hp h =
    (let (r, m, hr) =
        move-front (q2 ++ s) q1 [] b.head (length q1) there refl (omega (arith, there)) in
      let (r1, r2, er, h1) = split_at (length q2) r (omega (arith, hr, there)) in
      (
        r2,
        rw first_len (
            rw second_len (
              ground (
                arith,
                read-append [] q2 (s ++ q1) 0 (length q2),
                m,
                write-append q1 r1 r2 q2 (length q1),
                e,
                e',
                ap (◌++◌ q1) er,
                append_assoc q1 q2 r2,
              ))),
        omega (arith, hr, ap length er, length-append r1 r2, h1, sizes, length-append q1 q2, there),
      ))
  where
    sizes : b.capacity ≡ length q1 + length q2 + length s
    sizes = sizes_wrapped b (q1 ++ q2) q1 q2 s v e

    there : b.head ≡ length (q2 ++ s)
    there = omega (arith, length-append q2 s)

    e' : b.buffer ≡ (q2 ++ s) ++ (q1 ++ [])
    e' = e ∙ sym (append_assoc q2 s q1) ∙ ap (◌++◌ (q2 ++ s)) (sym (append-nil q1))

    first_len : sub32 b.capacity b.head ≡ length q1
    first_len = omega (arith, sizes, v.small)

    second_len : sub32 b.size (length q1) ≡ length q2
    second_len = omega (arith, v.counted, length-append q1 q2, sizes, v.small)

-- For a buffer that holds `q`, with its head behind offset 0 and a first block not longer than the
-- space in front of it, `normilize` succeeds: the buffer holds `q` from offset 0 on, as one block.
pub normilize-Valid :
    (b : Buffer) (q : List ℕ)
    → Valid b q
    → 0 < b.head
    → min b.size (b.capacity - b.head) ≤ b.head
    → (b' : Buffer) × (normilize b ≡ some b') × Valid b' q × (b'.head ≡ 0) × (b'.tail ≡ length q)
unfolding normilize
normilize-Valid b q v hp h = elim (dec_lt 0 (length q)) [
  | yes more ↦
      (let (rest, m, hr) = ordered more v.holds in
        (
          record b { buffer = q ++ rest; head = 0; tail = b.size },
          ground (arith, m, v.counted),
          front-Valid b q rest v hr,
          refl,
          v.counted,
        ))
  | no empty ↦
      (let z : q ≡ [] = nil_of_length q (omega arith) in
        (
          record b { head = 0; tail = b.size },
          ground (arith, v.counted),
          subst (Valid (record b { head = 0; tail = b.size })) (sym z)
              (front-Valid b [] b.buffer (subst (Valid b) z v) (omega (arith, v.storage))),
          refl,
          v.counted,
        ))
]
  where
    wraps :
        (q1 q2 s : List ℕ)
        → q ≡ q1 ++ q2
        → b.buffer ≡ q2 ++ (s ++ q1)
        → b.tail ≡ length q2
        → b.head ≡ length q2 + length s
        → Dec (0 < length q2)
        → Ordered b q
    wraps q1 q2 s eq e ht hh (yes two) = subst (Ordered b) (sym eq) (
        blocks-two b q1 q2 s (subst (Valid b) eq v) e ht hh two (
          omega
            (arith, v.counted, sizes_wrapped b q q1 q2 s v e, ap length eq, length-append q1 q2)))
    wraps q1 q2 s eq e ht hh (no one) =
        (let z : q2 ≡ [] = nil_of_length q2 (omega arith) in
          let w : q ≡ q1 = eq ∙ ap (◌++◌ q1) z ∙ append-nil q1 in
          subst (Ordered b) (sym w) (
            blocks-one b q1 s (subst (Valid b) w v) (e ∙ ap (λ x. x ++ (s ++ q1)) z)
              (omega (arith, ht)) (omega (arith, hh))
              (omega (
                arith,
                v.counted,
                sizes_wrapped b q q1 q2 s v e,
                ap length eq,
                length-append q1 q2,
              ))))

    ordered : 0 < length q → Holds b q → Ordered b q
    ordered more (linear p s e hh ht) =
        blocks-linear b q p s v e hh ht more (omega (arith, v.counted, sizes_linear b q p s v e))
    ordered more (wrapped q1 q2 s eq e ht hh) = wraps q1 q2 s eq e ht hh (dec_lt 0 (length q2))

-- For a buffer that holds bytes, with its head behind offset 0 and a first block longer than the
-- space in front of it, `normilize` calls `memcpy` on overlapping ranges.
pub normilize_overlaps :
    (b : Buffer) (q : List ℕ)
    → Valid b q
    → 0 < b.head
    → b.head < min b.size (b.capacity - b.head)
    → normilize b ≡ none
unfolding normilize normilize_blocks move
normilize_overlaps b q v hp h = faults v.holds
  where
    faults : Holds b q → normilize b ≡ none
    faults (linear p s e hh ht) = ground (arith, v.counted, sizes_linear b q p s v e)
    faults (wrapped q1 q2 s eq e ht hh) = ground (
      arith,
      v.counted,
      v.small,
      sizes_wrapped b q q1 q2 s v e,
      ap length eq,
      length-append q1 q2,
      read-append [] q2 (s ++ q1) 0 (length q2),
    )
