-- ===== src/Buffer/Linear.antt =====
-- The interface of common/BufferStatic.h for callers that write into the array themselves:
-- `getLinearFreeSpace`, `getLinearAppendPtr`, `expandSize`, and `clear`.
use native.Mathlib.Decide.{ℕ_discrete}
use twitch_chat_worker.Base.{
  ℕ, ◌+◌, ◌≤◌, ◌<◌, ◌≡◌, refl, sym, ap, ◌∙◌, subst, Option, List, [], ◌++◌, length, some, arith,
  length-append, append_assoc, append-nil, nil_of_length,
}
use twitch_chat_worker.Base.Fault.{◌>>=◌}
use twitch_chat_worker.Base.Memory.{write, write-append, split_at}
use twitch_chat_worker.Buffer.{
  Buffer, get_total_free_space, get_linear_free_space, get_linear_append_ptr, expand_size, clear,
}
use twitch_chat_worker.Buffer.Codes.{Status, ok}
use twitch_chat_worker.Buffer.Holds.{Holds, linear, wrapped, Valid}

-- What the callers in common/tests/BufferStaticTest.cpp do: fetch the pointer, copy the bytes there,
-- announce them.
unfoldable pub append_in_place : Buffer → List ℕ → Option (Status × Buffer)
append_in_place b d = do
  let (ptr, b') = get_linear_append_ptr b
  mem ← write b'.buffer ptr d
  some (expand_size (record b' { buffer = mem }) (length d))

-- `clear` forgets the bytes and nothing else.
pub clear-Valid : (b : Buffer) (q : List ℕ) → Valid b q → Valid (clear b) []
unfolding clear
clear-Valid b q v = record {
  holds = linear [] b.buffer refl refl refl;
  counted = refl;
  storage = v.storage;
  positive = v.positive;
  small = v.small;
}

pub sizes_linear :
    (b : Buffer) (q p s : List ℕ)
    → Valid b q
    → b.buffer ≡ p ++ (q ++ s)
    → b.capacity ≡ length p + length q + length s
sizes_linear b q p s v e =
    omega (arith, v.storage, ap length e, length-append p (q ++ s), length-append q s)

pub sizes_wrapped :
    (b : Buffer) (q q1 q2 s : List ℕ)
    → Valid b q
    → b.buffer ≡ q2 ++ (s ++ q1)
    → b.capacity ≡ length q1 + length q2 + length s
sizes_wrapped b q q1 q2 s v e =
    omega (arith, v.storage, ap length e, length-append q2 (s ++ q1), length-append s q1)

-- A buffer that holds bytes and is not full reports no more linear space than there is space at
-- all.
pub linear-le-total :
    (b : Buffer) (q : List ℕ)
    → Valid b q
    → length q < b.capacity
    → get_linear_free_space b ≤ get_total_free_space b
unfolding get_linear_free_space get_total_free_space
linear-le-total b q v h = bound v.holds
  where
    bound : Holds b q → get_linear_free_space b ≤ get_total_free_space b
    bound (linear p s e hh ht) = ground (arith, v.counted, v.small, sizes_linear b q p s v e)
    bound (wrapped q1 q2 s eq e ht hh) = ground (
      arith,
      v.counted,
      v.small,
      ap length eq,
      length-append q1 q2,
      sizes_wrapped b q q1 q2 s v e,
    )

-- A full buffer whose head and tail are equal and before the end of the array reports linear
-- space, though it has no space at all.
pub full_reports_space :
    (b : Buffer) (q : List ℕ)
    → Valid b q
    → length q ≡ b.capacity
    → b.head ≡ b.tail
    → b.tail < b.capacity
    → (0 < get_linear_free_space b) × (get_total_free_space b ≡ 0)
unfolding get_linear_free_space get_total_free_space
full_reports_space b q v h k l = ground (arith, v.counted, v.small)

-- The offset that `getLinearAppendPtr` hands out.
abbrev pub append_ptr : Buffer → ℕ
append_ptr b = (get_linear_append_ptr b).0

abbrev pub Placed : Buffer → List ℕ → List ℕ → Type 0
Placed b q d =
    (b' : Buffer) × (append_in_place b d ≡ some (ok, b'))
    × Valid b' (q ++ d)
    × (b'.capacity ≡ b.capacity)

in_place_lem :
    (b : Buffer) (q x y z d : List ℕ)
    → Valid b q
    → b.buffer ≡ x ++ (y ++ z)
    → append_ptr b ≡ length x
    → length y ≡ length d
    → length q + length d ≤ b.capacity
    → append_in_place b d
      ≡ some (
        ok,
        record b { buffer = x ++ (d ++ z); tail = length x + length d; size = b.size + length d },
      )
unfolding append_in_place get_linear_append_ptr expand_size
in_place_lem b q x y z d v e hx hy h = ground (
  arith,
  write-append x y z d (append_ptr b),
  v.counted,
  v.small,
  v.storage,
  ap length e,
  length-append x (y ++ z),
  length-append y z,
)

in_place-linear :
    (b : Buffer) (q d p s1 s2 : List ℕ)
    → Valid b q
    → length q < b.capacity
    → b.buffer ≡ p ++ (q ++ (s1 ++ s2))
    → b.head ≡ length p
    → b.tail ≡ length p + length q
    → b.tail < b.capacity
    → length s1 ≡ length d
    → Placed b q d
unfolding get_linear_append_ptr
in_place-linear b q d p s1 s2 v hq e hh ht hc hs = (
  record b {
    buffer = (p ++ q) ++ (d ++ s2);
    tail = length (p ++ q) + length d;
    size = b.size + length d;
  },
  in_place_lem b q (p ++ q) s1 s2 d v (e ∙ sym (append_assoc p q (s1 ++ s2)))
      (ground (arith, length-append p q)) hs (omega (arith, sizes)),
  record {
    holds =
        linear p s2 (append_assoc p q (d ++ s2) ∙ ap (◌++◌ p) (sym (append_assoc q d s2))) hh
          (omega (arith, length-append p q, length-append q d));
    counted = omega (arith, v.counted, length-append q d);
    storage =
        omega
          (arith, sizes, length-append (p ++ q) (d ++ s2), length-append p q, length-append d s2);
    positive = v.positive;
    small = v.small;
  },
  refl,
)
  where
    sizes : b.capacity ≡ length p + length q + length d + length s2
    sizes = omega (arith, sizes_linear b q p (s1 ++ s2) v e, length-append s1 s2)

in_place-wrap :
    (b : Buffer) (q d p1 p2 : List ℕ)
    → Valid b q
    → length q < b.capacity
    → b.buffer ≡ (p1 ++ p2) ++ q
    → b.head ≡ length (p1 ++ p2)
    → b.tail ≡ b.capacity
    → length p1 ≡ length d
    → Placed b q d
unfolding get_linear_append_ptr
in_place-wrap b q d p1 p2 v hq e hh ht hs = (
  record b { buffer = d ++ (p2 ++ q); tail = 0 + length d; size = b.size + length d },
  in_place_lem b q [] p1 (p2 ++ q) d v (e ∙ append_assoc p1 p2 q) (ground (arith, v.counted)) hs
      (omega (arith, sizes)),
  record {
    holds = wrapped q d p2 refl refl (omega arith) (omega (arith, length-append p1 p2));
    counted = omega (arith, v.counted, length-append q d);
    storage = omega (arith, sizes, length-append d (p2 ++ q), length-append p2 q);
    positive = v.positive;
    small = v.small;
  },
  refl,
)
  where
    sizes : b.capacity ≡ length d + length p2 + length q
    sizes = omega (arith, v.storage, ap length e, length-append (p1 ++ p2) q, length-append p1 p2)

in_place-wrapped :
    (b : Buffer) (q1 q2 d s1 s2 : List ℕ)
    → Valid b (q1 ++ q2)
    → length (q1 ++ q2) < b.capacity
    → b.buffer ≡ q2 ++ ((s1 ++ s2) ++ q1)
    → b.tail ≡ length q2
    → b.head ≡ length q2 + length (s1 ++ s2)
    → length s1 ≡ length d
    → Placed b (q1 ++ q2) d
unfolding get_linear_append_ptr
in_place-wrapped b q1 q2 d s1 s2 v hq e ht hh hs = (
  record b {
    buffer = q2 ++ (d ++ (s2 ++ q1));
    tail = length q2 + length d;
    size = b.size + length d;
  },
  in_place_lem b (q1 ++ q2) q2 s1 (s2 ++ q1) d v (e ∙ ap (◌++◌ q2) (append_assoc s1 s2 q1))
      (ground (arith, sizes, length-append q1 q2)) hs (omega (arith, sizes, length-append q1 q2)),
  record {
    holds =
        wrapped q1 (q2 ++ d) s2 (append_assoc q1 q2 d) (sym (append_assoc q2 d (s2 ++ q1)))
          (omega (arith, length-append q2 d))
          (omega (arith, length-append q2 d, length-append s1 s2));
    counted = omega (arith, v.counted, length-append (q1 ++ q2) d);
    storage = omega (
      arith,
      sizes,
      length-append q2 (d ++ (s2 ++ q1)),
      length-append d (s2 ++ q1),
      length-append s2 q1,
    );
    positive = v.positive;
    small = v.small;
  },
  refl,
)
  where
    sizes : b.capacity ≡ length q1 + length q2 + length d + length s2
    sizes = omega (arith, sizes_wrapped b (q1 ++ q2) q1 q2 (s1 ++ s2) v e, length-append s1 s2)

-- For a buffer that holds `q` and is not full, at most as many bytes as `getLinearFreeSpace` reports
-- can be written at `getLinearAppendPtr` and announced by `expandSize`: the write stays inside the
-- array, the call succeeds, and the buffer holds `q` and behind it those bytes.
pub append_in_place-Valid :
    (b : Buffer) (q d : List ℕ)
    → Valid b q
    → length q < b.capacity
    → length d ≤ get_linear_free_space b
    → Placed b q d
unfolding get_linear_free_space get_total_free_space
append_in_place-Valid b q d v hq h = place v.holds
  where
    place : Holds b q → Placed b q d
    place (linear p s e hh ht) = elim (ℕ_discrete b.tail b.capacity) [
      | yes full ↦
          (let none_left : length s ≡ 0 = omega (arith, sizes_linear b q p s v e) in
            let (p1, p2, ep, hp) =
              split_at (length d) p
                (ground (arith, v.counted, v.small, sizes_linear b q p s v e)) in
            in_place-wrap b q d p1 p2 v hq
              (e
                ∙ ap (λ x. p ++ (q ++ x)) (nil_of_length s none_left)
                ∙ ap (◌++◌ p) (append-nil q)
                ∙ ap (λ x. x ++ q) ep)
              (hh ∙ ap length ep) full hp)
      | no more ↦
          (let (s1, s2, es, hs) =
              split_at (length d) s
                (ground (arith, v.counted, v.small, sizes_linear b q p s v e)) in
            in_place-linear b q d p s1 s2 v hq (e ∙ ap (λ x. p ++ (q ++ x)) es) hh ht
              (omega (arith, more, sizes_linear b q p s v e)) hs)
    ]
    place (wrapped q1 q2 s eq e ht hh) =
        (let sizes : b.capacity ≡ length q1 + length q2 + length s =
            sizes_wrapped b q q1 q2 s v e in
          let (s1, s2, es, hs) =
            split_at (length d) s
              (ground (arith, v.counted, v.small, sizes, ap length eq, length-append q1 q2)) in
          subst (λ x. Placed b x d) (sym eq)
            (in_place-wrapped b q1 q2 d s1 s2 (subst (Valid b) eq v)
              (subst (λ x. length x < b.capacity) eq hq) (e ∙ ap (λ x. q2 ++ (x ++ q1)) es) ht
              (hh ∙ ap (λ x. length q2 + length x) es) hs))
