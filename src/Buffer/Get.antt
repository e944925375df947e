-- ===== src/Buffer/Get.antt =====
-- `getData`, `peekData` and `seekData` of common/BufferStatic.h: the bytes that they take.
use native.Mathlib.Decide.{dec_le}
use twitch_chat_worker.Base.{
  ℕ, ◌+◌, ◌≤◌, ◌<◌, ◌≡◌, refl, sym, ap, ◌∙◌, subst, Bool, true, false, ◌||◌, List, [], ◌++◌, length,
  some, arith, length-append, append_assoc, append-nil, if◌then◌else◌, sub32, ◌-◌, ap₂, subst₂,
  take, drop, take-append-drop, take-append_left, take-append_right, drop-append_left,
  drop-append_right, length-take,
}
use twitch_chat_worker.Base.Memory.{read-append}
use twitch_chat_worker.Buffer.{Buffer, consume, get_valid, get_linear, get_wrapped}
use twitch_chat_worker.Buffer.Codes.{ok}
use twitch_chat_worker.Buffer.Holds.{Holds, linear, wrapped, Valid}

-- `q1` is taken from the front and `q2` left, by the call with these flags.
abbrev pub Took : Buffer → Bool → Bool → Bool → List ℕ → List ℕ → Type 0
Took b out peek move_only q1 q2 =
    (head : ℕ) × (get_valid ok b out (length q1) peek move_only
      ≡ some (ok, (if move_only then [] else q1), consume b peek head (length q1)))
    × Valid (consume b false head (length q1)) q2

module _ (b : Buffer) (out peek move_only : Bool) (given : (out || move_only) ≡ true) where
  get-linear :
      (x y p s : List ℕ)
      → Valid b (x ++ y)
      → 0 < length (x ++ y)
      → b.buffer ≡ p ++ ((x ++ y) ++ s)
      → b.head ≡ length p
      → b.tail ≡ length p + length (x ++ y)
      → Took b out peek move_only x y
  unfolding get_valid get_linear consume
  get-linear x y p s v hp e hh ht = (
    b.head + length x,
    ground (arith, read-append p x (y ++ s) b.head (length x), sizes, length-append x y, e'),
    record {
      holds =
          linear (p ++ x) s (e' ∙ sym (append_assoc p x (y ++ s)))
            (omega (arith, length-append p x))
            (omega (arith, length-append p x, length-append x y));
      counted = omega (arith, v.counted, v.small, sizes, length-append x y);
      storage = v.storage;
      positive = v.positive;
      small = v.small;
    },
  )
    where
      e' : b.buffer ≡ p ++ (x ++ (y ++ s))
      e' = e ∙ ap (◌++◌ p) (append_assoc x y s)

      sizes : b.capacity ≡ length p + length x + length y + length s
      sizes = omega (
        arith,
        v.storage,
        ap length e',
        length-append p (x ++ (y ++ s)),
        length-append x (y ++ s),
        length-append y s,
      )

  -- Two blocks, and the first is long enough.
  get-first :
      (x y q2 s : List ℕ)
      → Valid b (x ++ (y ++ q2))
      → 0 < length (x ++ (y ++ q2))
      → b.buffer ≡ q2 ++ (s ++ (x ++ y))
      → b.tail ≡ length q2
      → b.head ≡ length q2 + length s
      → Took b out peek move_only x (y ++ q2)
  unfolding get_valid get_wrapped consume
  get-first x y q2 s v hp e ht hh = (
    b.head + length x,
    ground (arith, read-append (q2 ++ s) x y b.head (length x), sizes, length-append q2 s, e'),
    record {
      holds =
          wrapped y q2 (s ++ x) refl (e ∙ ap (◌++◌ q2) (sym (append_assoc s x y))) ht
            (omega (arith, length-append s x));
      counted =
          omega (arith, v.counted, v.small, sizes, length-append x (y ++ q2), length-append y q2);
      storage = v.storage;
      positive = v.positive;
      small = v.small;
    },
  )
    where
      e' : b.buffer ≡ (q2 ++ s) ++ (x ++ y)
      e' = e ∙ sym (append_assoc q2 s (x ++ y))

      sizes : b.capacity ≡ length q2 + length s + length x + length y
      sizes = omega (
        arith,
        v.storage,
        ap length e',
        length-append (q2 ++ s) (x ++ y),
        length-append q2 s,
        length-append x y,
      )

  -- Two blocks, and the first is used up.
  get-both :
      (q1 x y s : List ℕ)
      → Valid b (q1 ++ (x ++ y))
      → 0 < length x
      → b.buffer ≡ (x ++ y) ++ (s ++ q1)
      → b.tail ≡ length (x ++ y)
      → b.head ≡ length (x ++ y) + length s
      → Took b out peek move_only (q1 ++ x) y
  unfolding get_valid get_wrapped consume
  get-both q1 x y s v hp e ht hh = (
    length x,
    rw (length-append q1 x, first_len, second_len)
        (ground (
          arith,
          read-append (x ++ (y ++ s)) q1 [] b.head (length q1),
          read-append [] x (y ++ (s ++ q1)) 0 (length x),
          e',
          e ∙ append_assoc x y (s ++ q1),
          sizes,
          length-append x (y ++ s),
          length-append y s,
          length-append x y,
        )),
    record {
      holds = linear x (s ++ q1) (e ∙ append_assoc x y (s ++ q1)) refl (ht ∙ length-append x y);
      counted = omega (
        arith,
        v.counted,
        v.small,
        sizes,
        length-append q1 (x ++ y),
        length-append x y,
        length-append q1 x,
      );
      storage = v.storage;
      positive = v.positive;
      small = v.small;
    },
  )
    where
      e' : b.buffer ≡ (x ++ (y ++ s)) ++ (q1 ++ [])
      e' =
          e
          ∙ append_assoc x y (s ++ q1)
          ∙ ap (◌++◌ x) (sym (append_assoc y s q1))
          ∙ sym (append_assoc x (y ++ s) q1)
          ∙ ap (◌++◌ (x ++ (y ++ s))) (sym (append-nil q1))

      sizes : b.capacity ≡ length x + length y + length s + length q1
      sizes = omega (
        arith,
        v.storage,
        ap length e,
        length-append (x ++ y) (s ++ q1),
        length-append x y,
        length-append s q1,
      )

      first_len : sub32 b.capacity b.head ≡ length q1
      first_len = omega (arith, sizes, length-append x y, v.small)

      second_len : sub32 (length q1 + length x) (length q1) ≡ length x
      second_len = omega (arith, sizes, v.small)

  -- `len` bytes are taken from the front of the queue, wherever they lie in the array.
  pub get_valid_lem :
      (q : List ℕ) (len : ℕ)
      → Valid b q
      → 0 < length q
      → len ≤ length q
      → Took b out peek move_only (take len q) (drop len q)
  get_valid_lem q len v hp h = takes v.holds
    where
      whole : q ≡ take len q ++ drop len q
      whole = sym (take-append-drop len q)

      takes : Holds b q → Took b out peek move_only (take len q) (drop len q)
      takes (linear p s e hh ht) =
          get-linear (take len q) (drop len q) p s (subst (Valid b) whole v)
            (subst (λ x. 0 < length x) whole hp) (e ∙ ap (λ x. p ++ (x ++ s)) whole) hh
            (ht ∙ ap (λ x. length p + length x) whole)
      takes (wrapped q1 q2 s eq e ht hh) = elim (dec_le len (length q1)) [
        | yes k ↦
            (let front : take len q ≡ take len q1 =
                ap (take len) eq ∙ take-append_left len q1 q2 k in
              let back : drop len q ≡ drop len q1 ++ q2 =
                ap (drop len) eq ∙ drop-append_left len q1 q2 k in
              let q' : q ≡ take len q1 ++ (drop len q1 ++ q2) = whole ∙ ap₂ ◌++◌ front back in
              subst₂ (Took b out peek move_only) (sym front) (sym back) (
                get-first (take len q1) (drop len q1) q2 s (subst (Valid b) q' v)
                  (subst (λ x. 0 < length x) q' hp)
                  (e ∙ ap (λ x. q2 ++ (s ++ x)) (sym (take-append-drop len q1))) ht hh))
        | no k ↦
            (let n : ℕ = len - length q1 in
              let front : take len q ≡ q1 ++ take n q2 =
                ap (take len) eq ∙ take-append_right len n q1 q2 (omega arith) in
              let back : drop len q ≡ drop n q2 =
                ap (drop len) eq ∙ drop-append_right len n q1 q2 (omega arith) in
              let two : q2 ≡ take n q2 ++ drop n q2 = sym (take-append-drop n q2) in
              subst₂ (Took b out peek move_only) (sym front) (sym back) (
                get-both q1 (take n q2) (drop n q2) s (subst (Valid b) (eq ∙ ap (◌++◌ q1) two) v)
                  (omega (arith, length-take n q2, ap length eq, length-append q1 q2))
                  (e ∙ ap (λ x. x ++ (s ++ q1)) two) (ht ∙ ap length two)
                  (hh ∙ ap (λ x. length x + length s) two)))
      ]
