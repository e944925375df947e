-- ===== src/Buffer/Append.antt =====
-- `append` of common/BufferStatic.h against the bounded queue.
pub mod Copies
pub mod Cases
use twitch_chat_worker.Base.{
  ℕ, ◌+◌, ◌*◌, ◌≤◌, ◌<◌, ◌≡◌, refl, sym, ap, List, [], ◌++◌, length, some, arith, length-append,
  append_assoc, append-nil, ◌∷◌, if◌then◌else◌, ltb, ◌∙◌, subst, add32, sub32,
}
use twitch_chat_worker.Base.Memory.{split_at}
use twitch_chat_worker.Buffer.{Buffer, store, append, append_block, append_split}
use native.Mathlib.Decide.{dec_le}
use twitch_chat_worker.Buffer.Codes.{ok}
use twitch_chat_worker.Buffer.Holds.{Holds, linear, wrapped, Valid, store_lem}
use twitch_chat_worker.Buffer.Append.Cases.{Appended, append-linear, append-wrapped, append-wrap}

-- `append` puts the bytes behind those that are held whenever they fit in what the array has left.
-- Of the caller's bytes exactly the first `length d`, namely `d`, are taken.
pub append-fits :
    (b : Buffer) (q d rest : List ℕ)
    → Valid b q
    → length q < b.capacity
    → length q + length d ≤ b.capacity
    → Appended b q d rest
append-fits b q d rest v hq h = fits v.holds
  where
    split :
        (p s : List ℕ)
        → b.buffer ≡ p ++ (q ++ s)
        → b.head ≡ length p
        → b.tail ≡ length p + length q
        → length s < length d
        → Appended b q d rest
    split p s e hh ht k =
        (let (d1, d2, ed, h1) = split_at (length s) d (omega arith) in
          let hd : length d ≡ length d1 + length d2 = ap length ed ∙ length-append d1 d2 in
          let hb : b.capacity ≡ length p + length q + length s =
            omega (arith, v.storage, ap length e, length-append p (q ++ s), length-append q s) in
          let (p1, p2, ep, h2) = split_at (length d2) p (omega (arith, hd, hb, h1)) in
          subst (λ x. Appended b q x rest) (sym ed)
            (append-wrap b q d1 d2 rest p1 p2 s v (subst (λ x. b.buffer ≡ x ++ (q ++ s)) ep e)
              (hh ∙ ap length ep) (ht ∙ ap (λ x. length x + length q) ep) (sym h1) h2
              (omega (arith, hd, h1))))

    fits : Holds b q → Appended b q d rest
    fits (linear p s e hh ht) = elim (dec_le (length d) (length s)) [
      | yes k ↦
          (let (s1, s2, es, hs) = split_at (length d) s k in
            append-linear b q d rest p s1 s2 v hq (subst (λ x. b.buffer ≡ p ++ (q ++ x)) es e) hh ht
              hs)
      | no k ↦ split p s e hh ht (omega arith)
    ]
    fits (wrapped q1 q2 s eq e ht hh) =
        (let hb : b.capacity ≡ length q2 + length s + length q1 =
            omega (arith, v.storage, ap length e, length-append q2 (s ++ q1), length-append s q1) in
          let (s1, s2, es, hs) =
            split_at (length d) s (omega (arith, hb, ap length eq, length-append q1 q2)) in
          subst (λ x. Appended b x d rest) (sym eq)
            (append-wrapped b q1 q2 d rest s1 s2 (subst (Valid b) eq v)
              (subst (λ x. length x < b.capacity) eq hq)
              (subst (λ x. b.buffer ≡ q2 ++ (x ++ q1)) es e) ht
              (hh ∙ ap (λ x. length q2 + length x) es) hs))
