-- ===== src/Base/Memory.antt =====
-- Byte arrays as `memcpy` sees them. `none` is a fault: an access out of range, or a copy between
-- overlapping ranges.
use twitch_chat_worker.Base.Tests.{ltb, leb, if◌then◌else◌}
use twitch_chat_worker.Base.Lists.{
  length, take, drop, length-append, take-append_left, drop-append_right, drop-append_length,
  take-all, take-append-drop, length-take,
}
use Prim.Native.Nat.{ℕ, ◌+◌, ◌≤◌}
use mathlib.Core.Path.{◌≡◌, sym}
use mathlib.Core.Bool.{◌&&◌}
use mathlib.Core.Option.{Option, none, some}
use mathlib.Core.List.{List, ◌++◌}
use native.Mathlib.Omega.{arith}

-- `len` bytes from offset `pos`
unfoldable pub read : List ℕ → ℕ → ℕ → Option (List ℕ)
read mem pos len = if leb (pos + len) (length mem) then some (take len (drop pos mem)) else none

-- `src` stored at offset `pos`
unfoldable pub write : List ℕ → ℕ → List ℕ → Option (List ℕ)
write mem pos src =
    if leb (pos + length src) (length mem)
    then some (take pos mem ++ (src ++ drop (pos + length src) mem))
    else none

-- `memcpy(mem + dst, mem + src, n)` inside one array
unfoldable pub move : List ℕ → ℕ → ℕ → ℕ → Option (List ℕ)
unfolding read write
move mem dst src n =
    if ltb 0 n && (ltb src (dst + n) && ltb dst (src + n))
    then none
    else elim (read mem src n) [ none ↦ none | some bytes ↦ write mem dst bytes ]

pub read-append :
    (a b c : List ℕ) (pos len : ℕ)
    → length a ≡ pos
    → length b ≡ len
    → read (a ++ (b ++ c)) pos len ≡ some b
unfolding read
read-append a b c pos len ha hb = ground (
  arith,
  length-append a (b ++ c),
  length-append b c,
  drop-append_length pos a (b ++ c),
  take-append_left len b c,
  take-all len b,
)

pub write-append :
    (a b c src : List ℕ) (pos : ℕ)
    → length a ≡ pos
    → length b ≡ length src
    → write (a ++ (b ++ c)) pos src ≡ some (a ++ (src ++ c))
unfolding write
write-append a b c src pos ha hb = ground (
  arith,
  length-append a (b ++ c),
  length-append b c,
  take-append_left pos a (b ++ c),
  take-all pos a,
  drop-append_right (pos + length src) (length src) a (b ++ c),
  drop-append_length (length src) b c,
)

-- Any list splits at an offset inside it.
pub split_at :
    (n : ℕ) (xs : List ℕ)
    → n ≤ length xs
    → (a : List ℕ) × (b : List ℕ) × (xs ≡ a ++ b) × (length a ≡ n)
split_at n xs h =
    (take n xs, drop n xs, sym (take-append-drop n xs), omega (arith, length-take n xs))
