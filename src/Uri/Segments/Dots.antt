-- ===== src/Uri/Segments/Dots.antt =====
-- `removeDotSegments`: what it leaves, and what it does to its own result.
use twitch_chat_worker.Base.{
  ℕ, zero, suc, ◌+◌, ◌-◌, ◌*◌, ◌/◌, ◌%◌, ◌^◌, ◌≤◌, ◌<◌, ◌≡◌, refl, sym, ap, ap₂, subst, ◌∙◌, ◌≢◌,
  ◌↔◌, ◌⊎◌, inl, inr, Bool, true, false, ◌&&◌, ◌||◌, not, Option, none, some, List, [], ◌∷◌, ◌++◌,
  map, append-nil, append_assoc, arith, ltb, leb, eqb, if◌then◌else◌, Bool-cases, eqb_iff, length,
  All, All-append,
}
use twitch_chat_worker.Base.Key.{Text, codes, text_key, number_key, ◌==◌, eq_iff, eq_refl}
use twitch_chat_worker.Uri.{Uri, is_empty, is_relative}
use twitch_chat_worker.Uri.Chars.{has_char}
use twitch_chat_worker.Uri.Segments.{
  segments_from, get_path_segments, starts_with_slash, ends_with_slash, slash_if, slashed,
  before_first, build_path, dot, dot_dot, pop_back, back_is_dot_dot, dot_step, without_dots,
  remove_dot_segments,
}
use twitch_chat_worker.Uri.Segments.Built.{
  IsSegment, AllSegments, segments_from-append, segments_from-slashed, segments_from-IsSegment,
  ends_with_slash-append, ends_with_slash-before, ends_with_slash-slashed, has_char-cons_slash,
}

-- Neither "." nor "..".
abbrev pub IsPlain : Text → Type 0
IsPlain s = ((s == dot) ≡ false) × ((s == dot_dot) ≡ false)

pub pop_back-All : (P : Text → Type 0) (ss : List Text) → All P ss → All P (pop_back ss)
pop_back-All P [] h = tt
pop_back-All P (a ∷ []) h = tt
pop_back-All P (a ∷ b ∷ ss) (p, h) = (p, pop_back-All P (b ∷ ss) h)

back_is_dot_dot-plain : (ss : List Text) → All IsPlain ss → back_is_dot_dot ss ≡ false
back_is_dot_dot-plain [] h = refl
back_is_dot_dot-plain (a ∷ []) (p, h) = p.1
back_is_dot_dot-plain (a ∷ b ∷ ss) (p, h) = back_is_dot_dot-plain (b ∷ ss) h

-- A property of all segments but the dots.
module _ (P : Text → Type 0) where
  dot_step-All :
      (kept : List Text) (seg : Text)
      → All IsPlain kept
      → All P kept
      → (IsPlain seg → P seg)
      → All P (dot_step true kept seg)
  unfolding dot_step
  dot_step-All kept seg plain h new = elim (Bool-cases (seg == dot_dot)) [
    | inl e ↦ elim (Bool-cases (is_empty kept)) [
      | inl f ↦ rw (e, f) h
      | inr f ↦ rw (e, f, back_is_dot_dot-plain kept plain) (pop_back-All P kept h)
    ]
    | inr e ↦ elim (Bool-cases (seg == dot)) [
      | inl f ↦ rw (e, f) h
      | inr f ↦ rw (e, f) (All-append P kept (seg ∷ []) h (new (f, e), tt))
    ]
  ]

pub without_dots-All :
    (P : Text → Type 0) (kept segs : List Text)
    → All IsPlain kept
    → All P kept
    → All P segs
    → All IsPlain (without_dots true kept segs) × All P (without_dots true kept segs)
unfolding without_dots
without_dots-All P kept [] plain h k = (plain, h)
without_dots-All P kept (s ∷ ss) plain h (p, k) =
    without_dots-All P (dot_step true kept s) ss (dot_step-All IsPlain kept s plain plain (λ q. q))
      (dot_step-All P kept s plain h (λ _. p)) k

pub without_dots-plain :
    (kept segs : List Text) → All IsPlain segs → without_dots true kept segs ≡ kept ++ segs
unfolding without_dots dot_step
without_dots-plain kept [] h = sym (append-nil kept)
without_dots-plain kept (s ∷ ss) ((d, dd), h) =
    rw (d, dd) (without_dots-plain (kept ++ s ∷ []) ss h ∙ append_assoc kept (s ∷ []) ss)

-- The segments of `first` and those after it, read again.
pub segments_from-built :
    (s : Text) (ss : List Text) (trailing : Bool)
    → IsSegment s
    → AllSegments ss
    → segments_from [] ((s ++ slashed ss) ++ slash_if trailing) ≡ s ∷ ss
segments_from-built s ss trailing hs all =
    rw
      (
        append_assoc s (slashed ss) (slash_if trailing),
        segments_from-append [] s (slashed ss ++ slash_if trailing) hs.1,
      )
      (segments_from-slashed s ss trailing hs.0 all)

ends_with_slash-built :
    (b s : Text) (ss : List Text) (trailing : Bool)
    → IsSegment s
    → AllSegments ss
    → ends_with_slash (((b ++ s) ++ slashed ss) ++ slash_if trailing) ≡ trailing
unfolding ends_with_slash
ends_with_slash-built b s ss true hs all = ends_with_slash-append ((b ++ s) ++ slashed ss) b'/' []
ends_with_slash-built b s ss false hs all = rw (
  append-nil ((b ++ s) ++ slashed ss),
  append_assoc b s (slashed ss),
  ends_with_slash-before b s (slashed ss) hs.0,
  ends_with_slash-slashed s ss hs all,
)

starts_with_slash-segment : (s r : Text) → IsSegment s → starts_with_slash (s ++ r) ≡ false
starts_with_slash-segment [] r (h, n) = absurd (cc)
starts_with_slash-segment (c ∷ s) r (h, n) = (has_char-cons_slash c s n).0

-- The path that is built is not empty.
is_empty-built :
    (b s : Text) (ss : List Text) (t : Text)
    → IsSegment s
    → is_empty (((b ++ s) ++ slashed ss) ++ t) ≡ false
is_empty-built b [] ss t (h, n) = absurd (cc)
is_empty-built [] (c ∷ s) ss t h = refl
is_empty-built (d ∷ b) (c ∷ s) ss t h = refl

-- The path of `b` and the segments, when `b` reads as `before`.
rebuilt :
    (u : Uri) (b s : Text) (ss : List Text) (leading trailing : Bool)
    → IsSegment s
    → AllSegments ss
    → before_first u leading s ≡ b
    → starts_with_slash (((b ++ s) ++ slashed ss) ++ slash_if trailing) ≡ leading
    → without_dots true [] (segments_from [] (((b ++ s) ++ slashed ss) ++ slash_if trailing))
      ≡ s ∷ ss
    → remove_dot_segments true (build_path u (s ∷ ss) leading trailing)
      ≡ build_path u (s ∷ ss) leading trailing
unfolding remove_dot_segments build_path
rebuilt u b s ss leading trailing hs all hb starts segs = rw (
  hb,
  is_empty-built b s ss (slash_if trailing) hs,
  starts,
  segs,
  ends_with_slash-built b s ss trailing hs all,
  hb,
)

remove_dot_segments-build_path :
    (u : Uri) (ss : List Text) (leading trailing : Bool)
    → AllSegments ss
    → All IsPlain ss
    → remove_dot_segments true (build_path u ss leading trailing) ≡ build_path u ss leading trailing
unfolding remove_dot_segments build_path segments_from without_dots ends_with_slash dot_step
    twitch_chat_worker.Base.Key.text_eq
remove_dot_segments-build_path u [] leading true all plain = refl
remove_dot_segments-build_path u [] leading false all plain = refl
remove_dot_segments-build_path u (s ∷ ss) true trailing (hs, all) plain =
    rebuilt u (b'/' ∷ []) s ss true trailing hs all refl refl (
      ap (without_dots true []) (segments_from-built s ss trailing hs all)
      ∙ without_dots-plain [] (s ∷ ss) plain)
remove_dot_segments-build_path u (s ∷ ss) false trailing (hs, all) plain =
    let again : without_dots true [] (s ∷ ss) ≡ s ∷ ss = without_dots-plain [] (s ∷ ss) plain in
    let read = segments_from-built s ss trailing hs all in
    elim (Bool-cases (is_relative u && has_char b':' s)) [
      | inl e ↦
          rebuilt u (codes "./") s ss false trailing hs all (rw (e)) refl
            (ap (λ r. without_dots true [] (dot ∷ r)) read ∙ again)
      | inr e ↦
          rebuilt u [] s ss false trailing hs all (rw (e))
            (ap starts_with_slash (append_assoc s (slashed ss) (slash_if trailing))
              ∙ starts_with_slash-segment s (slashed ss ++ slash_if trailing) hs)
            (ap (without_dots true []) read ∙ again)
    ]

-- Removing the dot segments of a path, leading ones included, a second time changes nothing.
pub remove_dot_segments-remove_dot_segments :
    (u : Uri) → remove_dot_segments true (remove_dot_segments true u) ≡ remove_dot_segments true u
unfolding remove_dot_segments has_char
remove_dot_segments-remove_dot_segments u = elim (Bool-cases (is_empty u.path)) [
  | inl e ↦ rw (e, e)
  | inr e ↦
      let kept =
        without_dots-All IsSegment [] (get_path_segments u.path) tt tt
          (segments_from-IsSegment [] u.path refl) in
      rw (e) (
        remove_dot_segments-build_path u (without_dots true [] (get_path_segments u.path))
          (starts_with_slash u.path) (ends_with_slash u.path) kept.1 kept.0)
]
