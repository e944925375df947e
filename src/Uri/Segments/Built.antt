-- ===== src/Uri/Segments/Built.antt =====
-- `buildPath`: the segments and the slashes of the path that it makes.
use twitch_chat_worker.Base.{
  ℕ, ◌≡◌, refl, ap, ◌∙◌, inl, inr, Bool, true, false, List, [], ◌∷◌, ◌++◌, append-nil, append_assoc,
  arith, eqb, Bool-cases, All,
}
use twitch_chat_worker.Base.Key.{Text, text_key, number_key}
use twitch_chat_worker.Uri.{is_empty}
use twitch_chat_worker.Uri.Chars.{has_char}
use twitch_chat_worker.Uri.Segments.{segments_from, ends_with_slash, slash_if, slashed}

-- Not empty, and without a slash.
abbrev pub IsSegment : Text → Type 0
IsSegment s = (is_empty s ≡ false) × (has_char b'/' s ≡ false)

abbrev pub AllSegments : List Text → Type 0
AllSegments = All IsSegment

pub is_empty-append : (s : Text) (c : ℕ) (t : Text) → is_empty (s ++ c ∷ t) ≡ false
is_empty-append [] c t = refl
is_empty-append (d ∷ s) c t = refl

has_char-append_one :
    (s : Text) (c : ℕ)
    → has_char b'/' s ≡ false
    → eqb c b'/' ≡ false
    → has_char b'/' (s ++ c ∷ []) ≡ false
unfolding has_char
has_char-append_one [] c h e = rw (e)
has_char-append_one (d ∷ s) c h e = ground (arith, has_char-append_one s c)

pub has_char-cons_slash :
    (c : ℕ) (s : Text)
    → has_char b'/' (c ∷ s) ≡ false
    → (eqb c b'/' ≡ false) × (has_char b'/' s ≡ false)
unfolding has_char
has_char-cons_slash c s h = ground arith

pub segments_from-append :
    (acc s t : Text)
    → has_char b'/' s ≡ false
    → segments_from acc (s ++ t) ≡ segments_from (acc ++ s) t
unfolding segments_from
segments_from-append acc [] t h = rw (append-nil acc)
segments_from-append acc (c ∷ s) t h =
    let split = has_char-cons_slash c s h in
    rw (split.0, segments_from)
      (segments_from-append (acc ++ c ∷ []) s t split.1
        ∙ ap (λ a. segments_from a t) (append_assoc acc (c ∷ []) s))

pub segments_from-slash :
    (acc t : Text) → is_empty acc ≡ false → segments_from acc (b'/' ∷ t) ≡ acc ∷ segments_from [] t
unfolding segments_from
segments_from-slash acc t h = rw (h)

pub segments_from-slashed :
    (acc : Text) (ss : List Text) (trailing : Bool)
    → is_empty acc ≡ false
    → AllSegments ss
    → segments_from acc (slashed ss ++ slash_if trailing) ≡ acc ∷ ss
unfolding segments_from
segments_from-slashed acc [] true h all = rw (h)
segments_from-slashed acc [] false h all = rw (h)
segments_from-slashed acc (s ∷ ss) trailing h ((hs, ns), all) = rw (
  segments_from-slash acc ((s ++ slashed ss) ++ slash_if trailing) h,
  append_assoc s (slashed ss) (slash_if trailing),
  segments_from-append [] s (slashed ss ++ slash_if trailing) ns,
  segments_from-slashed s ss trailing hs all,
)

-- What is read from any text.
pub segments_from-IsSegment :
    (acc s : Text) → has_char b'/' acc ≡ false → AllSegments (segments_from acc s)
unfolding segments_from has_char
segments_from-IsSegment acc [] h = elim (Bool-cases (is_empty acc)) [
  | inl e ↦ rw (e) tt
  | inr e ↦ rw (e) ((e, h), tt)
]
segments_from-IsSegment acc (c ∷ s) h = elim (Bool-cases (eqb c b'/')) [
  | inl e ↦ elim (Bool-cases (is_empty acc)) [
    | inl f ↦ rw (e, f, segments_from) (segments_from-IsSegment [] s refl)
    | inr f ↦ rw (e, f, segments_from) ((f, h), segments_from-IsSegment [] s refl)
  ]
  | inr e ↦
      rw (e, segments_from)
        (segments_from-IsSegment (acc ++ c ∷ []) s (has_char-append_one acc c h e))
]

pub ends_with_slash-append :
    (s : Text) (c : ℕ) (t : Text) → ends_with_slash (s ++ c ∷ t) ≡ ends_with_slash (c ∷ t)
unfolding ends_with_slash
ends_with_slash-append [] c t = refl
ends_with_slash-append (d ∷ []) c t = refl
ends_with_slash-append (d ∷ e ∷ s) c t = ends_with_slash-append (e ∷ s) c t

ends_with_slash-segment : (s : Text) → has_char b'/' s ≡ false → ends_with_slash s ≡ false
unfolding ends_with_slash
ends_with_slash-segment [] h = refl
ends_with_slash-segment (c ∷ []) h = (has_char-cons_slash c [] h).0
ends_with_slash-segment (c ∷ d ∷ s) h =
    ends_with_slash-segment (d ∷ s) (has_char-cons_slash c (d ∷ s) h).1

-- A segment is not empty, so that what stands before it does not matter.
pub ends_with_slash-before :
    (t s r : Text) → is_empty s ≡ false → ends_with_slash (t ++ (s ++ r)) ≡ ends_with_slash (s ++ r)
ends_with_slash-before t [] r h = absurd (cc)
ends_with_slash-before t (c ∷ s) r h = ends_with_slash-append t c (s ++ r)

pub ends_with_slash-slashed :
    (s : Text) (ss : List Text)
    → IsSegment s
    → AllSegments ss
    → ends_with_slash (s ++ slashed ss) ≡ false
ends_with_slash-slashed s [] (hs, ns) all = rw (append-nil s) (ends_with_slash-segment s ns)
ends_with_slash-slashed s (r ∷ rs) hs (hr, all) = rw (
  ends_with_slash-append s b'/' (r ++ slashed rs),
  ends_with_slash-before (b'/' ∷ []) r (slashed rs) hr.0,
  ends_with_slash-slashed r rs hr all,
)
