-- ===== src/Uri/Resolve/Contained.antt =====
-- No ".." is left by `removeDotSegments`, `mergePath` and `resolve`.
use twitch_chat_worker.Base.{
  ℕ, zero, suc, ◌+◌, ◌-◌, ◌*◌, ◌/◌, ◌%◌, ◌^◌, ◌≤◌, ◌<◌, ◌≡◌, refl, sym, ap, ap₂, subst, ◌∙◌, ◌≢◌,
  ◌↔◌, ◌⊎◌, inl, inr, Bool, true, false, ◌&&◌, ◌||◌, not, Option, none, some, List, [], ◌∷◌, ◌++◌,
  map, append-nil, append_assoc, arith, ltb, leb, eqb, if◌then◌else◌, Bool-cases, eqb_iff, length,
  All, All-append,
}
use twitch_chat_worker.Base.Key.{Text, codes, text_key, number_key, ◌==◌, eq_iff, eq_refl}
use twitch_chat_worker.Uri.{Uri, is_empty, is_relative}
use twitch_chat_worker.Uri.Chars.{has_char}
use twitch_chat_worker.Uri.Segments.{
  segments_from, get_path_segments, starts_with_slash, ends_with_slash, build_path, dot, dot_dot,
  without_dots, remove_dot_segments, merge_step, merged, base_segments, merge_path,
}
use twitch_chat_worker.Uri.Segments.Built.{IsSegment, AllSegments, segments_from-IsSegment}
use twitch_chat_worker.Uri.Segments.Dots.{
  IsPlain, pop_back-All, without_dots-All, segments_from-built,
}
use twitch_chat_worker.Uri.Resolve.{resolve_path, resolve}

-- Not "..": with ".", which may stand before a colon.
abbrev pub NotUp : Text → Type 0
NotUp s = (s == dot_dot) ≡ false

IsPlain-NotUp : (ss : List Text) → All IsPlain ss → All NotUp ss
IsPlain-NotUp [] h = tt
IsPlain-NotUp (s ∷ ss) (p, h) = (p.1, IsPlain-NotUp ss h)

pub build_path-NotUp :
    (u : Uri) (ss : List Text) (leading trailing : Bool)
    → AllSegments ss
    → All IsPlain ss
    → All NotUp (get_path_segments (build_path u ss leading trailing).path)
unfolding build_path segments_from twitch_chat_worker.Base.Key.text_eq
build_path-NotUp u [] leading true all plain = tt
build_path-NotUp u [] leading false all plain = tt
build_path-NotUp u (s ∷ ss) true trailing (hs, all) plain =
    rw (segments_from-built s ss trailing hs all) (IsPlain-NotUp (s ∷ ss) plain)
build_path-NotUp u (s ∷ ss) false trailing (hs, all) plain =
    let read = segments_from-built s ss trailing hs all in
    elim (Bool-cases (is_relative u && has_char b':' s)) [
      | inl e ↦ rw (e, read) (refl, IsPlain-NotUp (s ∷ ss) plain)
      | inr e ↦ rw (e, read) (IsPlain-NotUp (s ∷ ss) plain)
    ]

no_segments : (path : Text) → is_empty path ≡ true → All NotUp (get_path_segments path)
unfolding segments_from
no_segments [] h = tt
no_segments (c ∷ s) h = absurd (cc)

pub remove_dot_segments-NotUp :
    (u : Uri) → All NotUp (get_path_segments (remove_dot_segments true u).path)
unfolding remove_dot_segments has_char segments_from
remove_dot_segments-NotUp u = elim (Bool-cases (is_empty u.path)) [
  | inl e ↦ rw (e) (no_segments u.path e)
  | inr e ↦
      let kept =
        without_dots-All IsSegment [] (get_path_segments u.path) tt tt
          (segments_from-IsSegment [] u.path refl) in
      rw (e) (
        build_path-NotUp u (without_dots true [] (get_path_segments u.path))
          (starts_with_slash u.path) (ends_with_slash u.path) kept.1 kept.0)
]

merge_step-All :
    (P : Text → Type 0) (kept : List Text × Bool) (seg : Text)
    → All P kept.0
    → (IsPlain seg → P seg)
    → All P (merge_step kept seg).0
unfolding merge_step
merge_step-All P (kept, slash) seg h new = elim (Bool-cases (seg == dot_dot)) [
  | inl e ↦ rw (e) (pop_back-All P kept h)
  | inr e ↦ elim (Bool-cases (seg == dot)) [
    | inl f ↦ rw (e, f) h
    | inr f ↦ rw (e, f) (All-append P kept (seg ∷ []) h (new (f, e), tt))
  ]
]

merged-All :
    (kept : List Text × Bool) (segs : List Text)
    → All IsPlain kept.0
    → AllSegments kept.0
    → AllSegments segs
    → All IsPlain (merged kept segs).0 × AllSegments (merged kept segs).0
unfolding merged
merged-All kept [] plain h k = (plain, h)
merged-All kept (s ∷ ss) plain h (p, k) =
    merged-All (merge_step kept s) ss (merge_step-All IsPlain kept s plain (λ q. q))
      (merge_step-All IsSegment kept s h (λ _. p)) k

base_segments-IsSegment : (u : Uri) (path : Text) → AllSegments (base_segments u path)
unfolding base_segments has_char
base_segments-IsSegment u [] = tt
base_segments-IsSegment u (c ∷ s) =
    let own = segments_from-IsSegment [] u.path refl in
    elim (Bool-cases (ends_with_slash (c ∷ s))) [
      | inl e ↦ rw (e) own
      | inr e ↦ rw (e) (pop_back-All IsSegment (get_path_segments u.path) own)
    ]

pub merge_path-NotUp :
    (u : Uri) (path : Text) → All NotUp (get_path_segments (merge_path u path).path)
unfolding merge_path has_char
merge_path-NotUp u path =
    let segs = base_segments u path ++ get_path_segments path in
    let kept =
      merged-All ([], false) segs tt tt
        (All-append IsSegment (base_segments u path) (get_path_segments path)
          (base_segments-IsSegment u path) (segments_from-IsSegment [] path refl)) in
    build_path-NotUp u (merged ([], false) segs).0 (starts_with_slash path)
      (ends_with_slash path || (merged ([], false) segs).1) kept.1 kept.0

-- The reference names a scheme, a host or a path.
unfoldable pub names_place : Uri → Bool
names_place rel = not (is_empty rel.scheme) || not (is_empty rel.host) || not (is_empty rel.path)

-- Whatever the base, a resolved reference that names a scheme, a host or a path has no `..` among
-- the segments of its path.
pub resolve-NotUp :
    (base rel : Uri)
    → names_place rel ≡ true
    → All NotUp (get_path_segments (resolve base rel).path)
unfolding resolve resolve_path names_place
resolve-NotUp base rel h = elim (Bool-cases (is_empty rel.scheme)) [
  | inr e ↦ rw (e) (remove_dot_segments-NotUp (record rel { fragment = base.fragment }))
  | inl e ↦ elim (Bool-cases (is_empty rel.host)) [
    | inr f ↦
        rw (e, f)
          (remove_dot_segments-NotUp
            (record rel { scheme = base.scheme; fragment = base.fragment }))
    | inl f ↦ elim (Bool-cases (is_empty rel.path)) [
      | inl g ↦ absurd (ground (arith, e, f, g, h))
      | inr g ↦ elim (Bool-cases (starts_with_slash rel.path)) [
        | inl i ↦ rw (e, f, g, i) (remove_dot_segments-NotUp (record base { path = rel.path }))
        | inr i ↦ rw (e, f, g, i) (merge_path-NotUp base rel.path)
      ]
    ]
  ]
]
