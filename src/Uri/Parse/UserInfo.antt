-- ===== src/Uri/Parse/UserInfo.antt =====
-- The user information of a URI that is parsed.
use twitch_chat_worker.Base.{
  ◌≡◌, refl, subst, inl, inr, ◌&&◌, ◌||◌, [], ◌∷◌, ◌++◌, eqb, if◌then◌else◌, Bool-cases,
}
use twitch_chat_worker.Base.Key.{Text, text_key, number_key}
use twitch_chat_worker.Uri.{Uri, Parsed, ok, throws, ◌>>=◌, no_uri, is_empty}
use twitch_chat_worker.Uri.Chars.{read_until}
use twitch_chat_worker.Uri.Codec.{decode}
use twitch_chat_worker.Uri.Parse.{
  set_scheme, parse_fragment, ends_path, parse_path, fragment_if, query_if, parse_path_etc,
  read_authority, parse_host_and_port, parse_authority, ends_scheme, parse_hierarchy, parse_scheme,
  parse, uri_of,
}

-- Of what is parsed, if nothing is thrown.
abbrev pub OnOk : {X : Type 0} → (X → Type 0) → Parsed X → Type 0
OnOk P (throws e) = Unit
OnOk P (ok x) = P x

OnOk-bind :
    {X Y : Type 0} (P : X → Type 0) (Q : Y → Type 0) (r : Parsed X) (f : X → Parsed Y)
    → OnOk P r
    → ((x : X) → P x → OnOk Q (f x))
    → OnOk Q (r >>= f)
OnOk-bind P Q (throws e) f h k = tt
OnOk-bind P Q (ok x) f h k = k x h

OnOk-any : {X : Type 0} (r : Parsed X) → OnOk (λ _. Unit) r
OnOk-any (throws e) = tt
OnOk-any (ok x) = tt

abbrev NoInfo : Uri → Type 0
NoInfo u = u.user_info ≡ []

parse_fragment-NoInfo : (u : Uri) (s : Text) → NoInfo u → OnOk NoInfo (parse_fragment u s)
unfolding parse_fragment
parse_fragment-NoInfo u s h =
    OnOk-bind (λ _. Unit) NoInfo (decode s) (λ t. ok (record u { fragment = u.fragment ++ t }))
      (OnOk-any (decode s)) (λ t _. h)

fragment_if-NoInfo : (u : Uri) (s : Text) → NoInfo u → OnOk NoInfo (fragment_if (u, s))
fragment_if-NoInfo u [] h = h
fragment_if-NoInfo u (c ∷ s) h = elim (Bool-cases (eqb c b'#')) [
  | inl e ↦ rw (e) (parse_fragment-NoInfo u s h)
  | inr e ↦ rw (e) h
]

query_if-NoInfo : (read : Uri × Text) → NoInfo read.0 → NoInfo (query_if read).0
query_if-NoInfo (u, []) h = h
query_if-NoInfo (u, c ∷ s) h = elim (Bool-cases (eqb c b'?')) [
  | inl e ↦ rw (e) h
  | inr e ↦ rw (e) h
]

parse_path-NoInfo : (u : Uri) (s : Text) → NoInfo u → OnOk (λ read. NoInfo read.0) (parse_path u s)
unfolding parse_path
parse_path-NoInfo u s h =
    OnOk-bind (λ _. Unit) (λ read. NoInfo read.0) (decode (read_until ends_path s).0)
      (λ t. ok (record u { path = u.path ++ t }, (read_until ends_path s).1))
      (OnOk-any (decode (read_until ends_path s).0)) (λ t _. h)

parse_path_etc-NoInfo : (u : Uri) (s : Text) → NoInfo u → OnOk NoInfo (parse_path_etc u s)
unfolding parse_path_etc
parse_path_etc-NoInfo u [] h = h
parse_path_etc-NoInfo u (c ∷ s) h =
    OnOk-bind (λ read. NoInfo read.0) NoInfo
      (if ends_path c then ok (u, c ∷ s) else parse_path u (c ∷ s))
      (λ read. fragment_if (query_if read)) first
      (λ read k. fragment_if-NoInfo (query_if read).0 (query_if read).1 (query_if-NoInfo read k))
  where
    first :
        OnOk (λ read. NoInfo read.0) (if ends_path c then ok (u, c ∷ s) else parse_path u (c ∷ s))
    first = elim (Bool-cases (ends_path c)) [
      | inl e ↦ rw (e) h
      | inr e ↦ rw (e) (parse_path-NoInfo u (c ∷ s) h)
    ]

-- Whatever stands before an `@` is lost, since the authority ends with the assignment of `info`.
parse_authority-NoInfo : (u : Uri) (s : Text) → OnOk (λ read. NoInfo read.0) (parse_authority u s)
unfolding parse_authority
parse_authority-NoInfo u s =
    let read = read_authority u.user_info [] s in
    let parsed = parse_host_and_port (record u { user_info = read.0 }) read.1 in
    OnOk-bind (λ _. Unit) (λ r. NoInfo r.0) parsed (λ v. ok (record v { user_info = [] }, read.2))
      (OnOk-any parsed) (λ v _. refl)

parse_hierarchy-NoInfo : (u : Uri) (s : Text) → NoInfo u → OnOk NoInfo (parse_hierarchy u s)
unfolding parse_hierarchy
parse_hierarchy-NoInfo u [] h = tt
parse_hierarchy-NoInfo u (c ∷ []) h = parse_path_etc-NoInfo u (c ∷ []) h
parse_hierarchy-NoInfo u (c ∷ d ∷ s) h = elim (Bool-cases (eqb c b'/' && eqb d b'/')) [
  | inl e ↦ rw (e) (
      OnOk-bind (λ read. NoInfo read.0) NoInfo (parse_authority u s)
        (λ read. parse_path_etc read.0 read.1) (parse_authority-NoInfo u s)
        (λ read k. parse_path_etc-NoInfo read.0 read.1 k))
  | inr e ↦ rw (e) (parse_path_etc-NoInfo u (c ∷ d ∷ s) h)
]

parse_scheme-NoInfo :
    (u : Uri) (read : Text × Text) (text : Text) → NoInfo u → OnOk NoInfo (parse_scheme u read text)
parse_scheme-NoInfo u (scheme, []) text h = parse_path_etc-NoInfo u text h
parse_scheme-NoInfo u (scheme, c ∷ s) text h = elim (Bool-cases (eqb c b':')) [
  | inl e ↦ elim (Bool-cases (is_empty s)) [
    | inl f ↦ rw (e, f) tt
    | inr f ↦ rw (e, f) (parse_hierarchy-NoInfo (set_scheme scheme u) s h)
  ]
  | inr e ↦ rw (e) (parse_path_etc-NoInfo u text h)
]

parse-NoInfo : (u : Uri) (text : Text) → NoInfo u → OnOk NoInfo (parse u text)
unfolding parse
parse-NoInfo u [] h = h
parse-NoInfo u (c ∷ s) h =
    elim (Bool-cases (eqb c b'/' || eqb c b'.' || eqb c b'?' || eqb c b'#')) [
      | inl e ↦ rw (e) (parse_path_etc-NoInfo u (c ∷ s) h)
      | inr e ↦ rw (e) (parse_scheme-NoInfo u (read_until ends_scheme (c ∷ s)) (c ∷ s) h)
    ]

-- No URI that is parsed without a throw has user information, whatever stands before an `@`.
pub uri_of-user_info : (text : Text) (u : Uri) → uri_of text ≡ ok u → u.user_info ≡ []
uri_of-user_info text u h = subst (OnOk NoInfo) h (parse-NoInfo no_uri text refl)
