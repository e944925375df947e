-- ===== src/Db/Pg/Attempts.antt =====
-- PGConnection's constructor: how often it tries to connect.
use twitch_chat_worker.Base.{
  ℕ, zero, suc, ◌+◌, ◌%◌, ◌≤◌, ◌<◌, ◌≡◌, refl, ◌∙◌, inl, inr, Bool, true, false, ◌||◌, some, arith,
  u32_mod, add32, ltb, Bool-cases,
}
use twitch_chat_worker.Base.Key.{text_key, number_key, int_key}
use twitch_chat_worker.Db.Pg.{
  Login, Connection, no_connection_yet, reset_connect, later, connect, new_connection,
}

-- What `resetConnect` takes for a connection.
abbrev pub connects : Login → Bool
connects login = login.status_ok || login.made_nonblocking

abbrev pub IsRefused : Login → Type 0
IsRefused login = connects login ≡ false

pub reset_connect_lem :
    (login : Login) (s : Connection)
    → ((reset_connect login s).0 ≡ connects login)
      × ((reset_connect login s).1.attempts ≡ add32 s.attempts 1)
      × ((reset_connect login s).1.established ≡ s.established)
unfolding reset_connect
reset_connect_lem login s = ground arith

-- The rounds up to the first success, that one included, n at most.
abbrev pub tries : ℕ → (ℕ → Bool) → ℕ
tries zero good = 0
tries (suc n) good = suc (elim (good 0) [ true ↦ 0 | false ↦ tries n (later good) ])

abbrev pub any_first : ℕ → (ℕ → Bool) → Bool
any_first zero good = false
any_first (suc n) good = good 0 || any_first n (later good)

connect-succeeds :
    (fuel retries i : ℕ) (logins : ℕ → Login) (s : Connection)
    → (reset_connect (logins 0) s).0 ≡ true
    → connect (suc fuel) retries logins i s
      ≡ some (record (reset_connect (logins 0) s).1 { established = true })
unfolding connect
connect-succeeds fuel retries i logins s h = rw (h, connect) refl

connect-fails :
    (fuel retries i : ℕ) (logins : ℕ → Login) (s : Connection)
    → (reset_connect (logins 0) s).0 ≡ false
    → connect (suc fuel) retries logins i s ≡ elim (ltb retries (add32 i 1)) [
      | true ↦ some (reset_connect (logins 0) s).1
      | false ↦ connect fuel retries (later logins) (add32 i 1) (reset_connect (logins 0) s).1
    ]
unfolding connect
connect-fails fuel retries i logins s h = rw (h, connect) refl

-- The constructor's loop returns after one attempt and n further ones at most.
abbrev Ends : ℕ → ℕ → ℕ → (ℕ → Login) → Connection → Type 0
Ends n retries i logins s =
    (s' : Connection) × (connect (suc n) retries logins i s ≡ some s')
    × (s'.established ≡ any_first (suc n) (λ k. connects (logins k)))
    × (s'.attempts % u32_mod ≡ (s.attempts + tries (suc n) (λ k. connects (logins k))) % u32_mod)

connect-at_once :
    (n retries i : ℕ) (logins : ℕ → Login) (s : Connection)
    → connects (logins 0) ≡ true
    → Ends n retries i logins s
connect-at_once n retries i logins s h =
    let (good, counted, kept) = reset_connect_lem (logins 0) s in
    (
      record (reset_connect (logins 0) s).1 { established = true },
      connect-succeeds n retries i logins s (good ∙ h),
      rw (h) refl,
      rw (h, counted) (omega arith),
    )

connect-gives_up :
    (retries i : ℕ) (logins : ℕ → Login) (s : Connection)
    → i + 0 ≡ retries
    → retries + 1 < u32_mod
    → s.established ≡ false
    → IsRefused (logins 0)
    → Ends 0 retries i logins s
connect-gives_up retries i logins s e bound fresh h =
    let (good, counted, kept) = reset_connect_lem (logins 0) s in
    let over : ltb retries (add32 i 1) ≡ true = ground arith in
    (
      (reset_connect (logins 0) s).1,
      rw (connect-fails zero retries i logins s (good ∙ h), over) refl,
      rw (h) (kept ∙ fresh),
      rw (h, counted) (omega arith),
    )

connect-again :
    (n retries i : ℕ) (logins : ℕ → Login) (s : Connection)
    → i + suc n ≡ retries
    → retries + 1 < u32_mod
    → IsRefused (logins 0)
    → Ends n retries (add32 i 1) (later logins) (reset_connect (logins 0) s).1
    → Ends (suc n) retries i logins s
connect-again n retries i logins s e bound h (s', runs, found, tried) =
    let (good, counted, kept) = reset_connect_lem (logins 0) s in
    let under : ltb retries (add32 i 1) ≡ false = ground arith in
    (
      s',
      connect-fails (suc n) retries i logins s (good ∙ h) ∙ rw (under) runs,
      rw (h) found,
      rw (h) (omega (arith, tried, counted)),
    )

connect-Ends :
    (n retries i : ℕ) (logins : ℕ → Login) (s : Connection)
    → i + n ≡ retries
    → retries + 1 < u32_mod
    → s.established ≡ false
    → Ends n retries i logins s
connect-Ends zero retries i logins s e bound fresh = elim (Bool-cases (connects (logins 0))) [
  | inl h ↦ connect-at_once zero retries i logins s h
  | inr h ↦ connect-gives_up retries i logins s e bound fresh h
]
connect-Ends (suc n) retries i logins s e bound fresh =
    let (good, counted, kept) = reset_connect_lem (logins 0) s in
    let again =
      connect-Ends n retries (add32 i 1) (later logins) (reset_connect (logins 0) s).1 (omega arith)
        bound (kept ∙ fresh) in
    elim (Bool-cases (connects (logins 0))) [
      | inl h ↦ connect-at_once (suc n) retries i logins s h
      | inr h ↦ connect-again n retries i logins s e bound h again
    ]

tries-le : (n : ℕ) (good : ℕ → Bool) → tries n good ≤ n
tries-le zero good = omega arith
tries-le (suc n) good = ground (arith, tries-le n (later good))

-- With retries at most 2^32 - 2, the constructor ends after at most one attempt more than the
-- retries, the connection is established exactly if one of these attempts connects, and the
-- attempts counted are those up to the first that connects.
pub new_connection_lem :
    (retries : ℕ) (logins : ℕ → Login)
    → retries + 1 < u32_mod
    → (s : Connection) × (new_connection (retries + 1) retries logins ≡ some s)
      × (s.established ≡ any_first (retries + 1) (λ k. connects (logins k)))
      × (s.attempts % u32_mod ≡ tries (retries + 1) (λ k. connects (logins k)))
unfolding new_connection
new_connection_lem retries logins bound =
    let (s, runs, found, tried) =
      connect-Ends retries retries 0 logins no_connection_yet (omega arith) bound refl in
    let few = tries-le (suc retries) (λ k. connects (logins k)) in
    let one : retries + 1 ≡ suc retries = omega arith in
    rw (one) (s, runs, found, omega (arith, tried, few))
