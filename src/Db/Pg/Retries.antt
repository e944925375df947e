-- ===== src/Db/Pg/Retries.antt =====
-- PGConnection::ping and retryGuard: how often they try, and when they return.
use twitch_chat_worker.Base.{
  ℕ, zero, suc, ◌+◌, ◌%◌, ◌≤◌, ◌<◌, ◌≡◌, refl, subst, ◌∙◌, ◌↔◌, inl, inr, Bool, true, false, ◌&&◌,
  not, none, some, arith, u32_mod, add32, eqb, Bool-cases,
}
use twitch_chat_worker.Base.Key.{text_key, number_key, int_key}
use twitch_chat_worker.Db.Pg.{
  Login, Connection, request, reset_connect, later, retry_guard, Asked, ping,
}
use twitch_chat_worker.Db.Pg.Attempts.{connects, IsRefused, reset_connect_lem}
use twitch_chat_worker.Db.Pg.Verdicts.{EndsWithTable, request_iff, false≢true}

round-succeeds :
    (fuel retries i : ℕ) (func : ℕ → Connection → Bool × Connection) (logins : ℕ → Login)
    (s : Connection)
    → (func 0 s).0 ≡ true
    → retry_guard (suc fuel) retries func logins i s ≡ some (true, (func 0 s).1)
unfolding retry_guard
round-succeeds fuel retries i func logins s h = rw (h, retry_guard) refl

round-fails :
    (fuel retries i : ℕ) (func : ℕ → Connection → Bool × Connection) (logins : ℕ → Login)
    (s : Connection)
    → (func 0 s).0 ≡ false
    → retry_guard (suc fuel) retries func logins i s
      ≡ elim (not (connects (logins 0)) && eqb i retries) [
        | true ↦ some (false, (reset_connect (logins 0) (func 0 s).1).1)
        | false ↦
            retry_guard fuel retries
              (later func)
              (later logins)
              (add32 i 1)
              (reset_connect (logins 0) (func 0 s).1).1
      ]
unfolding retry_guard
round-fails fuel retries i func logins s h =
    rw (h, (reset_connect_lem (logins 0) (func 0 s).1).0, retry_guard) refl

-- Which rounds of `retryGuard` succeed is told by P.
abbrev IsTold : (ℕ → Connection → Bool × Connection) → (ℕ → Type 0) → Type 0
IsTold func P = (k : ℕ) (s : Connection) → ((func k s).0 ≡ true) ↔ P k

-- One of the rounds 0 to n succeeds.
abbrev pub Within : ℕ → (ℕ → Type 0) → Type 0
Within n P = (k : ℕ) × (k ≤ n) × P k

-- The loop returns after one round and n further ones at most, with true when one succeeds.
abbrev Returns :
    ℕ
    → ℕ
    → (ℕ → Connection → Bool × Connection)
    → (ℕ → Login)
    → ℕ
    → Connection
    → (ℕ → Type 0)
    → Type 0
Returns n retries func logins i s P =
    (r : Bool × Connection) × (retry_guard (suc n) retries func logins i s ≡ some r)
    × ((r.0 ≡ true) ↔ Within n P)

guard-at_once :
    (n retries i : ℕ) (func : ℕ → Connection → Bool × Connection) (logins : ℕ → Login)
    (s : Connection) (P : ℕ → Type 0)
    → IsTold func P
    → (func 0 s).0 ≡ true
    → Returns n retries func logins i s P
guard-at_once n retries i func logins s P told h = (
  (true, (func 0 s).1),
  round-succeeds n retries i func logins s h,
  (λ t. (0, omega arith, (told 0 s).0 h), λ w. refl),
)

Within-zero : (P : ℕ → Type 0) → Within 0 P → P 0
Within-zero P (k, bound, p) = subst P (omega arith) p

Within-suc : (n : ℕ) (P : ℕ → Type 0) → ¬ P 0 → Within (suc n) P ↔ Within n (λ k. P (suc k))
Within-suc n P h = (there, back)
  where
    there : Within (suc n) P → Within n (λ k. P (suc k))
    there (zero, bound, p) = absurd (h p)
    there (suc k, bound, p) = (k, omega arith, p)

    back : Within n (λ k. P (suc k)) → Within (suc n) P
    back (k, bound, p) = (suc k, omega arith, p)

not-true : (b : Bool) → b ≡ false → ¬ (b ≡ true)
not-true b h t = cc (h, t)

guard-gives_up :
    (retries i : ℕ) (func : ℕ → Connection → Bool × Connection) (logins : ℕ → Login)
    (s : Connection) (P : ℕ → Type 0)
    → IsTold func P
    → i + 0 ≡ retries
    → IsRefused (logins 0)
    → (func 0 s).0 ≡ false
    → Returns 0 retries func logins i s P
guard-gives_up retries i func logins s P told e refused h =
    let last : eqb i retries ≡ true = ground arith in
    (
      (false, (reset_connect (logins 0) (func 0 s).1).1),
      rw (round-fails zero retries i func logins s h, refused, last) refl,
      (
        λ t. absurd (false≢true t),
        λ w. absurd (not-true (func 0 s).0 h ((told 0 s).1 (Within-zero P w))),
      ),
    )

-- A round after which the loop goes on.
guard-again :
    (n retries i : ℕ) (func : ℕ → Connection → Bool × Connection) (logins : ℕ → Login)
    (s : Connection) (P : ℕ → Type 0)
    → IsTold func P
    → i + suc n ≡ retries
    → (func 0 s).0 ≡ false
    → Returns n retries
        (later func)
        (later logins)
        (add32 i 1)
        (reset_connect (logins 0) (func 0 s).1).1
        (later P)
    → Returns (suc n) retries func logins i s P
guard-again n retries i func logins s P told e h (r, runs, found) =
    let under : (not (connects (logins 0)) && eqb i retries) ≡ false = ground arith in
    let none_yet : ¬ P 0 = λ p. not-true (func 0 s).0 h ((told 0 s).1 p) in
    let shift = Within-suc n P none_yet in
    (
      r,
      rw (round-fails (suc n) retries i func logins s h, under) runs,
      (λ t. shift.1 (found.0 t), λ w. found.1 (shift.0 w)),
    )

guard-Returns :
    (n retries i : ℕ) (func : ℕ → Connection → Bool × Connection) (logins : ℕ → Login)
    (s : Connection) (P : ℕ → Type 0)
    → IsTold func P
    → i + n ≡ retries
    → retries < u32_mod
    → IsRefused (logins n)
    → Returns n retries func logins i s P
guard-Returns zero retries i func logins s P told e bound refused = elim (Bool-cases (func 0 s).0) [
  | inl h ↦ guard-at_once zero retries i func logins s P told h
  | inr h ↦ guard-gives_up retries i func logins s P told e refused h
]
guard-Returns (suc n) retries i func logins s P told e bound refused =
    let again =
      guard-Returns n retries (add32 i 1) (later func) (later logins)
        (reset_connect (logins 0) (func 0 s).1).1 (later P) (λ k. told (suc k)) (omega arith) bound
        refused in
    elim (Bool-cases (func 0 s).0) [
      | inl h ↦ guard-at_once (suc n) retries i func logins s P told h
      | inr h ↦ guard-again n retries i func logins s P told e h again
    ]

false-of-not : (b : Bool) → ¬ (b ≡ true) → b ≡ false
false-of-not true h = absurd (h refl)
false-of-not false h = refl

passes :
    (connected : Bool) (i retries : ℕ)
    → (i ≡ retries → connected ≡ true)
    → (not connected && eqb i retries) ≡ false
passes true i retries h = refl
passes false i retries h = ground (arith, h)

-- Round r of the loop, and a connection in the round that `i == retries` picks out.
guard-endless :
    (fuel retries i r : ℕ) (func : ℕ → Connection → Bool × Connection) (logins : ℕ → Login)
    (s : Connection) (P : ℕ → Type 0)
    → IsTold func P
    → ((k : ℕ) → ¬ P k)
    → i ≡ r % u32_mod
    → r + fuel ≤ retries + u32_mod
    → retries < u32_mod
    → ((k : ℕ) → r + k ≡ retries → connects (logins k) ≡ true)
    → retry_guard fuel retries func logins i s ≡ none
unfolding retry_guard
guard-endless zero retries i r func logins s P told never e bound small well = refl
guard-endless (suc fuel) retries i r func logins s P told never e bound small well =
    let fails : (func 0 s).0 ≡ false = false-of-not (func 0 s).0 (λ h. never 0 ((told 0 s).0 h)) in
    let goes_on : (not (connects (logins 0)) && eqb i retries) ≡ false =
      passes (connects (logins 0)) i retries (λ h. well 0 (omega arith)) in
    round-fails fuel retries i func logins s fails
    ∙ rw (goes_on) (
        guard-endless fuel retries (add32 i 1) (suc r) (later func) (later logins)
          (reset_connect (logins 0) (func 0 s).1).1 (later P) (λ k. told (suc k))
          (λ k. never (suc k)) (omega arith) (omega arith) small
          (λ k h. well (suc k) (omega arith)))

asked-IsTold :
    (asked : ℕ → Asked)
    → IsTold
        (λ k. request (asked k).first (asked k).responses)
        (λ k. EndsWithTable (asked k).responses)
asked-IsTold asked k s = request_iff (asked k).first (asked k).responses s

-- When the server refuses the reset in the round `retries`, ping returns within one round more than
-- that, with true exactly if one of these rounds gets an answer that ends with a table.
pub ping_returns :
    (retries : ℕ) (asked : ℕ → Asked) (logins : ℕ → Login) (s : Connection)
    → retries < u32_mod
    → IsRefused (logins retries)
    → (r : Bool × Connection) × (ping (retries + 1) retries asked logins s ≡ some r)
      × ((r.0 ≡ true) ↔ Within retries (λ k. EndsWithTable (asked k).responses))
unfolding ping
ping_returns retries asked logins s bound refused =
    let one : retries + 1 ≡ suc retries = omega arith in
    rw (one) (
      guard-Returns retries retries 0 _ logins s _ (asked-IsTold asked) (omega arith) bound refused)

-- If the server lets a connection be made in the round whose number is the number of retries, a
-- number below 2^32, and no answer to a query ends with a table, the ping has not returned after
-- any number of rounds up to 2^32 and the retries.
pub ping_endless :
    (fuel retries : ℕ) (asked : ℕ → Asked) (logins : ℕ → Login) (s : Connection)
    → retries < u32_mod
    → fuel ≤ retries + u32_mod
    → ((k : ℕ) → ¬ EndsWithTable (asked k).responses)
    → connects (logins retries) ≡ true
    → ping fuel retries asked logins s ≡ none
unfolding ping
ping_endless fuel retries asked logins s small bound never well =
    guard-endless fuel retries 0 0 _ logins s _ (asked-IsTold asked) never (omega arith)
      (omega arith) small (λ k h. subst (λ n. connects (logins n) ≡ true) (omega arith) well)
