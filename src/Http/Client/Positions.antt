-- ===== src/Http/Client/Positions.antt =====
-- HTTPClientSession: the places in the order of the operations.
use twitch_chat_worker.Base.{
  ℕ, zero, suc, ◌≤◌, ◌≡◌, refl, sym, ◌∙◌, ◌⊎◌, inl, inr, none, some, [], ◌∷◌, ◌++◌, arith, length,
  take-all, get_elem?, take,
}
use twitch_chat_worker.Base.Key.{text_key, number_key, int_key}
use twitch_chat_worker.Http.{
  Stream, tcp, ssl, Operation, resolve, connect, handshake, read, write, shutdown,
}
use twitch_chat_worker.Http.Client.Handlers.{path, asyncs, follows, waits_for}

-- The n-th operation of the path, with what comes after it; or the path has come to its end.
pub record Runs (st : Stream) (n : ℕ) : Type 0 where
  pub op : Operation
  pub at : get_elem? (asyncs st) n ≡ some op
  pub awaited : waits_for st op ≡ get_elem? (asyncs st) (suc n)
  pub longer : take (suc n) (path st) ++ follows st op ≡ take (suc (suc n)) (path st)

pub record HasEnded (st : Stream) (n : ℕ) : Type 0 where
  pub over : get_elem? (asyncs st) n ≡ none
  pub stays : get_elem? (asyncs st) (suc n) ≡ none
  pub whole : take (suc n) (path st) ≡ take (suc (suc n)) (path st)

whole_path :
    (st : Stream) (n : ℕ)
    → length (path st) ≤ suc n
    → take (suc n) (path st) ≡ take (suc (suc n)) (path st)
whole_path st n h =
    take-all (suc n) (path st) h ∙ sym (take-all (suc (suc n)) (path st) (omega arith))

pub position : (st : Stream) (n : ℕ) → Runs st n ⊎ HasEnded st n
position st zero =
    inl (record { op = resolve; at = first st; awaited = second st; longer = two st })
  where
    first : (st : Stream) → get_elem? (asyncs st) 0 ≡ some resolve
    first tcp = refl
    first ssl = refl

    second : (st : Stream) → some connect ≡ get_elem? (asyncs st) 1
    second tcp = refl
    second ssl = refl

    two : (st : Stream) → take 1 (path st) ++ connect ∷ [] ≡ take 2 (path st)
    two tcp = refl
    two ssl = refl
position tcp (suc zero) = inl (record { op = connect; at = refl; awaited = refl; longer = refl })
position tcp (suc (suc zero)) =
    inl (record { op = write; at = refl; awaited = refl; longer = refl })
position tcp (suc (suc (suc zero))) =
    inl (record { op = read; at = refl; awaited = refl; longer = refl })
position tcp (suc (suc (suc (suc n)))) = inr (record {
  over = refl;
  stays = refl;
  whole = whole_path tcp (suc (suc (suc (suc n)))) (omega arith);
})
position ssl (suc zero) = inl (record { op = connect; at = refl; awaited = refl; longer = refl })
position ssl (suc (suc zero)) =
    inl (record { op = handshake; at = refl; awaited = refl; longer = refl })
position ssl (suc (suc (suc zero))) =
    inl (record { op = write; at = refl; awaited = refl; longer = refl })
position ssl (suc (suc (suc (suc zero)))) =
    inl (record { op = read; at = refl; awaited = refl; longer = refl })
position ssl (suc (suc (suc (suc (suc zero))))) =
    inl (record { op = shutdown; at = refl; awaited = refl; longer = refl })
position ssl (suc (suc (suc (suc (suc (suc n)))))) = inr (record {
  over = refl;
  stays = refl;
  whole = whole_path ssl (suc (suc (suc (suc (suc (suc n)))))) (omega arith);
})
