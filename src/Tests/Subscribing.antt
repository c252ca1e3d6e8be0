-- ===== src/Tests/Subscribing.antt =====
-- A subscription to the blocks of Polygon: the first block is received, the second waits in the channel,
-- and the third is thrown away at the end.
use sync_hook.Prelude.{ℕ, ◌≤◌, ◌≡◌, refl, String, [], ◌∷◌, ◌++◌, none, true, false, length, arith}
use sync_hook.Blockchain.{Block}
use sync_hook.Blockchain.Polygon.{polygon_client, polygon_block}
use sync_hook.Blockchain.Subscription.{
  Subscription, new_subscription, channel_size, listed, Life, subscribed, context_cancelled, ticked,
  sent, stopped, block_received,
}
use sync_hook.Blockchain.Subscription.Delivery.{InOrder, polygon_client-IsClocked, Life-Delivers}

abbrev hash_of : String → ℕ
hash_of s = 7

abbrev block : ℕ → Block
block now = polygon_block hash_of now now

abbrev over : Subscription
over = record {
  block_chan = block 104 ∷ [];
  made = none;
  closed = true;
  cancelled = true;
  clock = 106;
}

over-Life :
    Life
      (polygon_client hash_of)
      over
      (block 102 ∷ block 104 ∷ block 106 ∷ [])
      (block 102 ∷ [])
      (block 106 ∷ [])
unfolding polygon_client
over-Life =
    let l₀ : Life (polygon_client hash_of) (new_subscription 100) [] [] [] = subscribed 100 in
    let l₁ = ticked 102 102 refl refl (omega arith) (omega arith) l₀ in
    let l₂ = sent (block 102) refl (omega arith) l₁ in
    let l₃ = ticked 104 104 refl refl (omega arith) (omega arith) l₂ in
    let l₄ = block_received (block 102) [] refl l₃ in
    let l₅ = sent (block 104) refl (omega arith) l₄ in
    let l₆ = ticked 106 106 refl refl (omega arith) (omega arith) l₅ in
    stopped refl refl (context_cancelled l₆)

Life-Delivers_example :
    ((block 102 ∷ block 104 ∷ block 106 ∷ [])
      ≡ (block 102 ∷ []) ++ (over.block_chan ++ (listed over.made ++ (block 106 ∷ []))))
    × (length (listed over.made ++ (block 106 ∷ [])) ≤ 1)
    × InOrder (block 102 ∷ block 104 ∷ block 106 ∷ [])
    × (length over.block_chan ≤ channel_size)
    × (over.closed ≡ false → (block 106 ∷ []) ≡ [])
    × (over.closed ≡ true → (over.cancelled ≡ true) × (over.made ≡ none))
Life-Delivers_example =
    Life-Delivers (polygon_client hash_of) (polygon_client-IsClocked hash_of) over-Life
