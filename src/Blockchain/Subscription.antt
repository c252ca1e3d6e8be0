-- ===== src/Blockchain/Subscription.antt =====
-- `SubscribeToNewBlocks` of the clients of AVS/pkg/blockchain: a goroutine makes a block at each tick of
-- its timer and sends it into a channel that holds ten, until the context is cancelled; then it closes the
-- channel. The four clients differ in the timer and in the block only.
pub mod Delivery
use sync_hook.Prelude.{
  ℕ, ◌≤◌, ◌<◌, ◌≡◌, List, [], ◌∷◌, ◌++◌, Option, none, some, Bool, true, false, length,
}
use sync_hook.Blockchain.{Block, Client}

abbrev pub channel_size : ℕ
channel_size = 10

-- `made` is the block that waits for room in the channel, `cancelled` whether the context is, and `clock`
-- the last reading of the clock.
pub record Subscription : Type 0 where
  pub block_chan : List Block
  pub made : Option Block
  pub closed : Bool
  pub cancelled : Bool
  pub clock : ℕ

abbrev pub new_subscription : ℕ → Subscription
new_subscription now = record {
  block_chan = [];
  made = none;
  closed = false;
  cancelled = false;
  clock = now;
}

abbrev pub listed {ℓ} : {A : Type ℓ} → Option A → List A
listed none = []
listed (some a) = a ∷ []

-- A life of a subscription, with the blocks that were made, those that were received, and those that were
-- thrown away at the end, each in order. A select whose both cases are ready may take either. The
-- readings of the clock do not fall.
pub data Life (c : Client) : Subscription → List Block → List Block → List Block → Type 0 where
  subscribed : (now : ℕ) → Life c (new_subscription now) [] [] []
  context_cancelled :
      {s : Subscription} {blocks received lost : List Block}
      → Life c s blocks received lost
      → Life c (record s { cancelled = true }) blocks received lost
  ticked :
      {s : Subscription} {blocks received lost : List Block} (now₁ now₂ : ℕ)
      → s.closed ≡ false
      → s.made ≡ none
      → s.clock ≤ now₁
      → now₁ ≤ now₂
      → Life c s blocks received lost
      → Life c
          (record s { made = some (c.new_block now₁ now₂); clock = now₂ })
          (blocks ++ (c.new_block now₁ now₂ ∷ []))
          received
          lost
  sent :
      {s : Subscription} {blocks received lost : List Block} (b : Block)
      → s.made ≡ some b
      → length s.block_chan < channel_size
      → Life c s blocks received lost
      → Life c
          (record s { block_chan = s.block_chan ++ (b ∷ []); made = none })
          blocks
          received
          lost
  stopped :
      {s : Subscription} {blocks received lost : List Block}
      → s.closed ≡ false
      → s.cancelled ≡ true
      → Life c s blocks received lost
      → Life c (record s { made = none; closed = true }) blocks received (listed s.made ++ lost)
  block_received :
      {s : Subscription} {blocks received lost : List Block} (b : Block) (bs : List Block)
      → s.block_chan ≡ b ∷ bs
      → Life c s blocks received lost
      → Life c (record s { block_chan = bs }) blocks (received ++ (b ∷ [])) lost
