-- ===== src/Blockchain/Subscription/Delivery.antt =====
-- What a subscriber to the blocks of a client of AVS/pkg/blockchain receives.
use mathlib.Core.List.{append_assoc, append-nil}
use sync_hook.Prelude.{
  ℕ, ◌≤◌, ◌≡◌, refl, ◌∙◌, String, List, [], ◌∷◌, ◌++◌, none, true, false, length, length-snoc, All,
  arith,
}
use sync_hook.Blockchain.{Block, Client, new_client}
use sync_hook.Blockchain.Ethereum.{ethereum_client}
use sync_hook.Blockchain.Arbitrum.{arbitrum_client}
use sync_hook.Blockchain.Polygon.{polygon_client}
use sync_hook.Blockchain.Subscription.{
  channel_size, Subscription, listed, Life, subscribed, context_cancelled, ticked, sent, stopped,
  block_received,
}

-- A block bears the reading of the clock, and later blocks have no lower numbers.
pub record IsClocked (c : Client) : Type 0 where
  pub stamped : (now₁ now₂ : ℕ) → (c.new_block now₁ now₂).timestamp ≡ now₂
  pub numbered : (a b : ℕ) (x y : ℕ) → a ≤ b → (c.new_block a x).number ≤ (c.new_block b y).number

pub new_client-IsClocked : (hash_of : String → ℕ) (id : ℕ) → IsClocked (new_client hash_of id)
unfolding new_client
new_client-IsClocked hash_of id = record {
  stamped = λ now₁ now₂. refl;
  numbered = λ a b x y h. omega arith;
}

pub ethereum_client-IsClocked : (hash_of : String → ℕ) → IsClocked (ethereum_client hash_of)
unfolding ethereum_client
ethereum_client-IsClocked hash_of = record {
  stamped = λ now₁ now₂. refl;
  numbered = λ a b x y h. omega arith;
}

pub arbitrum_client-IsClocked : (hash_of : String → ℕ) → IsClocked (arbitrum_client hash_of)
unfolding arbitrum_client
arbitrum_client-IsClocked hash_of = record {
  stamped = λ now₁ now₂. refl;
  numbered = λ a b x y h. omega arith;
}

pub polygon_client-IsClocked : (hash_of : String → ℕ) → IsClocked (polygon_client hash_of)
unfolding polygon_client
polygon_client-IsClocked hash_of = record {
  stamped = λ now₁ now₂. refl;
  numbered = λ a b x y h. omega arith;
}

abbrev pub NotAfter : Block → Block → Type 0
NotAfter a b = (a.number ≤ b.number) × (a.timestamp ≤ b.timestamp)

-- Each block is not after those behind it.
abbrev pub InOrder : List Block → Type 0
InOrder [] = Unit
InOrder (b ∷ bs) = All (λ a. NotAfter b a) bs × InOrder bs

All-snoc {ℓ} :
    {A : Type ℓ} (P : A → Type 0) (xs : List A) (x : A) → All P xs → P x → All P (xs ++ (x ∷ []))
All-snoc P [] x h p = (p, tt)
All-snoc P (y ∷ xs) x h p = (h.0, All-snoc P xs x h.1 p)

All-mono {ℓ} :
    {A : Type ℓ} (P Q : A → Type 0) → ((a : A) → P a → Q a) → (xs : List A) → All P xs → All Q xs
All-mono P Q f [] h = tt
All-mono P Q f (x ∷ xs) h = (f x h.0, All-mono P Q f xs h.1)

InOrder-snoc :
    (bs : List Block) (b : Block)
    → All (λ a. NotAfter a b) bs
    → InOrder bs
    → InOrder (bs ++ (b ∷ []))
InOrder-snoc [] b h o = (tt, tt)
InOrder-snoc (a ∷ bs) b h o = (All-snoc (λ x. NotAfter a x) bs b o.0 h.0, InOrder-snoc bs b h.1 o.1)

module _ (c : Client) (clocked : IsClocked c) where
  -- What a reading of the clock bounds.
  abbrev Past : ℕ → Block → Type 0
  Past now b = (b.number ≤ (c.new_block now now).number) × (b.timestamp ≤ now)

  record Told (s : Subscription) (blocks received lost : List Block) : Type 0 where
    ordered : InOrder blocks
    past : All (Past s.clock) blocks
    split : blocks ≡ received ++ (s.block_chan ++ (listed s.made ++ lost))
    bounded : length s.block_chan ≤ channel_size
    one : length (listed s.made ++ lost) ≤ 1
    open_none : s.closed ≡ false → lost ≡ []
    closing : s.closed ≡ true → (s.cancelled ≡ true) × (s.made ≡ none)

  Life-Told :
      {s : Subscription} {blocks received lost : List Block}
      → Life c s blocks received lost
      → Told s blocks received lost
  Life-Told (subscribed now) = ground arith
  Life-Told (context_cancelled l) = let t = Life-Told l in ground (arith, t.split, t.closing)
  Life-Told (ticked {s} {blocks} {received} {lost} now₁ now₂ opened free h k l) =
      let t = Life-Told l in
      let none_lost = t.open_none opened in
      let split : blocks ≡ received ++ s.block_chan =
        simp (free, none_lost, append-nil) at t.split in
      let b = c.new_block now₁ now₂ in
      record {
        ordered =
            InOrder-snoc blocks b
              (All-mono (Past s.clock) (λ a. NotAfter a b) earlier blocks t.past) t.ordered;
        past =
            All-snoc (Past now₂) blocks b (All-mono (Past s.clock) (Past now₂) passed blocks t.past)
              (passed_itself);
        split = simp (split, none_lost, append_assoc);
        bounded = t.bounded;
        one = rw none_lost (omega arith);
        open_none = t.open_none;
        closing = λ shut. absurd (ground arith);
      }
    where
      earlier : (a : Block) → Past s.clock a → NotAfter a (c.new_block now₁ now₂)
      earlier a p =
          omega (arith, clocked.stamped now₁ now₂, clocked.numbered s.clock now₁ s.clock now₂ h)

      passed : (a : Block) → Past s.clock a → Past now₂ a
      passed a p = omega (arith, clocked.numbered s.clock now₂ s.clock now₂)

      passed_itself : Past now₂ (c.new_block now₁ now₂)
      passed_itself =
          omega (arith, clocked.stamped now₁ now₂, clocked.numbered now₁ now₂ now₂ now₂ k)
  Life-Told (sent {s} {blocks} {received} {lost} b e room l) =
      let t = Life-Told l in
      record {
        ordered = t.ordered;
        past = t.past;
        split = t.split ∙ simp (e, append_assoc);
        bounded = omega (arith, length-snoc {0} s.block_chan b, room);
        one = omega (arith, rw e at t.one);
        open_none = t.open_none;
        closing = λ shut. absurd (ground (arith, t.closing shut));
      }
  Life-Told (stopped {s} {blocks} {received} {lost} opened over l) =
      let t = Life-Told l in
      record {
        ordered = t.ordered;
        past = t.past;
        split = t.split;
        bounded = t.bounded;
        one = t.one;
        open_none = λ still. absurd (ground arith);
        closing = λ shut. (over, refl);
      }
  Life-Told (block_received {s} {blocks} {received} {lost} b bs e l) =
      let t = Life-Told l in
      record {
        ordered = t.ordered;
        past = t.past;
        split = t.split ∙ simp (e, append_assoc);
        bounded = omega (arith, rw e at t.bounded);
        one = t.one;
        open_none = t.open_none;
        closing = t.closing;
      }

  -- Whatever the subscriber and the context do, while the clock does not go back: the blocks that were
  -- made are those received, those in the channel, and at most one more, which waits for room or was
  -- thrown away, all in the order in which they were made; their numbers and times never fall. The channel
  -- never holds more than ten. A block is thrown away only when the channel is closed, which happens only
  -- after the context is cancelled, and then no block waits to be sent.
  pub Life-Delivers :
      {s : Subscription} {blocks received lost : List Block}
      → Life c s blocks received lost
      → (blocks ≡ received ++ (s.block_chan ++ (listed s.made ++ lost)))
        × (length (listed s.made ++ lost) ≤ 1)
        × InOrder blocks
        × (length s.block_chan ≤ channel_size)
        × (s.closed ≡ false → lost ≡ [])
        × (s.closed ≡ true → (s.cancelled ≡ true) × (s.made ≡ none))
  Life-Delivers l =
      let t = Life-Told l in (t.split, t.one, t.ordered, t.bounded, t.open_none, t.closing)
