-- ===== src/Rebalancing/Watching.antt =====
-- `monitorTransfer` of AVS/internal/rebalancer/rebalancer.go, which asks for the status of
-- AVS/internal/across/client.go every thirty seconds.
use sync_hook.Prelude.{
  ℕ, zero, suc, ◌+◌, ◌%◌, ◌≡◌, List, [], ◌∷◌, nat_beq, ℤ, arith, Bool-cases, inl, inr,
}
use sync_hook.Chain.{Ethereum}
use sync_hook.Across.{is_transfer_complete}
use sync_hook.Rebalancing.{monitor_transfer}

-- The clock at `n` ticks in turn, from the first one on.
abbrev pub ticks : ℕ → ℕ → List ℕ
ticks first zero = []
ticks first (suc n) = first ∷ ticks (first + 30) n

module _ (eth : Ethereum) where
  is_transfer_complete-odd :
      (now : ℕ) (id : ℤ) → is_transfer_complete eth now id ≡ nat_beq (now % 2) 1
  unfolding is_transfer_complete
  is_transfer_complete-odd now id = elim (Bool-cases (nat_beq (now % 2) 0)) [
    | inl even ↦ rw even (ground arith)
    | inr odd ↦ rw odd (ground arith)
  ]

  -- Whether a transfer is ever seen to be complete is settled by the second at which it is first looked
  -- at: at every number of ticks, thirty seconds apart, it is seen to be complete exactly if that second
  -- is odd.
  monitor_transfer-ticks :
      (id : ℤ) (first n : ℕ) → monitor_transfer eth id (ticks first (suc n)) ≡ nat_beq (first % 2) 1
  unfolding monitor_transfer
  monitor_transfer-ticks id first zero = ground (arith, is_transfer_complete-odd first id)
  monitor_transfer-ticks id first (suc n) =
      ground (arith, is_transfer_complete-odd first id, monitor_transfer-ticks id (first + 30) n)
