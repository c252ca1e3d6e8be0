-- ===== src/Aggregator/Copies.antt =====
-- `GetAllPoolStates` of AVS/pkg/state/aggregator.go: the copy beside the aggregator.
use sync_hook.Prelude.{
  ◌≡◌, refl, ◌∙◌, String, [], ◌∷◌, Option, none, some, Map, lookup, insert, IsMap, lookup-insert,
  string_eq, ◌==◌, Bool-cases, inl, inr, subst, arith,
}
use sync_hook.Pool.{GlobalPoolState}
use sync_hook.Aggregator.{Aggregator, copy_from, get_global_pool_state, get_all_pool_states}

-- What `k` finds in `m`, or else what it found before.
abbrev or_else : Option GlobalPoolState → Option GlobalPoolState → Option GlobalPoolState
or_else none o = o
or_else (some gs) o = some gs

lookup-copy_from :
    (k : String) (r m : Map String GlobalPoolState)
    → IsMap m
    → lookup k (copy_from r m) ≡ or_else (lookup k m) (lookup k r)
lookup-copy_from k r [] h = refl
lookup-copy_from k r ((j, gs) ∷ m) h = elim (Bool-cases (j == k)) [
  | inl same ↦
      let absent = subst (λ i. lookup i m ≡ none) ((string_eq.beq_iff j k).0 same) h.0 in
      ground (arith, absent, lookup-copy_from k (insert j gs r) m h.1, lookup-insert j k gs r)
  | inr apart ↦ ground (arith, lookup-copy_from k (insert j gs r) m h.1, lookup-insert j k gs r)
]

or_else-none : (o : Option GlobalPoolState) → or_else o none ≡ o
or_else-none none = refl
or_else-none (some gs) = refl

-- Of an aggregator that holds no pool twice, the map that `GetAllPoolStates` returns has for every id what
-- `GetGlobalPoolState` finds, and nothing where that finds nothing.
pub lookup-get_all_pool_states :
    (pool : String) (a : Aggregator)
    → IsMap a.pool_states
    → lookup pool (get_all_pool_states a) ≡ get_global_pool_state pool a
unfolding get_all_pool_states get_global_pool_state
lookup-get_all_pool_states pool a h =
    lookup-copy_from pool [] a.pool_states h ∙ or_else-none (lookup pool a.pool_states)
