-- ===== src/Net/Fragments/Pruning.antt =====
-- Pruning of reassemblies that are past the budget.
use stalker_mp.Base.{ℕ, ◌+◌, ◌≡◌, refl, true, List, [], ◌∷◌, length, keep, leb, u64, arith}
use stalker_mp.Net.Fragments.{
  Fragmentation, Reassembly, prune_expired, prune_from, none_expired, is_expired,
  validate_consistency,
}

-- A pending list without the reassemblies that have expired.
prune_from-none :
    (tick budget : ℕ) (m : List (ℕ × Reassembly))
    → (none_expired tick budget (prune_from tick budget m).1 ≡ true)
      × ((prune_from tick budget m).0 + length (prune_from tick budget m).1 ≡ length m)
unfolding prune_from none_expired
prune_from-none tick budget [] = (refl, refl)
prune_from-none tick budget ((k, r) ∷ m) = ground (arith, prune_from-none tick budget m)

prune_from-keep :
    (tick budget : ℕ) (m : List (ℕ × Reassembly))
    → (prune_from tick budget m).1 ≡ keep (λ entry. leb tick (entry.1.first_tick + budget)) m
unfolding prune_from is_expired
prune_from-keep tick budget [] = refl
prune_from-keep tick budget ((k, r) ∷ m) = ground (arith, prune_from-keep tick budget m)

-- Pruning keeps exactly the reassemblies that are not past the budget at that tick, in place and unchanged.
-- What it drops and what stays add up to what was pending, and the drops are added to the counter.
pub prune_expired_lem :
    (t : Fragmentation) (tick : ℕ)
    → let (dropped, t') = prune_expired t tick in
      (t'.pending ≡ keep (λ entry. leb tick (entry.1.first_tick + t.budget_ticks)) t.pending)
      × (validate_consistency t' tick ≡ true)
      × (dropped + length t'.pending ≡ length t.pending)
      × (t'.dropped_incomplete ≡ u64 (t.dropped_incomplete + dropped))
unfolding prune_expired validate_consistency
prune_expired_lem t tick = ground (
  arith,
  prune_from-none tick t.budget_ticks t.pending,
  prune_from-keep tick t.budget_ticks t.pending,
)
