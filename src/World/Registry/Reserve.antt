-- ===== src/World/Registry/Reserve.antt =====
-- `ReserveEntity` of world/EntityRegistry.cpp.
use stalker_mp.Base.{
  ℕ, zero, suc, ◌+◌, ◌<◌, ◌^◌, ◌≡◌, ap, subst, ◌∙◌, true, false, some, arith, u32, ok,
}
use stalker_mp.World.Registry.{EntityRegistry, is_used, first_unused, reserve_entity}

add_zero : (n : ℕ) → n + 0 ≡ n
add_zero n = omega arith

add_suc : (n k : ℕ) → n + suc k ≡ (n + 1) + k
add_suc n k = omega arith

u32_small : (n : ℕ) → n < 2 ^ 32 → u32 n ≡ n
u32_small n h = ground arith

first_unused-free :
    (fuel : ℕ) (r : EntityRegistry) (n : ℕ)
    → is_used r n ≡ false
    → first_unused (suc fuel) r n ≡ some n
unfolding first_unused
first_unused-free fuel r n e = ground arith

first_unused-used :
    (fuel : ℕ) (r : EntityRegistry) (n : ℕ)
    → is_used r n ≡ true
    → n + 1 < 2 ^ 32
    → first_unused (suc fuel) r n ≡ first_unused fuel r (n + 1)
unfolding first_unused
first_unused-used fuel r n e h = ground (arith, u32_small (n + 1) h)

-- If the d ids from n on are used and the next one is not, it is found.
first_unused_at :
    (fuel d : ℕ) (r : EntityRegistry) (n : ℕ)
    → d < fuel
    → n + d < 2 ^ 32
    → ((k : ℕ) → k < d → is_used r (n + k) ≡ true)
    → is_used r (n + d) ≡ false
    → first_unused fuel r n ≡ some (n + d)
first_unused_at zero d r n lt bound used free = absurd (omega arith)
first_unused_at (suc fuel) zero r n lt bound used free =
    first_unused-free fuel r n (subst (λ k. is_used r k ≡ false) (add_zero n) free)
    ∙ ap some (omega arith)
first_unused_at (suc fuel) (suc d) r n lt bound used free =
    first_unused-used fuel r n (subst (λ k. is_used r k ≡ true) (add_zero n) (used 0 (omega arith)))
      (omega arith)
    ∙ first_unused_at fuel d r (n + 1) (omega arith) (omega arith)
        (λ k h. subst (λ i. is_used r i ≡ true) (add_suc n k) (used (suc k) (omega arith)))
        (subst (λ i. is_used r i ≡ false) (add_suc n d) free)
    ∙ ap some (omega arith)

-- Outside a dispatch, if n is the first id from the counter on that is neither live nor was ever given a
-- generation, the reservation ends, gives n and moves the counter past it. So what it gives is unused.
pub reserve_entity_lem :
    (r : EntityRegistry) (d : ℕ)
    → r.dispatching_events ≡ false
    → r.next_reserved_id + d < 2 ^ 32
    → ((k : ℕ) → k < d → is_used r (r.next_reserved_id + k) ≡ true)
    → is_used r (r.next_reserved_id + d) ≡ false
    → reserve_entity r
      ≡ some (
        ok (r.next_reserved_id + d),
        record r { next_reserved_id = u32 (r.next_reserved_id + d + 1) },
      )
unfolding reserve_entity
reserve_entity_lem r d idle bound used free =
    ground (arith, first_unused_at (2 ^ 32) d r r.next_reserved_id (omega arith) bound used free)
