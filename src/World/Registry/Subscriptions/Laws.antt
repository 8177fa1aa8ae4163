-- ===== src/World/Registry/Subscriptions/Laws.antt =====
-- Subscriptions of world/EntityRegistry.cpp.
use stalker_mp.Base.{ℕ, ◌+◌, ◌≡◌, ◌≢◌, false, some, List, [], ◌∷◌, ◌++◌, arith, ok, u32, All}
use stalker_mp.World.Registry.{EntityRegistry, Subscription}
use stalker_mp.World.Registry.Subscriptions.{
  subscribe_on_registered, unsubscribe_on_registered, erase_subscription,
}

-- A subscription with a fresh id is the one that is erased under that id.
erase-append :
    (subs : List Subscription) (sub : Subscription)
    → All (λ s. s.id ≢ sub.id) subs
    → erase_subscription sub.id (subs ++ sub ∷ []) ≡ some subs
unfolding erase_subscription
erase-append [] sub a = ground arith
erase-append (s ∷ subs) sub a = ground (arith, erase-append subs sub a.1)

-- Outside a dispatch, subscribing with a callback under an id that no subscription has, and then
-- unsubscribing under the id that was returned, both succeed and leave the subscribers as they were.
pub unsubscribe-subscribe :
    (r : EntityRegistry) (callback : ℕ)
    → r.dispatching_events ≡ false
    → callback ≢ 0
    → All (λ s. s.id ≢ r.next_subscription_id) r.on_registered
    → let (out, r') = subscribe_on_registered r callback in
      let (done, back) = unsubscribe_on_registered r' r.next_subscription_id in
      (out ≡ ok r.next_subscription_id)
      × (done ≡ ok tt)
      × (back ≡ record r { next_subscription_id = u32 (r.next_subscription_id + 1) })
unfolding subscribe_on_registered unsubscribe_on_registered
unsubscribe-subscribe r callback idle given fresh = ground (
  arith,
  erase-append r.on_registered (record { id = r.next_subscription_id; callback = callback }) fresh,
)
