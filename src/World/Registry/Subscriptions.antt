-- ===== src/World/Registry/Subscriptions.antt =====
-- The subscriptions of world/EntityRegistry.cpp.
pub mod Laws
use stalker_mp.Base.{
  ℕ, ◌+◌, List, [], ◌∷◌, ◌++◌, ◌==◌, if◌then◌else◌, u32, ErrorCode, Expected, ok, err, Option, none,
  some,
}
use stalker_mp.World.Registry.{EntityRegistry, Subscription}

-- `push_back({id, callback})`.
abbrev pub push_subscription : EntityRegistry → ℕ → List Subscription → List Subscription
push_subscription r callback subs =
    subs ++ record { id = r.next_subscription_id; callback = callback } ∷ []

-- The checks of the three `SubscribeOn` functions: the error, if there is one.
abbrev pub subscription_error : EntityRegistry → ℕ → Option ErrorCode
subscription_error r callback =
    if r.dispatching_events
    then some ErrorCode.internal
    else if callback == 0
    then some ErrorCode.invalid_argument
    else none

unfoldable pub subscribe_on_registered : EntityRegistry → ℕ → Expected ℕ × EntityRegistry
subscribe_on_registered r callback = elim (subscription_error r callback) [
  | some e ↦ (err e, r)
  | none ↦ (
    ok r.next_subscription_id,
    record r {
      next_subscription_id = u32 (r.next_subscription_id + 1);
      on_registered = push_subscription r callback r.on_registered;
    },
  )
]

unfoldable pub subscribe_on_unregistered : EntityRegistry → ℕ → Expected ℕ × EntityRegistry
subscribe_on_unregistered r callback = elim (subscription_error r callback) [
  | some e ↦ (err e, r)
  | none ↦ (
    ok r.next_subscription_id,
    record r {
      next_subscription_id = u32 (r.next_subscription_id + 1);
      on_unregistered = push_subscription r callback r.on_unregistered;
    },
  )
]

unfoldable pub subscribe_on_restored : EntityRegistry → ℕ → Expected ℕ × EntityRegistry
subscribe_on_restored r callback = elim (subscription_error r callback) [
  | some e ↦ (err e, r)
  | none ↦ (
    ok r.next_subscription_id,
    record r {
      next_subscription_id = u32 (r.next_subscription_id + 1);
      on_restored = push_subscription r callback r.on_restored;
    },
  )
]

-- `find_if` and `erase`; `none` where no subscription has the id.
unfoldable pub erase_subscription : ℕ → List Subscription → Option (List Subscription)
erase_subscription id [] = none
erase_subscription id (sub ∷ subs) =
    let rest = erase_subscription id subs in
    if sub.id == id then some subs else elim rest [ none ↦ none | some left ↦ some (sub ∷ left) ]

unfoldable pub unsubscribe_on_registered : EntityRegistry → ℕ → Expected (Unit {0}) × EntityRegistry
unfolding erase_subscription
unsubscribe_on_registered r id =
    if r.dispatching_events
    then (err ErrorCode.internal, r)
    else (elim (erase_subscription id r.on_registered) [
      | none ↦ (err ErrorCode.not_found, r)
      | some subs ↦ (ok tt, record r { on_registered = subs })
    ])

unfoldable pub unsubscribe_on_unregistered :
    EntityRegistry → ℕ → Expected (Unit {0}) × EntityRegistry
unfolding erase_subscription
unsubscribe_on_unregistered r id =
    if r.dispatching_events
    then (err ErrorCode.internal, r)
    else (elim (erase_subscription id r.on_unregistered) [
      | none ↦ (err ErrorCode.not_found, r)
      | some subs ↦ (ok tt, record r { on_unregistered = subs })
    ])

unfoldable pub unsubscribe_on_restored : EntityRegistry → ℕ → Expected (Unit {0}) × EntityRegistry
unfolding erase_subscription
unsubscribe_on_restored r id =
    if r.dispatching_events
    then (err ErrorCode.internal, r)
    else (elim (erase_subscription id r.on_restored) [
      | none ↦ (err ErrorCode.not_found, r)
      | some subs ↦ (ok tt, record r { on_restored = subs })
    ])
