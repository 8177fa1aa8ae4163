-- ===== src/Player/Lifecycle/Laws.antt =====
-- The rules of player/PlayerLifecycle.cpp against the step relation.
use stalker_mp.Base.{
  subst, ℕ, ◌↔◌, ◌≡◌, refl, true, false, List, [], ◌∷◌, leb, Expected, ok, err, arith,
}
use stalker_mp.Player.Types.{PlayerLifecycleState, DisconnectDisposition, PlayerRecord}
use stalker_mp.Player.Lifecycle.{
  apply_join, apply_death, apply_respawn, apply_suspend, apply_reclaim, apply_remove, eligible_tick,
}
use stalker_mp.Player.Lifecycle.Moves.{
  Request, IsDue, IsEarly, Move, Legal, Out, join_from-Legal, death_from-Legal, retain_from-Legal,
  reclaim_from-Legal, respawn-Legal, ok-Legal, Move-Out, join, death, reclaim, removal, respawn,
  disconnect, joins, dies, waits, keeps_waiting, respawns, respawns_late, suspends, suspends_dead,
  suspends_waiting, reclaims, removes, is_dropped,
}

module _ {V : Type 0} where
  abbrev pub answer : PlayerRecord V → Request → Expected PlayerLifecycleState
  answer r join = apply_join r
  answer r death = apply_death r
  answer r reclaim = apply_reclaim r
  answer r removal = apply_remove r
  answer r (respawn tick delay) = apply_respawn r tick delay
  answer r (disconnect d) = apply_suspend r d

  -- Requests one after another; a refused one leaves the record as it is.
  abbrev pub after : PlayerRecord V → Request → PlayerRecord V
  after r q = elim (answer r q) [ ok s ↦ record r { lifecycle = s } | err e ↦ r ]

  abbrev pub run : PlayerRecord V → List Request → PlayerRecord V
  run r [] = r
  run r (q ∷ qs) = run (after r q) qs

  due :
      (r : PlayerRecord V) (tick delay : ℕ)
      → leb (eligible_tick r tick delay) tick ≡ true
      → IsDue r.respawn_eligible_tick tick delay
  due r tick delay h = ground (arith, h)

  early :
      (r : PlayerRecord V) (tick delay : ℕ)
      → leb (eligible_tick r tick delay) tick ≡ false
      → IsEarly r.respawn_eligible_tick tick delay
  early r tick delay h = ground (arith, h)

  answer-Legal :
      (r : PlayerRecord V) (q : Request) → Legal r.respawn_eligible_tick q r.lifecycle (answer r q)
  unfolding apply_join apply_death apply_respawn apply_suspend apply_reclaim apply_remove
  answer-Legal r join = join_from-Legal r.respawn_eligible_tick r.lifecycle
  answer-Legal r death = death_from-Legal r.respawn_eligible_tick r.lifecycle
  answer-Legal r reclaim = reclaim_from-Legal r.respawn_eligible_tick r.lifecycle
  answer-Legal r removal = removes r.lifecycle
  answer-Legal r (respawn tick delay) =
      respawn-Legal r.respawn_eligible_tick r.lifecycle tick delay
        (leb (eligible_tick r tick delay) tick) (due r tick delay) (early r tick delay)
  answer-Legal r (disconnect DisconnectDisposition.retain) =
      retain_from-Legal r.respawn_eligible_tick r.lifecycle
  answer-Legal r (disconnect DisconnectDisposition.remove) = is_dropped r.lifecycle

  due_leb :
      (r : PlayerRecord V) (tick delay : ℕ)
      → IsDue r.respawn_eligible_tick tick delay
      → leb (eligible_tick r tick delay) tick ≡ true
  due_leb r tick delay h = ground (arith, h)

  early_leb :
      (r : PlayerRecord V) (tick delay : ℕ)
      → IsEarly r.respawn_eligible_tick tick delay
      → leb (eligible_tick r tick delay) tick ≡ false
  early_leb r tick delay h = ground (arith, h)

  Move-answered :
      (r : PlayerRecord V) (q : Request) (s s' : PlayerLifecycleState)
      → Move r.respawn_eligible_tick q s s'
      → answer (record r { lifecycle = s }) q ≡ ok s'
  unfolding apply_join apply_death apply_respawn apply_suspend apply_reclaim apply_remove
  Move-answered r _ _ _ joins = refl
  Move-answered r _ _ _ dies = refl
  Move-answered r _ _ _ (waits tick delay h) = rw (apply_respawn, early_leb r tick delay h)
  Move-answered r _ _ _ (keeps_waiting tick delay h) = rw (apply_respawn, early_leb r tick delay h)
  Move-answered r _ _ _ (respawns tick delay h) = rw (apply_respawn, due_leb r tick delay h)
  Move-answered r _ _ _ (respawns_late tick delay h) = rw (apply_respawn, due_leb r tick delay h)
  Move-answered r _ _ _ suspends = refl
  Move-answered r _ _ _ suspends_dead = refl
  Move-answered r _ _ _ suspends_waiting = refl
  Move-answered r _ _ _ reclaims = refl
  Move-answered r _ _ _ (removes s) = refl
  Move-answered r _ _ _ (is_dropped s) = refl

  -- The rules are the step relation: a request is answered with a state exactly if the relation has that move
  -- for that request, from the record's state and with its eligible tick. So a respawn is answered with
  -- `active` exactly from the eligible tick on, and with `awaiting_respawn` before it.
  pub answer-Move :
      (r : PlayerRecord V) (q : Request) (s : PlayerLifecycleState)
      → (answer r q ≡ ok s) ↔ Move r.respawn_eligible_tick q r.lifecycle s
  answer-Move r q s = (
    (λ e. ok-Legal r.respawn_eligible_tick q r.lifecycle s (answer r q) (answer-Legal r q) e),
    (λ m. Move-answered r q r.lifecycle s m),
  )

  after-removed :
      (r : PlayerRecord V) (q : Request)
      → r.lifecycle ≡ PlayerLifecycleState.removed
      → (after r q).lifecycle ≡ PlayerLifecycleState.removed
  unfolding Out
  after-removed r q h = stays (answer r q) (answer-Legal r q)
    where
      stays :
          (x : Expected PlayerLifecycleState)
          → Legal r.respawn_eligible_tick q r.lifecycle x
          → (elim x as (λ y. PlayerRecord V) [
            | ok s ↦ record r { lifecycle = s }
            | err e ↦ r
          ]).lifecycle
            ≡ PlayerLifecycleState.removed
      stays (ok s) m =
          Move-Out r.respawn_eligible_tick q PlayerLifecycleState.removed s
            (subst (λ x. Move r.respawn_eligible_tick q x s) h m)
      stays (err e) m = h

  -- A removed player stays removed, whatever is asked of its record afterwards.
  pub run-removed :
      (r : PlayerRecord V) (qs : List Request)
      → r.lifecycle ≡ PlayerLifecycleState.removed
      → (run r qs).lifecycle ≡ PlayerLifecycleState.removed
  run-removed r [] h = h
  run-removed r (q ∷ qs) h = run-removed (after r q) qs (after-removed r q h)
