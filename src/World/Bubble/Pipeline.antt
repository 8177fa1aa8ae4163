-- ===== src/World/Bubble/Pipeline.antt =====
-- The bubble and the transitions composed: in each tick the bubble manager is updated and the transition
-- manager reads its lists, as the update order of their services has it.
use stalker_mp.Base.{ℕ, ◌≡◌, refl, Bool, true, ◌&&◌, List, [], ◌∷◌, Option, arith}
use stalker_mp.Keyed.Laws.{Ascending}
use stalker_mp.World.Intents.Laws.{IsValid, empty_store-IsValid}
use stalker_mp.World.Bubble.{
  activation_radius, deactivation_radius, self, Floats, BubbleConfiguration, Sources, BubbleManager,
  new_bubble, update_bubble, report_is_healthy, validate_bubble,
}
use stalker_mp.World.Bubble.Laws.{IsOrder}
use stalker_mp.World.Bubble.Update.{update_bubble_lem, update_bubble-healthy}
use stalker_mp.World.Transition.{TransitionManager, Bubble, Gateway, new_manager, update}
use stalker_mp.World.Transition.Report.{is_healthy, validate_consistency}
use stalker_mp.World.Transition.Laws.{Disjoint, update_lem}
use stalker_mp.World.Transition.Outcomes.{AllAnswer}
use stalker_mp.World.Transition.Health.{update-healthy}
use stalker_mp.World.Transition.Ticks.{with_bubble}

-- What the host sees in a tick.
pub record World (V F : Type 0) : Type 0 where
  pub tick : ℕ
  pub sources : Sources V F
  pub registry : Option (ℕ → Bool)
  pub gateway : Option Gateway

-- `m_bubble->Activations()` and `m_bubble->Deactivations()`.
abbrev pub lists_of : BubbleManager → Bubble
lists_of b = record { activations = b.activations; deactivations = b.deactivations }

module _ {V F D : Type 0} (floats : Floats V F D) (config : BubbleConfiguration D) where
  abbrev pub tick_both :
      World V F → BubbleManager × TransitionManager → BubbleManager × TransitionManager
  tick_both w (b, m) =
      let b' = update_bubble floats config w.sources w.tick b in
      (b', update (with_bubble w.registry w.gateway (lists_of b')) w.tick m)

  abbrev pub run_both :
      List (World V F) → BubbleManager × TransitionManager → BubbleManager × TransitionManager
  run_both [] both = both
  run_both (w ∷ ws) both = run_both ws (tick_both w both)

  abbrev pub AllGatewaysAnswer : List (World V F) → Type 0
  AllGatewaysAnswer [] = Unit
  AllGatewaysAnswer (w ∷ ws) = AllAnswer w.gateway × AllGatewaysAnswer ws

  abbrev pub BothValid : BubbleManager × TransitionManager → Type 0
  BothValid (b, m) = Ascending self b.online × IsValid m.intent

  -- What the reports say together.
  abbrev pub both_healthy : BubbleManager × TransitionManager → Bool
  both_healthy (b, m) =
      report_is_healthy (validate_bubble floats config b) && is_healthy (validate_consistency m)

  lists-Disjoint :
      (w : World V F) (b : BubbleManager)
      → IsOrder floats
      → Ascending self b.online
      → Disjoint (lists_of (update_bubble floats config w.sources w.tick b))
  lists-Disjoint w b o a j h =
      let (_, _, _, _, _, enters, leaves) =
        update_bubble_lem floats config w.sources w.tick b o a in
      ground (arith, enters j, leaves j, h)

  tick_both-BothValid :
      (w : World V F) (both : BubbleManager × TransitionManager)
      → IsOrder floats
      → BothValid both
      → BothValid (tick_both w both)
  tick_both-BothValid w (b, m) o (a, v) =
      let b' = update_bubble floats config w.sources w.tick b in
      (
        (update_bubble_lem floats config w.sources w.tick b o a).0,
        (update_lem (with_bubble w.registry w.gateway (lists_of b')) w.tick m refl v
            (lists-Disjoint w b o a)).0,
      )

  tick_both-healthy :
      (w : World V F) (both : BubbleManager × TransitionManager)
      → IsOrder floats
      → floats.at_most_double (activation_radius floats config) (deactivation_radius floats config)
        ≡ true
      → BothValid both
      → AllAnswer w.gateway
      → both_healthy (tick_both w both) ≡ true
  tick_both-healthy w (b, m) o r (a, v) answers =
      let b' = update_bubble floats config w.sources w.tick b in
      rw (
        update_bubble-healthy floats config w.sources w.tick b o a r,
        update-healthy (with_bubble w.registry w.gateway (lists_of b')) w.tick m refl v
            (lists-Disjoint w b o a) answers,
      )

  run_both-healthy :
      (ws : List (World V F)) (w : World V F) (both : BubbleManager × TransitionManager)
      → IsOrder floats
      → floats.at_most_double (activation_radius floats config) (deactivation_radius floats config)
        ≡ true
      → BothValid both
      → AllGatewaysAnswer (w ∷ ws)
      → both_healthy (run_both (w ∷ ws) both) ≡ true
  run_both-healthy [] w both o r v (answers, _) = tick_both-healthy w both o r v answers
  run_both-healthy (w' ∷ ws) w both o r v (_, answers) =
      run_both-healthy ws w' (tick_both w both) o r (tick_both-BothValid w both o v) answers

  -- The bubble and the transition manager composed: from new managers, after any history of at least one
  -- tick, for comparisons of numbers other than NaN, an activation radius that is at most the deactivation
  -- radius and gateways that give every command an outcome, both consistency reports are healthy.
  pub run_both-new_healthy :
      (w : World V F) (ws : List (World V F))
      → IsOrder floats
      → floats.at_most_double (activation_radius floats config) (deactivation_radius floats config)
        ≡ true
      → AllGatewaysAnswer (w ∷ ws)
      → both_healthy (run_both (w ∷ ws) (new_bubble, new_manager)) ≡ true
  run_both-new_healthy w ws o r answers =
      run_both-healthy ws w (new_bubble, new_manager) o r (tt, empty_store-IsValid) answers
