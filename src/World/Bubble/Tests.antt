-- ===== src/World/Bubble/Tests.antt =====
-- A bubble on a line of natural numbers, and what the theorems say of it.
use stalker_mp.Base.{
  ℕ, ◌+◌, ◌*◌, ◌-◌, ◌≤◌, ◌≡◌, refl, true, false, ◌&&◌, not, List, [], ◌∷◌, none, some, length, has,
  leb, ltb, if◌then◌else◌, arith, min,
}
use stalker_mp.Keyed.Laws.{Ascending}
use stalker_mp.World.Bubble.{
  self, Floats, BubbleConfiguration, Sources, BubbleManager, update_bubble, new_bubble,
}
use stalker_mp.World.Bubble.Laws.{IsOrder}
use stalker_mp.World.Bubble.Update.{update_bubble_lem, should_be_online}
use stalker_mp.World.Transition.{new_manager, TransitionOutcome, TransitionCommand}
use stalker_mp.World.Bubble.Pipeline.{World, run_both, both_healthy, run_both-new_healthy}

abbrev distance : ℕ → ℕ → ℕ
distance a b = if ltb a b then b - a else a - b

-- Numbers on a line in place of vectors and floats.
abbrev line : Floats ℕ ℕ ℕ
line = record {
  narrow = λ n. n;
  times = λ a b. a * b;
  below = ltb;
  at_most = leb;
  at_most_double = leb;
  plus_double = λ a b. a + b;
  min_double = min;
  distance_squared = λ a b. distance a b * distance a b;
}

line-IsOrder : IsOrder line
line-IsOrder = record {
  below-at_most = λ x y z h k. ground (arith, h, k);
  not_below-at_most = λ x y z h k. ground (arith, h, k);
}

abbrev radii : BubbleConfiguration ℕ
radii = record {
  simulation_radius = 4;
  activation_margin = 1;
  deactivation_margin = 4;
  maximum_radius = 90;
}

-- Entity 3 stands at 10 and entity 7 at 17.
abbrev query : ℕ → ℕ → List (ℕ × ℕ)
query p r =
    let far = if leb (distance 17 p) r then (7, 17) ∷ [] else [] in
    if leb (distance 10 p) r then (3, 10) ∷ far else far

abbrev one_player : Sources ℕ ℕ
one_player = record {
  active_players = some (record { id = 1; position = 11; last_update_tick = 4 } ∷ []);
  query_radius = some query;
}

abbrev was_inside : BubbleManager
was_inside = record {
  online = 7 ∷ [];
  previous_online = [];
  activations = 7 ∷ [];
  deactivations = [];
  active_player_count = 1;
  online_entity_count = 1;
  update_tick = 4;
}

abbrev apply_all : List TransitionCommand → List TransitionOutcome
apply_all [] = []
apply_all (c ∷ cs) = TransitionOutcome.failed ∷ apply_all cs

apply_all-Answers : (batch : List TransitionCommand) → length batch ≤ length (apply_all batch)
apply_all-Answers [] = omega arith
apply_all-Answers (c ∷ cs) = omega (arith, apply_all-Answers cs)

abbrev first_world : World ℕ ℕ
first_world = record {
  tick = 1;
  sources = one_player;
  registry = none;
  gateway = some (record { is_online = λ id. some false; apply = apply_all });
}

abbrev second_world : World ℕ ℕ
second_world = record {
  tick = 2;
  sources = record { active_players = none; query_radius = some query };
  registry = none;
  gateway = none;
}

update_bubble_lem_example :
    let floats : Floats ℕ ℕ ℕ = line in
    let config : BubbleConfiguration ℕ = radii in
    let w : Sources ℕ ℕ = one_player in
    let tick : ℕ = 5 in
    let m : BubbleManager = was_inside in
    let m' = update_bubble floats config w tick m in
    Ascending self m'.online
    × ((id : ℕ) → has m'.online id ≡ should_be_online floats config w m.online id)
    × (m'.previous_online ≡ m.online)
    × Ascending self m'.activations
    × Ascending self m'.deactivations
    × ((id : ℕ) → has m'.activations id ≡ (has m'.online id && not (has m.online id)))
    × ((id : ℕ) → has m'.deactivations id ≡ (has m.online id && not (has m'.online id)))
update_bubble_lem_example = update_bubble_lem line radii one_player 5 was_inside line-IsOrder tt

run_both-new_healthy_example :
    let floats : Floats ℕ ℕ ℕ = line in
    let config : BubbleConfiguration ℕ = radii in
    let w : World ℕ ℕ = first_world in
    let ws : List (World ℕ ℕ) = second_world ∷ [] in
    both_healthy floats config (run_both floats config (w ∷ ws) (new_bubble, new_manager)) ≡ true
run_both-new_healthy_example =
    run_both-new_healthy line radii first_world (second_world ∷ []) line-IsOrder refl
      (apply_all-Answers, (tt, tt))
