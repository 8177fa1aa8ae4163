-- ===== src/World/Bubble.antt =====
-- world/BubbleTypes.h and world/BubbleManager.cpp: which entities are inside the bubble around the
-- players. Positions and distances are floating-point numbers: their types and operations are parameters.
-- The players and the spatial queries are other components: what they answer in a tick is an argument,
-- `none` where the pointer is null.
pub mod Sets
pub mod Laws
pub mod Update
pub mod Pipeline
pub mod Tests
use stalker_mp.Base.{
  ℕ, zero, suc, Bool, true, false, not, ◌&&◌, List, [], ◌∷◌, ◌++◌, map, Option, none, some, length,
  ltb, leb, ◌==◌, if◌then◌else◌,
}
use stalker_mp.Keyed.{lower_bound, is_at}
use stalker_mp.Keyed.Sorting.{sort}

abbrev pub self : ℕ → ℕ
self n = n

-- `std::binary_search`.
abbrev pub binary_search : List ℕ → ℕ → Bool
binary_search ids id = is_at self ids (lower_bound self ids id) id

-- `std::set_difference`: past the second list's smaller elements, then the comparison.
unfoldable pub skip_below : ℕ → List ℕ → List ℕ
skip_below id [] = []
skip_below id (y ∷ ys) = let rest = skip_below id ys in if ltb y id then rest else y ∷ ys

abbrev pub starts_with : ℕ → List ℕ → Bool
starts_with id [] = false
starts_with id (y ∷ ys) = y == id

unfoldable pub set_difference : List ℕ → List ℕ → List ℕ
unfolding skip_below
set_difference [] ys = []
set_difference (x ∷ xs) ys =
    let ys' = skip_below x ys in
    let rest = set_difference xs ys' in if starts_with x ys' then rest else x ∷ rest

-- `std::is_sorted` and `std::adjacent_find`.
unfoldable pub is_sorted : List ℕ → Bool
is_sorted [] = true
is_sorted (x ∷ []) = true
is_sorted (x ∷ y ∷ ys) = let rest = is_sorted (y ∷ ys) in if leb x y then rest else false

unfoldable pub has_adjacent_equal : List ℕ → Bool
has_adjacent_equal [] = false
has_adjacent_equal (x ∷ []) = false
has_adjacent_equal (x ∷ y ∷ ys) =
    let rest = has_adjacent_equal (y ∷ ys) in if x == y then true else rest

-- The operations on floating-point numbers: V a position, F a float, D a double.
pub record Floats (V F D : Type 0) : Type 0 where
  pub narrow : D → F
  pub times : F → F → F
  pub below : F → F → Bool
  pub at_most : F → F → Bool
  pub at_most_double : D → D → Bool
  pub plus_double : D → D → D
  pub min_double : D → D → D
  pub distance_squared : V → V → F

pub record BubbleConfiguration (D : Type 0) : Type 0 where
  pub simulation_radius : D
  pub activation_margin : D
  pub deactivation_margin : D
  pub maximum_radius : D

abbrev pub activation_radius : {V F D : Type 0} → Floats V F D → BubbleConfiguration D → D
activation_radius floats config =
    floats.min_double (floats.plus_double config.simulation_radius config.activation_margin)
      config.maximum_radius

abbrev pub deactivation_radius : {V F D : Type 0} → Floats V F D → BubbleConfiguration D → D
deactivation_radius floats config =
    floats.min_double (floats.plus_double config.simulation_radius config.deactivation_margin)
      config.maximum_radius

pub record PlayerPosition (V : Type 0) : Type 0 where
  pub id : ℕ
  pub position : V
  pub last_update_tick : ℕ

pub record Sources (V F : Type 0) : Type 0 where
  pub active_players : Option (List (PlayerPosition V))
  pub query_radius : Option (V → F → List (ℕ × V))

pub record BubbleManager : Type 0 where
  pub online : List ℕ
  pub previous_online : List ℕ
  pub activations : List ℕ
  pub deactivations : List ℕ
  pub active_player_count : ℕ
  pub online_entity_count : ℕ
  pub update_tick : ℕ

abbrev pub new_bubble : BubbleManager
new_bubble = record {
  online = [];
  previous_online = [];
  activations = [];
  deactivations = [];
  active_player_count = 0;
  online_entity_count = 0;
  update_tick = 0;
}

pub data BubbleMembership : Type 0 where
  outside inside pending_activation pending_deactivation : BubbleMembership

abbrev pub membership : Bool → Bool → BubbleMembership
membership true true = BubbleMembership.inside
membership true false = BubbleMembership.pending_activation
membership false true = BubbleMembership.pending_deactivation
membership false false = BubbleMembership.outside

unfoldable pub membership_of : BubbleManager → ℕ → BubbleMembership
membership_of m id = membership (binary_search m.online id) (binary_search m.previous_online id)

abbrev pub is_entity_inside : BubbleManager → ℕ → Bool
is_entity_inside m id = binary_search m.online id

module _ {V : Type 0} where
  abbrev pub candidate_key : ℕ × V → ℕ
  candidate_key c = c.0

  abbrev pub find_candidate : ℕ → List (ℕ × V) → Option V
  find_candidate id [] = none
  find_candidate id ((j, p) ∷ cs) = if j == id then some p else find_candidate id cs

  -- `candidates.emplace`.
  abbrev pub emplace_candidate : ℕ × V → List (ℕ × V) → List (ℕ × V)
  emplace_candidate (id, p) cs = elim (find_candidate id cs) [ none ↦ (id, p) ∷ cs | some q ↦ cs ]

  unfoldable pub emplace_all : List (ℕ × V) → List (ℕ × V) → List (ℕ × V)
  emplace_all [] cs = cs
  emplace_all (v ∷ vs) cs = emplace_all vs (emplace_candidate v cs)

  module _ {F : Type 0} where
    unfoldable pub collect_from :
        (V → F → List (ℕ × V)) → F → List (PlayerPosition V) → List (ℕ × V) → List (ℕ × V)
    unfolding emplace_all
    collect_from query r_off [] cs = cs
    collect_from query r_off (p ∷ ps) cs =
        collect_from query r_off ps (emplace_all (query p.position r_off) cs)

    abbrev pub collect_candidates :
        Option (V → F → List (ℕ × V)) → F → List (PlayerPosition V) → List (ℕ × V)
    collect_candidates none r_off ps = []
    collect_candidates (some query) r_off ps = collect_from query r_off ps []

  module _ {F D : Type 0} (floats : Floats V F D) where
    -- The loop for the smallest squared distance; `none` while there is none.
    unfoldable pub best_squared : V → List (PlayerPosition V) → Option F → Option F
    best_squared position [] best = best
    best_squared position (p ∷ ps) none =
        best_squared position ps (some (floats.distance_squared position p.position))
    best_squared position (p ∷ ps) (some best) =
        let squared = floats.distance_squared position p.position in
        best_squared position ps (if floats.below squared best then some squared else some best)

    unfoldable pub is_online_now : F → List (PlayerPosition V) → List ℕ → ℕ → V → Bool
    unfolding best_squared
    is_online_now r_on2 players online id position =
        if binary_search online id then true else elim (best_squared position players none) [
          | none ↦ false
          | some best ↦ floats.at_most best r_on2
        ]

    unfoldable pub select_online :
        F → List (PlayerPosition V) → List ℕ → List (ℕ × V) → List ℕ → List ℕ
    unfolding is_online_now
    select_online r_on2 players online cs [] = []
    select_online r_on2 players online cs (id ∷ ids) =
        let rest = select_online r_on2 players online cs ids in
        elim (find_candidate id cs) [
          | none ↦ rest
          | some position ↦
              if is_online_now r_on2 players online id position then id ∷ rest else rest
        ]

    abbrev pub players_of : Sources V F → List (PlayerPosition V)
    players_of w = elim w.active_players [ none ↦ [] | some ps ↦ ps ]

    unfoldable pub update_bubble :
        BubbleConfiguration D → Sources V F → ℕ → BubbleManager → BubbleManager
    unfolding collect_from select_online set_difference sort
    update_bubble config w current_tick m =
        let players = players_of w in
        let r_on = floats.narrow (activation_radius floats config) in
        let cs =
          collect_candidates w.query_radius (floats.narrow (deactivation_radius floats config))
            players in
        let ids = sort ltb (map candidate_key cs) in
        let online = select_online (floats.times r_on r_on) players m.online cs ids in
        record {
          online = online;
          previous_online = m.online;
          activations = set_difference online m.online;
          deactivations = set_difference m.online online;
          active_player_count = length players;
          online_entity_count = length online;
          update_tick = current_tick;
        }

-- `State().IsActive()` decides the radius.
abbrev pub active_bubble_radius :
    {V F D : Type 0} → Floats V F D → D → BubbleConfiguration D → BubbleManager → D
active_bubble_radius floats zero_radius config m =
    if ltb 0 m.active_player_count then activation_radius floats config else zero_radius

pub record BubbleReport : Type 0 where
  pub online_sorted : Bool
  pub previous_sorted : Bool
  pub radii_valid : Bool
  pub transitions_consistent : Bool

abbrev pub report_is_healthy : BubbleReport → Bool
report_is_healthy r =
    r.online_sorted && r.previous_sorted && r.radii_valid && r.transitions_consistent

unfoldable pub same_ids : List ℕ → List ℕ → Bool
same_ids (x ∷ xs) (y ∷ ys) = let rest = same_ids xs ys in if x == y then rest else false
same_ids _ _ = true

unfoldable pub validate_bubble :
    {V F D : Type 0} → Floats V F D → BubbleConfiguration D → BubbleManager → BubbleReport
unfolding is_sorted has_adjacent_equal same_ids set_difference
validate_bubble floats config m =
    let activated = set_difference m.online m.previous_online in
    let deactivated = set_difference m.previous_online m.online in
    record {
      online_sorted = is_sorted m.online && not (has_adjacent_equal m.online);
      previous_sorted = is_sorted m.previous_online && not (has_adjacent_equal m.previous_online);
      radii_valid =
          floats.at_most_double (activation_radius floats config)
            (deactivation_radius floats config);
      transitions_consistent =
          length activated == length m.activations
          && length deactivated == length m.deactivations
          && same_ids m.activations activated
          && same_ids m.deactivations deactivated;
    }
