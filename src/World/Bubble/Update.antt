-- ===== src/World/Bubble/Update.antt =====
-- `BubbleManager::Update`: the online set after it, the transitions, and the consistency report.
use stalker_mp.Base.{
  ℕ, ◌≡◌, refl, sym, ap, ◌∙◌, Bool, true, false, not, ◌&&◌, ◌||◌, List, [], ◌∷◌, map, Option, none,
  some, is_some, ltb, has, arith,
}
use stalker_mp.Keyed.Laws.{Above, Ascending, Above-mono, Above-Ascending}
use stalker_mp.Keyed.Sorting.{Distinct, sort, lookup-sort, sort-Ascending}
use stalker_mp.World.Bubble.{
  activation_radius, deactivation_radius, self, Floats, BubbleConfiguration, PlayerPosition,
  Sources, BubbleManager, candidate_key, find_candidate, collect_candidates, is_online_now,
  select_online, players_of, update_bubble, same_ids, validate_bubble, report_is_healthy,
}
use stalker_mp.World.Bubble.Sets.{
  is_some-lookup, set_difference-Ascending, has-set_difference, is_sorted-Ascending,
  has_adjacent_equal-Ascending,
}
use stalker_mp.World.Bubble.Laws.{
  ltb-ByKey, has-candidates, all_found, collect_from-Distinct, find-collect_from, IsOrder,
  is_within, is_online_now_lem,
}

has-sort : (ids : List ℕ) (v : ℕ) → Distinct self ids → has (sort ltb ids) v ≡ has ids v
has-sort ids v d =
    sym (is_some-lookup (sort ltb ids) v)
    ∙ ap is_some (lookup-sort self ltb ids v d)
    ∙ is_some-lookup ids v

module _ {V F D : Type 0} (floats : Floats V F D) where
  select_online-Above :
      (p : ℕ) (r2 : F) (ps : List (PlayerPosition V)) (online : List ℕ) (cs : List (ℕ × V))
      (ids : List ℕ)
      → Above self p ids
      → Above self p (select_online floats r2 ps online cs ids)
  unfolding select_online
  select_online-Above p r2 ps online cs [] a = tt
  select_online-Above p r2 ps online cs (id ∷ ids) a =
      let above = select_online-Above id r2 ps online cs ids a.1 in
      ground (arith, above, Above-mono self p id (select_online floats r2 ps online cs ids))

  select_online-Ascending :
      (r2 : F) (ps : List (PlayerPosition V)) (online : List ℕ) (cs : List (ℕ × V)) (ids : List ℕ)
      → Ascending self ids
      → Ascending self (select_online floats r2 ps online cs ids)
  unfolding select_online
  select_online-Ascending r2 ps online cs [] a = tt
  select_online-Ascending r2 ps online cs (id ∷ ids) a =
      let above = select_online-Above id r2 ps online cs ids a in
      ground (arith, above, Above-Ascending self id (select_online floats r2 ps online cs ids))

  -- The test of the loop for an id, by its position.
  abbrev pub passes : F → List (PlayerPosition V) → List ℕ → ℕ → Option V → Bool
  passes r2 ps online id none = false
  passes r2 ps online id (some position) = is_online_now floats r2 ps online id position

  has-select_online :
      (r2 : F) (ps : List (PlayerPosition V)) (online : List ℕ) (cs : List (ℕ × V)) (ids : List ℕ)
      (v : ℕ)
      → has (select_online floats r2 ps online cs ids) v
        ≡ (has ids v && passes r2 ps online v (find_candidate v cs))
  unfolding select_online
  has-select_online r2 ps online cs [] v = refl
  has-select_online r2 ps online cs (id ∷ ids) v =
      ground (arith, has-select_online r2 ps online cs ids v)

  -- What the spatial queries report around the players, in order; nothing without queries.
  abbrev pub reported_by :
      Option (V → F → List (ℕ × V)) → F → List (PlayerPosition V) → List (ℕ × V)
  reported_by none r_off ps = []
  reported_by (some query) r_off ps = all_found query r_off ps

  abbrev pub reported : BubbleConfiguration D → Sources V F → List (ℕ × V)
  reported config w =
      reported_by w.query_radius (floats.narrow (deactivation_radius floats config))
        (players_of floats w)

  collect_candidates_lem :
      (query : Option (V → F → List (ℕ × V))) (r_off : F) (ps : List (PlayerPosition V))
      → let cs = collect_candidates query r_off ps in
        Distinct self (map candidate_key cs)
        × ((id : ℕ) → find_candidate id cs ≡ find_candidate id (reported_by query r_off ps))
  collect_candidates_lem none r_off ps = (tt, λ id. refl)
  collect_candidates_lem (some query) r_off ps =
      (collect_from-Distinct query r_off ps [] tt, λ id. find-collect_from query r_off ps [] id)

  -- The specification of the online set: an entity that is reported around some player and was online, or
  -- is within the activation radius of some player.
  abbrev pub stays_or_enters : BubbleConfiguration D → Sources V F → List ℕ → ℕ → Option V → Bool
  stays_or_enters config w online id none = false
  stays_or_enters config w online id (some position) =
      let r_on = floats.narrow (activation_radius floats config) in
      has online id || is_within floats (floats.times r_on r_on) position (players_of floats w)

  abbrev pub should_be_online : BubbleConfiguration D → Sources V F → List ℕ → ℕ → Bool
  should_be_online config w online id =
      stays_or_enters config w online id (find_candidate id (reported config w))

  passes_lem :
      (config : BubbleConfiguration D) (w : Sources V F) (online : List ℕ) (id : ℕ)
      (position : Option V)
      → IsOrder floats
      → Ascending self online
      → let r_on = floats.narrow (activation_radius floats config) in
        (is_some position
          && passes (floats.times r_on r_on) (players_of floats w) online id position)
        ≡ stays_or_enters config w online id position
  passes_lem config w online id none o a = refl
  passes_lem config w online id (some position) o a =
      let r_on = floats.narrow (activation_radius floats config) in
      is_online_now_lem floats (floats.times r_on r_on) (players_of floats w) online id position o a

  online_lem :
      (config : BubbleConfiguration D) (w : Sources V F) (tick : ℕ) (m : BubbleManager)
      → IsOrder floats
      → Ascending self m.online
      → let m' = update_bubble floats config w tick m in
        Ascending self m'.online
        × ((id : ℕ) → has m'.online id ≡ should_be_online config w m.online id)
  unfolding update_bubble
  online_lem config w tick m o a =
      let ps = players_of floats w in
      let r_on = floats.narrow (activation_radius floats config) in
      let r2 = floats.times r_on r_on in
      let r_off = floats.narrow (deactivation_radius floats config) in
      let cs = collect_candidates w.query_radius r_off ps in
      let ids = sort ltb (map candidate_key cs) in
      let (distinct, finds) = collect_candidates_lem w.query_radius r_off ps in
      (
        select_online-Ascending r2 ps m.online cs ids
            (sort-Ascending self ltb ltb-ByKey (map candidate_key cs) distinct),
        λ id.
            has-select_online r2 ps m.online cs ids id
            ∙ ap (λ x. x && passes r2 ps m.online id (find_candidate id cs))
                (has-sort (map candidate_key cs) id distinct ∙ has-candidates cs id)
            ∙ passes_lem config w m.online id (find_candidate id cs) o a
            ∙ ap (stays_or_enters config w m.online id) (finds id),
      )

  -- For comparisons of numbers other than NaN and an ascending online set: after a tick the online set is
  -- ascending and has exactly the entities that are reported around some player and either were online or
  -- are within the activation radius of some player; the former online set is kept; the activations
  -- (deactivations) are ascending and are exactly the ids that entered (left) the online set.
  pub update_bubble_lem :
      (config : BubbleConfiguration D) (w : Sources V F) (tick : ℕ) (m : BubbleManager)
      → IsOrder floats
      → Ascending self m.online
      → let m' = update_bubble floats config w tick m in
        Ascending self m'.online
        × ((id : ℕ) → has m'.online id ≡ should_be_online config w m.online id)
        × (m'.previous_online ≡ m.online)
        × Ascending self m'.activations
        × Ascending self m'.deactivations
        × ((id : ℕ) → has m'.activations id ≡ (has m'.online id && not (has m.online id)))
        × ((id : ℕ) → has m'.deactivations id ≡ (has m.online id && not (has m'.online id)))
  unfolding update_bubble
  update_bubble_lem config w tick m o a =
      let (ascends, online) = online_lem config w tick m o a in
      let now = (update_bubble floats config w tick m).online in
      (
        ascends,
        online,
        refl,
        set_difference-Ascending now m.online ascends,
        set_difference-Ascending m.online now a,
        λ id. has-set_difference now m.online id ascends a,
        λ id. has-set_difference m.online now id a ascends,
      )

  same_ids_refl : (ids : List ℕ) → same_ids ids ids ≡ true
  unfolding same_ids
  same_ids_refl [] = refl
  same_ids_refl (id ∷ ids) = ground (arith, same_ids_refl ids)

  -- For comparisons of numbers other than NaN, an ascending online set and an activation radius that is at
  -- most the deactivation radius, the manager's own report after a tick is healthy.
  pub update_bubble-healthy :
      (config : BubbleConfiguration D) (w : Sources V F) (tick : ℕ) (m : BubbleManager)
      → IsOrder floats
      → Ascending self m.online
      → floats.at_most_double (activation_radius floats config) (deactivation_radius floats config)
        ≡ true
      → report_is_healthy (validate_bubble floats config (update_bubble floats config w tick m))
        ≡ true
  unfolding validate_bubble update_bubble
  update_bubble-healthy config w tick m o a r =
      let (ascends, _) = online_lem config w tick m o a in
      let m' = update_bubble floats config w tick m in
      ground (
        arith,
        r,
        is_sorted-Ascending m'.online ascends,
        is_sorted-Ascending m.online a,
        has_adjacent_equal-Ascending m'.online ascends,
        has_adjacent_equal-Ascending m.online a,
        same_ids_refl m'.activations,
        same_ids_refl m'.deactivations,
      )
