-- ===== src/World/Bubble/Laws.antt =====
-- `BubbleManager::Update`: which entities are online after it, as sets.
use stalker_mp.Base.{
  ℕ, ◌≡◌, refl, Bool, true, false, ◌||◌, List, [], ◌∷◌, ◌++◌, map, Option, none, some, is_some, ltb,
  if◌then◌else◌, has, arith,
}
use stalker_mp.Keyed.Laws.{Ascending}
use stalker_mp.Keyed.Sorting.{Distinct, ByKey}
use stalker_mp.World.Bubble.{
  self, Floats, PlayerPosition, candidate_key, find_candidate, emplace_candidate, emplace_all,
  collect_from, best_squared, is_online_now,
}
use stalker_mp.World.Bubble.Sets.{is_some-lookup, binary_search-has}

pub ltb-ByKey : ByKey self ltb
ltb-ByKey x y h = refl

module _ {V : Type 0} where
  pub has-candidates :
      (cs : List (ℕ × V)) (v : ℕ) → has (map candidate_key cs) v ≡ is_some (find_candidate v cs)
  has-candidates [] v = refl
  has-candidates ((j, p) ∷ cs) v = ground (arith, has-candidates cs v)

  emplace-Distinct :
      (id : ℕ) (p : V) (cs : List (ℕ × V))
      → Distinct self (map candidate_key cs)
      → Distinct self (map candidate_key (emplace_candidate (id, p) cs))
  emplace-Distinct id p cs d =
      ground (arith, is_some-lookup (map candidate_key cs) id, has-candidates cs id)

  emplace_all-Distinct :
      (vs cs : List (ℕ × V))
      → Distinct self (map candidate_key cs)
      → Distinct self (map candidate_key (emplace_all vs cs))
  unfolding emplace_all
  emplace_all-Distinct [] cs d = d
  emplace_all-Distinct ((id, p) ∷ vs) cs d =
      emplace_all-Distinct vs (emplace_candidate (id, p) cs) (emplace-Distinct id p cs d)

  find-emplace_all :
      (vs cs : List (ℕ × V)) (v : ℕ)
      → find_candidate v (emplace_all vs cs)
        ≡ elim (find_candidate v cs) [ none ↦ find_candidate v vs | some p ↦ some p ]
  unfolding emplace_all
  find-emplace_all [] cs v = ground arith
  find-emplace_all ((id, p) ∷ vs) cs v =
      ground (arith, find-emplace_all vs (emplace_candidate (id, p) cs) v)

  module _ {F : Type 0} (query : V → F → List (ℕ × V)) (r_off : F) where
    -- Everything that the queries report, in order.
    abbrev pub all_found : List (PlayerPosition V) → List (ℕ × V)
    all_found [] = []
    all_found (p ∷ ps) = query p.position r_off ++ all_found ps

    pub collect_from-Distinct :
        (ps : List (PlayerPosition V)) (cs : List (ℕ × V))
        → Distinct self (map candidate_key cs)
        → Distinct self (map candidate_key (collect_from query r_off ps cs))
    unfolding collect_from
    collect_from-Distinct [] cs d = d
    collect_from-Distinct (p ∷ ps) cs d =
        collect_from-Distinct ps (emplace_all (query p.position r_off) cs)
          (emplace_all-Distinct (query p.position r_off) cs d)

    find-append :
        (vs ws : List (ℕ × V)) (v : ℕ)
        → find_candidate v (vs ++ ws)
          ≡ elim (find_candidate v vs) [ none ↦ find_candidate v ws | some p ↦ some p ]
    find-append [] ws v = refl
    find-append ((j, p) ∷ vs) ws v = ground (arith, find-append vs ws v)

    pub find-collect_from :
        (ps : List (PlayerPosition V)) (cs : List (ℕ × V)) (v : ℕ)
        → find_candidate v (collect_from query r_off ps cs)
          ≡ elim (find_candidate v cs) [ none ↦ find_candidate v (all_found ps) | some p ↦ some p ]
    unfolding collect_from
    find-collect_from [] cs v = ground arith
    find-collect_from (p ∷ ps) cs v = ground (
      arith,
      find-collect_from ps (emplace_all (query p.position r_off) cs) v,
      find-emplace_all (query p.position r_off) cs v,
      find-append (query p.position r_off) (all_found ps) v,
    )

  module _ {F D : Type 0} (floats : Floats V F D) where
    -- Comparisons of numbers other than NaN.
    pub record IsOrder : Type 0 where
      pub below-at_most :
          (x y z : F)
          → floats.below x y ≡ true
          → floats.at_most y z ≡ true
          → floats.at_most x z ≡ true
      pub not_below-at_most :
          (x y z : F)
          → floats.below x y ≡ false
          → floats.at_most x z ≡ true
          → floats.at_most y z ≡ true

    -- Some player is within the radius.
    abbrev pub is_within : F → V → List (PlayerPosition V) → Bool
    is_within r2 position [] = false
    is_within r2 position (p ∷ ps) =
        floats.at_most (floats.distance_squared position p.position) r2 || is_within r2 position ps

    abbrev best_is_within : F → Option F → Bool
    best_is_within r2 none = false
    best_is_within r2 (some best) = floats.at_most best r2

    best_squared_lem :
        (r2 : F) (position : V) (ps : List (PlayerPosition V)) (best : Option F)
        → IsOrder
        → best_is_within r2 (best_squared floats position ps best)
          ≡ (best_is_within r2 best || is_within r2 position ps)
    unfolding best_squared
    best_squared_lem r2 position [] none o = refl
    best_squared_lem r2 position [] (some best) o = ground arith
    best_squared_lem r2 position (p ∷ ps) none o =
        best_squared_lem r2 position ps (some (floats.distance_squared position p.position)) o
    best_squared_lem r2 position (p ∷ ps) (some best) o =
        let squared = floats.distance_squared position p.position in
        let next = if floats.below squared best then some squared else some best in
        ground (
          arith,
          best_squared_lem r2 position ps next o,
          o.below-at_most squared best r2,
          o.not_below-at_most squared best r2,
        )

    pub is_online_now_lem :
        (r2 : F) (ps : List (PlayerPosition V)) (online : List ℕ) (id : ℕ) (position : V)
        → IsOrder
        → Ascending self online
        → is_online_now floats r2 ps online id position
          ≡ (has online id || is_within r2 position ps)
    unfolding is_online_now
    is_online_now_lem r2 ps online id position o a =
        ground (arith, binary_search-has online id a, best_squared_lem r2 position ps none o)
