-- ===== src/Net/Fragments/Store.antt =====
-- Reassemblies of a payload, and what storing one of its fragments does.
use stalker_mp.Base.{
  ℕ, zero, suc, ◌+◌, ◌<◌, ◌≡◌, refl, sym, ap, ◌∙◌, List, [], ◌∷◌, Option, none, some, length,
  get_elem?, set, replicate, arith, length-replicate,
}
use stalker_mp.Net.Fragments.{
  Fragment, Reassembly, store_part, fresh_reassembly, fragment_bytes, fragment_count,
}
use stalker_mp.Net.Fragments.Parts.{
  filled, filled-replicate, filled-set, set_same, Matches, Matches-get, Matches-replicate,
}

-- A reassembly of a payload of which some parts have come.
pub record IsPartial (max : ℕ) (payload : List ℕ) (r : Reassembly) : Type 0 where
  pub count : r.count ≡ fragment_count max (length payload)
  pub size : length r.parts ≡ r.count
  pub have : r.have ≡ filled r.parts
  pub matching : Matches max payload 0 r.parts

-- The parts that are pending for a key, all absent where nothing is.
abbrev pub parts_of : ℕ → Option Reassembly → List (Option (List ℕ))
parts_of n none = replicate n none
parts_of n (some r) = r.parts

-- The i-th fragment of a payload.
abbrev pub fragment_of : ℕ → ℕ → List ℕ → ℕ → Fragment
fragment_of max message_id payload i = record {
  message_id = message_id;
  index = i;
  count = fragment_count max (length payload);
  bytes = fragment_bytes max payload i;
}

pub zero_add : (i : ℕ) → 0 + i ≡ i
zero_add i = omega arith

pub fresh-IsPartial :
    (max tick : ℕ) (payload : List ℕ)
    → IsPartial max payload (fresh_reassembly (fragment_count max (length payload)) tick)
fresh-IsPartial max tick payload = record {
  count = refl;
  size = length-replicate (fragment_count max (length payload)) none;
  have = sym (filled-replicate (fragment_count max (length payload)));
  matching = Matches-replicate max payload 0 (fragment_count max (length payload));
}

store_part-absent :
    (r : Reassembly) (f : Fragment)
    → get_elem? r.parts f.index ≡ some none
    → store_part r f ≡ record r { parts = set r.parts f.index (some f.bytes); have = r.have + 1 }
unfolding store_part
store_part-absent r f e = ground arith

store_part-present :
    (r : Reassembly) (f : Fragment) {bytes : List ℕ}
    → get_elem? r.parts f.index ≡ some (some bytes)
    → store_part r f ≡ r
unfolding store_part
store_part-present r f e = ground arith

in_range :
    (ps : List (Option (List ℕ))) (i : ℕ)
    → i < length ps
    → (p : Option (List ℕ)) × (get_elem? ps i ≡ some p)
in_range [] i h = absurd (omega arith)
in_range (q ∷ ps) zero h = (q, refl)
in_range (q ∷ ps) (suc i) h = in_range ps i (omega arith)

-- Storing a fragment of the payload fills its part and leaves the others.
pub store_part-IsPartial :
    (max message_id i : ℕ) (payload : List ℕ) (r : Reassembly)
    → IsPartial max payload r
    → i < fragment_count max (length payload)
    → let r' = store_part r (fragment_of max message_id payload i) in
      (r'.parts ≡ set r.parts i (some (fragment_bytes max payload i)))
      × (r'.count ≡ r.count)
      × (r'.have ≡ filled (set r.parts i (some (fragment_bytes max payload i))))
store_part-IsPartial max message_id i payload r p lt =
    let (slot, e) = in_range r.parts i (omega (arith, p.count, p.size)) in by_slot slot e
  where
    f : Fragment
    f = fragment_of max message_id payload i

    by_slot :
        (slot : Option (List ℕ))
        → get_elem? r.parts i ≡ some slot
        → ((store_part r f).parts ≡ set r.parts i (some (fragment_bytes max payload i)))
          × ((store_part r f).count ≡ r.count)
          × ((store_part r f).have ≡ filled (set r.parts i (some (fragment_bytes max payload i))))
    by_slot none e =
        rw (store_part-absent r f e)
          (refl, refl, omega (arith, p.have, filled-set r.parts i (fragment_bytes max payload i) e))
    by_slot (some bytes) e =
        let same = sym (
          set_same r.parts i (
            e
            ∙ ap some (
                Matches-get max payload 0 i r.parts p.matching e
                ∙ ap (λ n. some (fragment_bytes max payload n)) (zero_add i)))) in
        rw (store_part-present r f e) (same, refl, p.have ∙ ap filled same)
