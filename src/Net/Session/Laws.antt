-- ===== src/Net/Session/Laws.antt =====
-- The session as a finite map of members: what each operation does to it, and its health.
use stalker_mp.Base.{
  ℕ, ◌≤◌, ◌≡◌, refl, ◌⊎◌, inl, inr, true, [], Option, none, some, length, map, arith, ◌==◌,
  if◌then◌else◌, is_some, ErrorCode, ok, err, Option-cases, length-insert_at, length-erase_at-le,
}
use stalker_mp.Keyed.{find_index, lower_bound, is_at, rebuild_accelerator}
use stalker_mp.Keyed.Laws.{Ascending, lookup, find_index-rebuild, index_of-lookup}
use stalker_mp.Keyed.Ascending.{
  is_at-Ascending, insert-Ascending, lookup-insert_Ascending, erase-Ascending,
}
use stalker_mp.Net.Types.{DisconnectReason}
use stalker_mp.Net.Session.{Session, Member, member_key, new, admit, remove, contains, joined}

pub record IsValid (s : Session) : Type 0 where
  pub ascending : Ascending member_key s.members
  pub indexed : s.index ≡ rebuild_accelerator member_key s.members
  pub bounded : length s.members ≤ s.max_members

pub new-IsValid : (n : ℕ) → IsValid (new n)
unfolding new rebuild_accelerator
new-IsValid n = record { ascending = tt; indexed = refl; bounded = omega arith }

-- The abstract view: the member with an id, if there is one.
unfoldable pub member : Session → ℕ → Option Member
member s id = lookup member_key s.members id

is_at-member :
    (s : Session) (id : ℕ)
    → IsValid s
    → is_at member_key s.members (lower_bound member_key s.members id) id ≡ is_some (member s id)
unfolding member
is_at-member s id v = is_at-Ascending member_key id s.members v.ascending

contains-member : (s : Session) (id : ℕ) → IsValid s → contains s id ≡ is_some (member s id)
unfolding contains member
contains-member s id v =
    rw (v.indexed, find_index-rebuild member_key id s.members)
      (index_of-lookup member_key id s.members)

pub admit-IsValid : (s : Session) (id tick : ℕ) → IsValid s → IsValid (admit s id tick).1
unfolding admit member
admit-IsValid s id tick v = ground (
  arith,
  is_at-member s id v,
  insert-Ascending member_key s.members (record { id = id; join_tick = tick }) v.ascending,
  length-insert_at s.members (lower_bound member_key s.members id)
      (record { id = id; join_tick = tick }),
)

-- Admission to a valid session on each branch: at capacity and for a present id it refuses and leaves the
-- session as it was; otherwise the member is added under its id, no other member changes, and each
-- observer is told once, in registration order.
pub admit_lem :
    (s : Session) (id tick : ℕ)
    → IsValid s
    → let (out, s', notices) = admit s id tick in
      (s.max_members ≤ length s.members)
        × (out ≡ err ErrorCode.invalid_argument)
        × (s' ≡ s)
        × (notices ≡ [])
      ⊎ (is_some (member s id) ≡ true)
        × (out ≡ err ErrorCode.already_exists)
        × (s' ≡ s)
        × (notices ≡ [])
      ⊎ (member s id ≡ none)
        × (out ≡ ok tt)
        × ((j : ℕ)
            → member s' j
              ≡ (if id == j then some (record { id = id; join_tick = tick }) else member s j))
        × (notices ≡ map (λ o. joined o id tick) s.observers)
unfolding admit member
admit_lem s id tick v = ground (
  arith,
  is_at-member s id v,
  λ (j : ℕ).
      lookup-insert_Ascending member_key j s.members (record { id = id; join_tick = tick })
        v.ascending,
)

pub remove-IsValid :
    (s : Session) (id : ℕ) (reason : DisconnectReason) → IsValid s → IsValid (remove s id reason).0
unfolding remove
remove-IsValid s id reason v = elim (Option-cases (find_index id s.index)) [
  | inl e ↦ ground arith
  | inr (i, e) ↦
      ground
        (arith, erase-Ascending member_key i s.members v.ascending, length-erase_at-le s.members i)
]
