-- ===== src/Net/Table/Laws.antt =====
-- The connection table as a finite map from ids to connections.
use stalker_mp.Base.{
  ℕ, ◌+◌, ◌≤◌, ◌<◌, ◌^◌, ◌≡◌, refl, subst, ◌⊎◌, inl, inr, true, [], ◌∷◌, Option, none, some, length,
  get_elem?, arith, ◌==◌, ==_iff, if◌then◌else◌, is_some, ErrorCode, ok, err, Option-cases,
  length-append, length-erase_at-le,
}
use stalker_mp.Keyed.{find_index, rebuild_accelerator}
use stalker_mp.Keyed.Laws.{
  Above, Under, Under-append, Under-mono, Under-erase, append-Above, lookup-append, lookup-Under,
  lookup, index_of, rebuild-append, find_entry-rebuild, erase-Above, lookup-erase,
  find-rebuild-none, find-rebuild-some, index_of-lookup,
}
use stalker_mp.Net.Types.{Connection}
use stalker_mp.Net.Table.{ConnectionTable, connection_key, new, add, find, remove, fresh_connection}

-- Ids ascend from 1, each below the next one that will be given out.
pub record IsValid (t : ConnectionTable) : Type 0 where
  pub ascending : Above connection_key 0 t.entries
  pub under : Under connection_key t.next_id t.entries
  pub live : 0 < t.next_id
  pub indexed : t.index ≡ rebuild_accelerator connection_key t.entries
  pub bounded : length t.entries ≤ t.max_connections

pub new-IsValid : (n : ℕ) → IsValid (new n)
unfolding new rebuild_accelerator
new-IsValid n = record {
  ascending = tt;
  under = tt;
  live = omega arith;
  indexed = refl;
  bounded = omega arith;
}

-- The abstract view.
unfoldable pub connection : ConnectionTable → ℕ → Option Connection
connection t id = lookup connection_key t.entries id

pub find-connection : (t : ConnectionTable) (id : ℕ) → IsValid t → find t id ≡ connection t id
unfolding find connection
find-connection t id v = rw v.indexed (find_entry-rebuild connection_key id t.entries)

pub add-IsValid :
    (t : ConnectionTable) (endpoint : ℕ)
    → IsValid t
    → t.next_id + 1 < 2 ^ 32
    → IsValid (add t endpoint).1
unfolding add
add-IsValid t endpoint v h =
    let c = fresh_connection t.next_id endpoint in
    ground (
      arith,
      append-Above connection_key 0 t.entries c v.ascending v.live v.under,
      Under-append connection_key (t.next_id + 1) t.entries c
          (Under-mono connection_key t.next_id (t.next_id + 1) t.entries (omega arith) v.under)
          (omega arith),
      rebuild-append connection_key t.entries c,
      length-append t.entries (c ∷ []),
    )

-- To a valid table a connection is added exactly when there is room. It gets the next id, which no
-- connection had, with the endpoint and nothing else set; the others stay; at capacity nothing changes.
pub add_lem :
    (t : ConnectionTable) (endpoint : ℕ)
    → IsValid t
    → let (out, t') = add t endpoint in
      (t.max_connections ≤ length t.entries) × (out ≡ err ErrorCode.invalid_argument) × (t' ≡ t)
      ⊎ (length t.entries < t.max_connections)
        × (out ≡ ok t.next_id)
        × (connection t t.next_id ≡ none)
        × ((j : ℕ)
            → connection t' j ≡ (
                if t.next_id == j
                then some (fresh_connection t.next_id endpoint)
                else connection t j))
unfolding add connection
add_lem t endpoint v = ground (
  arith,
  lookup-Under connection_key t.next_id t.entries v.under,
  λ (j : ℕ). lookup-append connection_key j t.entries (fresh_connection t.next_id endpoint) v.under,
)

pub found-none :
    (t : ConnectionTable) (id : ℕ)
    → IsValid t
    → find_index id t.index ≡ none
    → connection t id ≡ none
unfolding connection
found-none t id v e =
    find-rebuild-none connection_key id t.entries (subst (λ m. find_index id m ≡ none) v.indexed e)

pub found-some :
    (t : ConnectionTable) (id i : ℕ)
    → IsValid t
    → find_index id t.index ≡ some i
    → (index_of connection_key 0 t.entries id ≡ some i)
      × (get_elem? t.entries i ≡ connection t id)
      × (is_some (connection t id) ≡ true)
unfolding connection
found-some t id i v e =
    let (at, here) =
      find-rebuild-some connection_key id t.entries
        (subst (λ m. find_index id m ≡ some i) v.indexed e) in
    (at, here, ground (arith, index_of-lookup connection_key id t.entries))

pub remove-IsValid : (t : ConnectionTable) (id : ℕ) → IsValid t → IsValid (remove t id)
unfolding remove
remove-IsValid t id v = elim (Option-cases (find_index id t.index)) [
  | inl e ↦ ground arith
  | inr (i, e) ↦ ground (
    arith,
    erase-Above connection_key 0 i t.entries v.ascending,
    Under-erase connection_key t.next_id i t.entries v.under,
    length-erase_at-le t.entries i,
  )
]

pub connection-remove :
    (t : ConnectionTable) (id j : ℕ)
    → IsValid t
    → connection (remove t id) j ≡ (if id == j then none else connection t j)
unfolding remove connection
connection-remove t id j v = elim (Option-cases (find_index id t.index)) [
  | inl e ↦ ground (arith, found-none t id v e, (==_iff id j).0)
  | inr (i, e) ↦ ground (
    arith,
    found-some t id i v e,
    lookup-erase connection_key 0 id j t.entries {i = i} v.ascending,
  )
]
