-- ===== src/Net/Table/Disconnect.antt =====
-- Writes through `FindMutable`, and the disconnect path of net/ConnectionTable.cpp.
use stalker_mp.Base.{
  ℕ, ◌≡◌, refl, sym, ◌∙◌, inl, inr, true, [], none, some, get_elem?, arith, ◌==◌, ==_iff,
  if◌then◌else◌, Option-cases, length-set,
}
use stalker_mp.Keyed.{find_index, rebuild_accelerator}
use stalker_mp.Keyed.Laws.{lookup-key}
use stalker_mp.Keyed.Replace.{rebuild_from-set, Above-set, Under-set, lookup-set}
use stalker_mp.Net.Types.{Connection, DisconnectReason, ConnectionState}
use stalker_mp.Net.Table.{ConnectionTable, no_intent, connection_key, update, begin_disconnect}
use stalker_mp.Net.Table.Laws.{
  IsValid, connection, find-connection, found-none, found-some, remove-IsValid, connection-remove,
}

-- A write that keeps the id keeps the table valid.
pub update-IsValid :
    (t : ConnectionTable) (id : ℕ) (f : Connection → Connection)
    → IsValid t
    → ((c : Connection) → (f c).id ≡ c.id)
    → IsValid (update t id f)
unfolding update rebuild_accelerator
update-IsValid t id f v k = elim (Option-cases (find_index id t.index)) [
  | inl e ↦ ground arith
  | inr (i, e) ↦ elim (Option-cases (get_elem? t.entries i)) [
    | inl n ↦ ground arith
    | inr (c, h) ↦ ground (
      arith,
      rebuild_from-set connection_key 0 i t.entries [] (f c) h (k c),
      Above-set connection_key 0 i t.entries (f c) v.ascending h (k c),
      Under-set connection_key t.next_id i t.entries (f c) v.under h (k c),
      length-set t.entries i (f c),
    )
  ]
]

-- It changes the connection with the id, and no other.
pub connection-update :
    (t : ConnectionTable) (id j : ℕ) (f : Connection → Connection)
    → IsValid t
    → ((c : Connection) → (f c).id ≡ c.id)
    → connection (update t id f) j ≡ (
        if id == j
        then elim (connection t id) [ none ↦ none | some c ↦ some (f c) ]
        else connection t j)
unfolding update connection
connection-update t id j f v k = elim (Option-cases (find_index id t.index)) [
  | inl e ↦ ground (arith, found-none t id v e, (==_iff id j).0)
  | inr (i, e) ↦
      let (at, here, present) = found-some t id i v e in
      elim (Option-cases (get_elem? t.entries i)) [
        | inl n ↦ ground arith
        | inr (c, h) ↦ ground (
          arith,
          lookup-set connection_key i id j t.entries (f c) at
              (k c ∙ lookup-key connection_key id t.entries (sym here ∙ h)),
        )
      ]
]

abbrev closed : DisconnectReason → Connection → Connection
closed reason c = record c { state = ConnectionState.disconnecting; last_reason = reason }

-- In a valid table, disconnecting reports a performed intent exactly for a live id, with the endpoint of that
-- connection and the reason given; the connection is gone afterwards and every other stays.
pub begin_disconnect_lem :
    (t : ConnectionTable) (id j : ℕ) (reason : DisconnectReason)
    → IsValid t
    → let (intent, t') = begin_disconnect t id reason in
      (intent ≡ elim (connection t id) [
        | none ↦ no_intent
        | some c ↦ record { performed = true; id = id; endpoint = c.endpoint; reason = reason }
      ])
      × (connection t' j ≡ (if id == j then none else connection t j))
      × IsValid t'
unfolding begin_disconnect
begin_disconnect_lem t id j reason v = elim (Option-cases (connection t id)) [
  | inl e ↦ ground (arith, find-connection t id v, (==_iff id j).0)
  | inr (c, e) ↦
      let valid : IsValid (update t id (closed reason)) =
        update-IsValid t id (closed reason) v (λ c. refl) in
      ground (
        arith,
        find-connection t id v,
        connection-remove (update t id (closed reason)) id j valid,
        connection-update t id j (closed reason) v (λ c. refl),
        remove-IsValid (update t id (closed reason)) id valid,
      )
]
