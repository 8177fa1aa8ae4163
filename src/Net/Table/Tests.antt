-- ===== src/Net/Table/Tests.antt =====
-- A table of two connections, and what the theorems say of it.
use stalker_mp.Base.{ℕ, ◌≡◌, ◌↔◌, true, none, some, has, ◌==◌, if◌then◌else◌, arith}
use stalker_mp.Keyed.Laws.{Above}
use stalker_mp.Net.Types.{Connection, DisconnectReason}
use stalker_mp.Net.Table.{ConnectionTable, new, add, no_intent, begin_disconnect, scan_timeouts}
use stalker_mp.Net.Table.Laws.{IsValid, connection, new-IsValid, add-IsValid}
use stalker_mp.Net.Table.Disconnect.{begin_disconnect_lem}
use stalker_mp.Net.Table.Timeouts.{TimedOut, scan_timeouts_lem}

abbrev two_connections : ConnectionTable
two_connections = (add (add (new 3) 40).1 41).1

two_connections-IsValid : IsValid two_connections
unfolding new add
two_connections-IsValid =
    add-IsValid (add (new 3) 40).1 41 (add-IsValid (new 3) 40 (new-IsValid 3) (omega arith))
      (omega arith)

begin_disconnect_lem_example :
    let t : ConnectionTable = two_connections in
    let id : ℕ = 2 in
    let j : ℕ = 1 in
    let reason : DisconnectReason = DisconnectReason.timeout in
    let (intent, t') = begin_disconnect t id reason in
    (intent ≡ elim (connection t id) [
      | none ↦ no_intent
      | some c ↦ record { performed = true; id = id; endpoint = c.endpoint; reason = reason }
    ])
    × (connection t' j ≡ (if id == j then none else connection t j))
    × IsValid t'
begin_disconnect_lem_example =
    begin_disconnect_lem two_connections 2 1 DisconnectReason.timeout two_connections-IsValid

scan_timeouts_lem_example :
    let t : ConnectionTable = two_connections in
    let now : ℕ = 90 in
    let hb : ℕ = 20 in
    let cb : ℕ = 60 in
    ((id : ℕ)
      → (has (scan_timeouts t now hb cb) id ≡ true)
        ↔ ((c : Connection) × (connection t id ≡ some c) × TimedOut now hb cb c))
    × Above (λ n. n) 0 (scan_timeouts t now hb cb)
scan_timeouts_lem_example = scan_timeouts_lem two_connections 90 20 60 two_connections-IsValid
