-- ===== src/Net/Session/Tests.antt =====
-- A session of two members, and what the theorems say of it.
use stalker_mp.Net.Session.{validate_consistency, is_healthy, Session, new, admit}
use stalker_mp.Base.{ℕ, ◌≡◌, true, List, [], ◌∷◌, arith}
use stalker_mp.Net.Types.{DisconnectReason}
use stalker_mp.Net.Session.History.{Call, admits, removes, subscribes, run, run-new-healthy}

abbrev watched : Session
watched = record { max_members = 3; members = []; index = []; observers = 11 ∷ 12 ∷ [] }

abbrev two_members : Session
two_members = (admit (admit watched 7 1).1 3 2).1

run-new-healthy_example :
    let max : ℕ = 2 in
    let cs : List Call =
      subscribes 9
      ∷ admits 4 1
      ∷ admits 2 1
      ∷ admits 6 2
      ∷ removes 4 DisconnectReason.graceful
      ∷ [] in
    is_healthy (validate_consistency (run (new max) cs)) ≡ true
run-new-healthy_example =
    run-new-healthy 2
      (subscribes 9
        ∷ admits 4 1
        ∷ admits 2 1
        ∷ admits 6 2
        ∷ removes 4 DisconnectReason.graceful
        ∷ [])
      (tt, (omega arith, (omega arith, (omega arith, (tt, tt)))))
