-- ===== src/Net/Queues/Tests.antt =====
-- Full queues, and what the theorems say of them.
use stalker_mp.Base.{◌≡◌, refl, List, [], ◌∷◌, some, arith}
use stalker_mp.Net.Types.{Channel}
use stalker_mp.Net.Queues.{PacketQueues, validate_consistency}
use stalker_mp.Net.Queues.Laws.{run-IsValid, IsValid, run, Call, puts_out, puts_in, takes_out}

abbrev full_queues : PacketQueues
full_queues = record {
  max_outgoing = 2;
  max_incoming = 1;
  outgoing = record { reliable = (1 ∷ []) ∷ (2 ∷ []) ∷ []; unreliable = (3 ∷ []) ∷ (4 ∷ []) ∷ [] };
  incoming = record { reliable = []; unreliable = (5 ∷ []) ∷ [] };
}

full_queues-IsValid : IsValid full_queues
unfolding validate_consistency
full_queues-IsValid = record { some_out = omega arith; some_in = omega arith; consistent = refl }

run-IsValid_example :
    let p : PacketQueues = full_queues in
    let cs : List Call =
      puts_out Channel.unreliable (9 ∷ [])
      ∷ puts_in Channel.reliable []
      ∷ takes_out Channel.reliable
      ∷ [] in
    (p' : PacketQueues) × (run p cs ≡ some p') × IsValid p'
run-IsValid_example =
    run-IsValid full_queues
      (puts_out Channel.unreliable (9 ∷ [])
        ∷ puts_in Channel.reliable []
        ∷ takes_out Channel.reliable
        ∷ [])
      full_queues-IsValid
