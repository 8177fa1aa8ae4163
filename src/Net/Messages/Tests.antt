-- ===== src/Net/Messages/Tests.antt =====
-- A registry of two handlers, and what the theorems say of it.
use stalker_mp.Net.Messages.Laws.{Call, IsValid, registers, step, new-IsValid, step-IsValid}
use stalker_mp.Base.{◌≡◌, true}
use stalker_mp.Net.Messages.{MessageRegistry, new, validate_consistency, is_healthy}

abbrev two_handlers : MessageRegistry
two_handlers = step (step new (registers 9 70)) (registers 5 71)

two_handlers-IsValid : IsValid two_handlers
two_handlers-IsValid =
    (step-IsValid (step new (registers 9 70)) (registers 5 71)
      (step-IsValid new (registers 9 70) new-IsValid).0).0

step-IsValid_example :
    let r : MessageRegistry = two_handlers in
    let c : Call = registers 7 72 in
    IsValid (step r c) × (is_healthy (validate_consistency (step r c)) ≡ true)
step-IsValid_example = step-IsValid two_handlers (registers 7 72) two_handlers-IsValid
