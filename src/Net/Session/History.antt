-- ===== src/Net/Session/History.antt =====
-- Sessions that a sequence of calls leads to.
use stalker_mp.Base.{ℕ, ◌<◌, ◌≡◌, zero, suc, true, List, [], ◌∷◌, All, arith, insert_at, erase_at}
use stalker_mp.Keyed.{lower_bound}
use stalker_mp.Keyed.Checks.{check_sorted_iff, check_no_zero_iff, check_accelerator-rebuild}
use stalker_mp.Net.Types.{DisconnectReason}
use stalker_mp.Net.Session.{
  Session, Member, member_key, new, subscribe, admit, remove, validate_consistency, is_healthy,
}
use stalker_mp.Net.Session.Laws.{IsValid, new-IsValid, admit-IsValid, remove-IsValid}

pub data Call : Type 0 where
  subscribes : ℕ → Call
  admits : ℕ → ℕ → Call
  removes : ℕ → DisconnectReason → Call

unfoldable pub step : Session → Call → Session
step s (subscribes o) = subscribe s o
step s (admits id tick) = (admit s id tick).1
step s (removes id reason) = (remove s id reason).0

unfoldable pub run : Session → List Call → Session
run s [] = s
run s (c ∷ cs) = run (step s c) cs

-- The ids that a history admits are those of live connections, which are never 0.
abbrev pub Admissible : Call → Type 0
Admissible (admits id tick) = 0 < id
Admissible _ = Unit

abbrev NonZero : Session → Type 0
NonZero s = All (λ m. 0 < member_key m) s.members

insert-NonZero :
    (ms : List Member) (i : ℕ) (m : Member)
    → All (λ m. 0 < member_key m) ms
    → 0 < m.id
    → All (λ m. 0 < member_key m) (insert_at ms i m)
insert-NonZero ms zero m a h = (h, a)
insert-NonZero [] (suc i) m a h = (h, tt)
insert-NonZero (x ∷ ms) (suc i) m a h = (a.0, insert-NonZero ms i m a.1 h)

erase-NonZero :
    (ms : List Member) (i : ℕ)
    → All (λ m. 0 < member_key m) ms
    → All (λ m. 0 < member_key m) (erase_at ms i)
erase-NonZero [] i a = a
erase-NonZero (x ∷ ms) zero a = a.1
erase-NonZero (x ∷ ms) (suc i) a = (a.0, erase-NonZero ms i a.1)

step-NonZero : (s : Session) (c : Call) → Admissible c → NonZero s → NonZero (step s c)
unfolding step subscribe admit remove
step-NonZero s (subscribes o) h a = ground arith
step-NonZero s (admits id tick) h a = ground (
  arith,
  insert-NonZero s.members (lower_bound member_key s.members id)
      (record { id = id; join_tick = tick }) a h,
)
step-NonZero s (removes id reason) h a = grind (arith, erase-NonZero)

step-IsValid : (s : Session) (c : Call) → IsValid s → IsValid (step s c)
unfolding step
step-IsValid s (subscribes o) v = unfold subscribe in ground arith
step-IsValid s (admits id tick) v = admit-IsValid s id tick v
step-IsValid s (removes id reason) v = remove-IsValid s id reason v

validate-healthy :
    (s : Session) → IsValid s → NonZero s → is_healthy (validate_consistency s) ≡ true
unfolding validate_consistency
validate-healthy s v a = rw v.indexed (
    ground (
      arith,
      (check_sorted_iff member_key s.members).1 v.ascending,
      (check_no_zero_iff member_key s.members).1 a,
      check_accelerator-rebuild member_key s.members v.ascending,
    ))

run-healthy :
    (s : Session) (cs : List Call)
    → IsValid s
    → NonZero s
    → All Admissible cs
    → is_healthy (validate_consistency (run s cs)) ≡ true
unfolding run
run-healthy s [] v a h = validate-healthy s v a
run-healthy s (c ∷ cs) v a h =
    run-healthy (step s c) cs (step-IsValid s c v) (step-NonZero s c h.0 a) h.1

-- After any history of subscriptions, admissions of non-zero ids and removals, the session's own
-- consistency report is healthy.
pub run-new-healthy :
    (max : ℕ) (cs : List Call)
    → All Admissible cs
    → is_healthy (validate_consistency (run (new max) cs)) ≡ true
run-new-healthy max cs h = run-healthy (new max) cs (new-IsValid max) (unfold new in tt) h
