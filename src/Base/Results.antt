-- ===== src/Base/Results.antt =====
-- core/Error.h and core/Expected.h: results as values. An error keeps its code; the text of the
-- message is not modelled. `Result` with another type of errors is a result before it is turned into
-- a core::Error.
pub data ErrorCode : Type 0 where
  no_error invalid_argument not_found already_exists not_initialized already_initialized : ErrorCode
  io_error parse_error version_mismatch dependency_missing internal : ErrorCode

pub data Result {ℓ} (E : Type 0) (A : Type ℓ) : Type ℓ where
  ok : A → Result E A
  err : E → Result E A

abbrev pub Expected {ℓ} : Type ℓ → Type ℓ
Expected A = Result ErrorCode A

abbrev pub map_err {ℓ} : {E F : Type 0} {A : Type ℓ} → (E → F) → Result E A → Result F A
map_err f (ok a) = ok a
map_err f (err e) = err (f e)
