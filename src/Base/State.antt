-- ===== src/Base/State.antt =====
-- Fallible operations on a mutable object: the object after the operation is there on both outcomes.
use stalker_mp.Base.Results.{Result, ok, err}

abbrev pub Op {ℓ} : Type 0 → Type 0 → Type ℓ → Type ℓ
Op S E A = S → Result E A × S

abbrev pub then_on {ℓ κ} :
    {S E : Type 0} {A : Type ℓ} {B : Type κ} → (A → Op S E B) → Result E A × S → Result E B × S
then_on f (ok a, s) = f a s
then_on f (err e, s) = (err e, s)

infixl 5 ◌>>=◌ ◌>>◌
abbrev pub ◌>>=◌ {ℓ κ} :
    {S E : Type 0} {A : Type ℓ} {B : Type κ} → Op S E A → (A → Op S E B) → Op S E B
◌>>=◌ m f s = then_on f (m s)

abbrev pub ◌>>◌ {ℓ κ} : {S E : Type 0} {A : Type ℓ} {B : Type κ} → Op S E A → Op S E B → Op S E B
m >> k = m >>= λ _. k

abbrev pub return {ℓ} : {S E : Type 0} {A : Type ℓ} → A → Op S E A
return a s = (ok a, s)

abbrev pub map_errors {ℓ} :
    {S E F : Type 0} {A : Type ℓ} → (E → F) → Result E A × S → Result F A × S
map_errors f (ok a, s) = (ok a, s)
map_errors f (err e, s) = (err (f e), s)
