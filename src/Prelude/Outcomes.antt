-- ===== src/Prelude/Outcomes.antt =====
-- What a call of a Go function ends in: a value, an `error`, or a panic. A nil error is `ok`.
-- `stuck` is no Go outcome: a loop of the model has used up its fuel.

-- The errors of the packages, one constructor for each error value that the code tells apart.
use mathlib.Core.Path.{◌≡◌, refl}
use native.Mathlib.Omega.{arith}

pub data Error : Type 0 where
  corrupt_record malformed_message malformed_command frame_too_long : Error
  not_leader not_committed not_newer bad_config : Error
  malformed_state unknown_kind : Error
  closed_log io_error short_read end_of_file : Error
  closed_engine flush_failed flush_running malformed_snapshot malformed_marker : Error
  corrupt_entry corrupt_index corrupt_bloom : Error

pub data Outcome {ℓ} (A : Type ℓ) : Type ℓ where
  ok : A → Outcome A
  err : Error → Outcome A
  panic : Outcome A
  stuck : Outcome A

infixl 5 ◌>>◌ ◌>>=◌
abbrev pub ◌>>=◌ {κ ℓ} : {B : Type ℓ} {A : Type κ} → Outcome A → (A → Outcome B) → Outcome B
panic >>= next = panic
stuck >>= next = stuck
err why >>= next = err why
ok value >>= next = next value

abbrev pub ◌>>◌ {κ} : {B : Type κ} → Outcome (Unit {0}) → Outcome B → Outcome B
check >> rest = check >>= λ _. rest

pub ok-injective {ℓ} : {A : Type ℓ} {a b : A} → ok a ≡ ok b → a ≡ b
ok-injective h = ground arith

-- Where a chain of calls succeeds, its first call does, and so does the rest of it.
pub >>=-eq-ok {κ ℓ} :
    {B : Type ℓ} {A : Type κ} (call : Outcome A) (next : A → Outcome B) {b : B}
    → (call >>= next) ≡ ok b
    → (value : A) × (call ≡ ok value) × (next value ≡ ok b)
>>=-eq-ok panic next e = cc
>>=-eq-ok stuck next e = cc
>>=-eq-ok (err why) next e = cc
>>=-eq-ok (ok value) next e = (value, refl, e)
