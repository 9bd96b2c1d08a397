-- ===== src/Model.antt =====
-- crates/openwave-core/src/model.rs: errors, identities and observations, and the saved sources.
use openwave.Prelude.{
  ℕ, String, Bool, true, ◌&&◌, Option, none, some, ◌↔◌, ◌≡◌, refl, arith, Eq, ◌==◌, nat_eq_iff,
  str_eq_iff, nat_instance, string_instance,
}

pub data ErrorCode : Type 0 where
  invalid unsupported unavailable busy io corrupt_store cancelled identity frozen : ErrorCode

pub record OperationError : Type 0 where
  pub code : ErrorCode
  pub message : String

-- `Result<T>`, whose error is always an `OperationError`.
pub data Result {ℓ} (T : Type ℓ) : Type ℓ where
  err : OperationError → Result T
  ok : T → Result T

-- `Err(OperationError::new(code, message))`
abbrev pub fail {ℓ} : {T : Type ℓ} → ErrorCode → String → Result T
fail code message = err (record { code = code; message = message })

-- The operator `?`, with the rest of the function as its second operand.
infixl 5 ◌>>=◌
abbrev pub ◌>>=◌ {ℓ κ} : {S : Type ℓ} → {T : Type κ} → Result S → (S → Result T) → Result T
err problem >>= rest = err problem
ok value >>= rest = rest value

pub ok_inj {ℓ} : {T : Type ℓ} {s t : T} → ok s ≡ ok t → s ≡ t
ok_inj h = cc

infixl 5 ◌>>◌
abbrev pub ◌>>◌ {ℓ} : {T : Type ℓ} → Result (Unit {0}) → Result T → Result T
step >> rest = step >>= λ _. rest

-- `ok_or_else`
abbrev pub ok_or {ℓ} : {T : Type ℓ} → Option T → ErrorCode → String → Result T
ok_or none code message = fail code message
ok_or (some value) code message = ok value

-- A chain that succeeds has a first step that succeeds.
pub >>=-eq-ok {ℓ κ} :
    {S : Type ℓ}
    → {T : Type κ} → (first : Result S) → (rest : S → Result T) → {t : T} → (first >>= rest) ≡ ok t
    → (s : S) × (first ≡ ok s) × (rest s ≡ ok t)
>>=-eq-ok (err problem) rest h = cc
>>=-eq-ok (ok value) rest h = (value, refl, h)

pub data Observation {ℓ} (A : Type ℓ) : Type ℓ where
  known : A → Observation A
  unknown : OperationError → Observation A

abbrev pub known? {ℓ} : {A : Type ℓ} → Observation A → Option A
known? (known v) = some v
known? (unknown e) = none

pub record NodeIdentity : Type 0 where
  pub server_cookie : ℕ
  pub object_serial : String

abbrev pub identity_eq : NodeIdentity → NodeIdentity → Bool
identity_eq a b = a.server_cookie == b.server_cookie && a.object_serial == b.object_serial

pub identity_eq_iff : (a b : NodeIdentity) → (identity_eq a b ≡ true) ↔ (a ≡ b)
identity_eq_iff a b =
    ground (
      arith,
      nat_eq_iff a.server_cookie b.server_cookie,
      str_eq_iff a.object_serial b.object_serial,
    )

instance abbrev pub identity_instance : Eq NodeIdentity
identity_instance = record { beq = identity_eq; beq_iff = identity_eq_iff }
