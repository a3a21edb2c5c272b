-- ===== src/Apperr.antt =====
-- internal/apperr/apperr.go, and the errors of internal/store and internal/host that the services
-- tell apart. A message is its format and its arguments, not yet printed.
use Prim.Native.String.{String}
use package.text.Mathlib.Text.{◌==◌ as str_eq}
use tunploy.Common.{
  ◌||◌, ◌≡◌, refl, ◌≢◌, ◌↔◌, Bool, true, false, Option, none, some, List, [], ◌∷◌, arith,
  if◌then◌else◌, all,
}
use tunploy.Common.Text.{Text}
use tunploy.Wg.Net.{Addr, Prefix}

pub data Arg : Type 0 where
  text : Text → Arg
  addr : Addr → Arg
  prefix : Prefix → Arg
  -- The text of the error that is wrapped.
  cause : Arg

pub data Message : Type 0 where
  plain : String → Message
  format : String → List Arg → Message

-- map[string]string, from a field of the request to what is wrong with it.
abbrev pub Fields : Type 0
Fields = List (String × Message)

abbrev pub set_field : String → Message → Fields → Fields
set_field k m [] = (k, m) ∷ []
set_field k m ((j, n) ∷ fs) = if str_eq j k then (k, m) ∷ fs else (j, n) ∷ set_field k m fs

pub set_field-ne-nil : (k : String) (m : Message) (fs : Fields) → set_field k m fs ≢ []
set_field-ne-nil k m [] = ground arith
set_field-ne-nil k m ((j, n) ∷ fs) = ground arith

-- `if bad { fields[k] = m }`
unfoldable pub flag : Bool → String → Message → Fields → Fields
flag bad k m fs = if bad then set_field k m fs else fs

pub flag-nil :
    (bad : Bool) (k : String) (m : Message) (fs : Fields)
    → (flag bad k m fs ≡ []) ↔ (bad ≡ false) × (fs ≡ [])
unfolding flag
flag-nil true k m fs = (λ e. absurd (set_field-ne-nil k m fs e), λ h. absurd (cc))
flag-nil false k m fs = (λ e. (refl, e), λ h. h.1)

-- maps.Copy
abbrev pub copy_fields : Fields → Fields → Fields
copy_fields all [] = all
copy_fields all ((k, m) ∷ fs) = copy_fields (set_field k m all) fs

pub data Kind : Type 0 where
  invalid not_found conflict unavailable upstream : Kind

pub data Error : Type 0 where
  -- *apperr.Error without and with a cause.
  app : Kind → String → Message → Fields → Error
  wrap : Kind → String → Message → Fields → Error → Error
  -- store.ErrNotFound
  missing : Error
  -- *store.DuplicateError with its column
  duplicate : String → Error
  -- wg.ErrSubnetFull
  subnet_full : Error
  -- host.ErrOffline
  offline : Error
  -- docker.ErrNotFound and docker.ErrUnavailable
  no_container docker_unavailable : Error
  -- *deploy.BootError, with what the container printed
  boot_failed : Message → List Text → Error
  -- store.ErrIdempotencyMismatch and store.ErrIdempotencyBusy
  idempotency_mismatch idempotency_busy : Error
  -- errors.Join
  joined : Error → Error → Error
  -- Any other error, such as one of the database's or Docker's.
  failure : Error

-- What a Go function with an error returns: only one of the two is of use.
pub data Result {ℓ} (T : Type ℓ) : Type ℓ where
  err : Error → Result T
  ok : T → Result T

infixl 5 ◌>>=◌ ◌>>◌
-- `if err != nil { return err }` after each call.
abbrev pub ◌>>=◌ {ℓ κ} : {T : Type ℓ} {U : Type κ} → Result T → (T → Result U) → Result U
err failed >>= next = err failed
ok value >>= next = next value

abbrev validation_failed : Fields → Error
validation_failed all = app invalid "validation_failed" (plain "some fields are invalid") all

abbrev pub fields_error_of : Fields → Result (Unit {0})
fields_error_of [] = ok tt
fields_error_of (f ∷ fs) = err (validation_failed (f ∷ fs))

-- apperr.Fields over one map: nil when it is empty.
abbrev pub fields_error : Fields → Result (Unit {0})
fields_error fields = fields_error_of (copy_fields [] fields)

-- apperr.Field
abbrev pub field_error : String → Message → Error
field_error name m = validation_failed (set_field name m [])

-- errors.Is for an error with no fields of its own.
abbrev pub is_subnet_full : Error → Bool
is_subnet_full subnet_full = true
is_subnet_full (wrap k c m f e) = is_subnet_full e
is_subnet_full (joined d e) = is_subnet_full d || is_subnet_full e
is_subnet_full _ = false

abbrev first_of {ℓ} : {A : Type ℓ} → Option A → Option A → Option A
first_of (some a) b = some a
first_of none b = b

-- errors.As for *store.DuplicateError.
abbrev pub as_duplicate : Error → Option String
as_duplicate (duplicate column) = some column
as_duplicate (wrap k c m f e) = as_duplicate e
as_duplicate (joined d e) = first_of (as_duplicate d) (as_duplicate e)
as_duplicate _ = none

-- For calls that return an error only.
abbrev pub ◌>>◌ {κ} : {U : Type κ} → Result (Unit {0}) → Result U → Result U
err failed >> last = err failed
ok done >> last = last

pub >>=-eq-ok {ℓ κ} :
    {T : Type ℓ} {U : Type κ} (first : Result T) (next : T → Result U) {end : U}
    → (first >>= next) ≡ ok end
    → (value : T) × (first ≡ ok value) × (next value ≡ ok end)
>>=-eq-ok (err failed) next e = cc
>>=-eq-ok (ok value) next e = (value, refl, e)
