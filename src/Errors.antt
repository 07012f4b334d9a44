-- ===== src/Errors.antt =====
-- gnutls/errors.py: the exception classes, and what a Python function ends with.
-- The builtin classes that the program raises or catches stand beside its own.
use python3_gnutls.Prelude.{
  ◌≡◌, refl, ◌⊎◌, inl, inr, arith, true, false, if◌then◌else◌, ℕ, zero, suc, Bool, ◌||◌, Option,
  none, some, String, Str, ℤ, ◌==◌,
}

pub data ErrorClass : Type 0 where
  exception memory_error value_error type_error attribute_error runtime_error : ErrorClass
  os_error unicode_decode_error assertion_error argument_error index_error : ErrorClass
  error gnutls_error operation_would_block operation_interrupted : ErrorClass
  certificate_error certificate_authority_error certificate_security_error : ErrorClass
  certificate_expired_error certificate_revoked_error : ErrorClass
  requested_data_not_available : ErrorClass

-- The class that a class statement derives from; `Exception` stands at the top.
unfoldable pub base : ErrorClass → ErrorClass
base unicode_decode_error = value_error
base gnutls_error = error
base operation_would_block = gnutls_error
base operation_interrupted = gnutls_error
base certificate_error = gnutls_error
base certificate_authority_error = certificate_error
base certificate_security_error = certificate_error
base certificate_expired_error = certificate_error
base certificate_revoked_error = certificate_error
base requested_data_not_available = gnutls_error
base _ = exception

-- A class object's identity.
abbrev pub class_id : ErrorClass → ℕ
class_id exception = 0
class_id memory_error = 1
class_id value_error = 2
class_id type_error = 3
class_id attribute_error = 4
class_id runtime_error = 5
class_id os_error = 6
class_id unicode_decode_error = 7
class_id assertion_error = 8
class_id error = 9
class_id gnutls_error = 10
class_id operation_would_block = 11
class_id operation_interrupted = 12
class_id certificate_error = 13
class_id certificate_authority_error = 14
class_id certificate_security_error = 15
class_id certificate_expired_error = 16
class_id certificate_revoked_error = 17
class_id requested_data_not_available = 18
class_id argument_error = 19
class_id index_error = 20

climb : ℕ → ErrorClass → ErrorClass → Bool
climb zero c d = class_id c == class_id d
climb (suc n) c d = class_id c == class_id d || climb n (base c) d

-- `issubclass(c, d)`, and so whether `except d` takes an exception of class `c`. No class stands
-- more than four steps below `Exception`.
unfoldable pub is_subclass : ErrorClass → ErrorClass → Bool
unfolding climb base
is_subclass = climb 4

-- What an exception says: a literal, a `%` template with its value, the library's text for a status
-- code, or an `ErrorMessage`, which is that text with the code kept.
pub data Message : Type 0 where
  text : String → Message
  format : String → Str → Message
  strerror : ℤ → Message
  error_message : ℤ → Message

-- `certificate` and `context` are the attributes of `CertificateError`, by the objects' identity.
pub record Exception : Type 0 where
  pub class : ErrorClass
  pub message : Message
  pub certificate : Option ℕ
  pub context : Option ℕ

abbrev pub new : ErrorClass → Message → Exception
new c m = record { class = c; message = m; certificate = none; context = none }

abbrev pub new_certificate_error : ErrorClass → String → Option ℕ → ℕ → Exception
new_certificate_error c s cert ctx = record {
  class = c;
  message = text s;
  certificate = cert;
  context = some ctx;
}

pub data Result {ℓ} (A : Type ℓ) : Type ℓ where
  ok : A → Result A
  err : Exception → Result A

abbrev pub bind {ℓ κ} : {A : Type ℓ} {B : Type κ} → Result A → (A → Result B) → Result B
bind (ok a) f = f a
bind (err e) f = err e

-- An exception out of two steps comes from the first, or from the second after the first returned.
pub bind-eq-err {ℓ κ} :
    {A : Type ℓ} {B : Type κ} (m : Result A) (f : A → Result B) (e : Exception)
    → bind m f ≡ err e
    → (m ≡ err e) ⊎ ((a : A) × (m ≡ ok a) × (f a ≡ err e))
bind-eq-err (ok a) f e h = inr (a, refl, h)
bind-eq-err (err x) f e h = inl (ground arith)

pub bind-eq-ok {ℓ κ} :
    {A : Type ℓ} {B : Type κ} (m : Result A) (f : A → Result B) {b : B}
    → bind m f ≡ ok b
    → (a : A) × (m ≡ ok a) × (f a ≡ ok b)
bind-eq-ok (ok a) f h = (a, refl, h)
bind-eq-ok (err e) f h = cc

-- `if test: raise e`, passed.
pub guard-eq-ok {ℓ} :
    {A : Type ℓ} (test : Bool) (e : Exception) (m : Result A) {a : A}
    → (if test then err e else m) ≡ ok a
    → (test ≡ false) × (m ≡ ok a)
guard-eq-ok true e m h = cc
guard-eq-ok false e m h = (refl, h)
