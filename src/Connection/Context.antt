-- ===== src/Connection/Context.antt =====
-- gnutls/connection.py, `TLSContext` and `TLSContextServerOptions`. Credentials are known by their
-- identity.
pub mod Validated
use python3_gnutls.Prelude.{if◌then◌else◌, Bytes, ℤ, ℕ, Option, none, some, [], ◌∷◌}
use python3_gnutls.Errors.{
  value_error, type_error, argument_error, gnutls_error, is_subclass, text, Exception, new, Result,
  ok, err, bind,
}
use python3_gnutls.Exec.{Exec}
use python3_gnutls.Status.{Reply, check_status}

-- What a caller gives as `session_parameters`.
pub data Parameters : Type 0 where
  absent : Parameters
  words encoded : Bytes → Parameters

pub record Context : Type 0 where
  pub credentials : ℕ
  pub session_parameters : Option Bytes
  pub certificate_request : Option ℕ

-- `GNUTLS_CERT_REQUEST`, the default of `TLSContextServerOptions`
abbrev pub cert_request : ℕ
cert_request = 1

-- `server_options or TLSContextServerOptions()`
abbrev pub or_default : Option (Option ℕ) → Option ℕ
or_default none = some cert_request
or_default (some request) = request

-- `if value: value = bytes(value, "utf-8")`; `words` has the bytes of a `str`. What C is given then, a
-- `str` that is empty being refused by ctypes.
unfoldable pub encode_parameters : Parameters → Result (Option Bytes)
encode_parameters absent = ok none
encode_parameters (words []) = err (new argument_error (text "wrong type"))
encode_parameters (words (b ∷ bs)) = ok (some (b ∷ bs))
encode_parameters (encoded []) = ok (some [])
encode_parameters (encoded (b ∷ bs)) =
    err (new type_error (text "encoding without a string argument"))

abbrev pub invalid_parameters : Exception
invalid_parameters = new value_error (text "invalid session parameters")

-- How `gnutls_priority_init` answers to the bytes, or to `NULL`. What it allocates is freed again at
-- once.
module _ (priority_init : Option Bytes → Reply) where
  -- The `try` statement, and the assignment behind it.
  unfoldable pub store : Option Bytes → Result ℤ → Exec Context (Unit {0})
  unfolding is_subclass
  store value (err e) c =
      (err (if is_subclass e.class gnutls_error then invalid_parameters else e), c)
  store value (ok _) c = (ok tt, record c { session_parameters = value })

  abbrev pub check : Result (Option Bytes) → Exec Context (Unit {0})
  check (err e) c = (err e, c)
  check (ok value) c = store value (check_status none (priority_init value)) c

  -- The setter of `session_parameters`
  unfoldable pub set_parameters : Parameters → Exec Context (Unit {0})
  unfolding encode_parameters
  set_parameters value = check (encode_parameters value)

  -- `TLSContext.__init__`; a context whose constructor raised is lost.
  unfoldable pub init_context : ℕ → Parameters → Option (Option ℕ) → Result Context
  unfolding set_parameters
  init_context credentials parameters options =
      let blank : Context = record {
        credentials = credentials;
        session_parameters = none;
        certificate_request = none;
      } in
      let (r, c) = set_parameters parameters blank in
      bind r λ _. ok (record c { certificate_request = or_default options })

  -- `getContext`
  unfoldable pub get_context : Context → Result Context
  unfolding init_context
  get_context c = init_context c.credentials absent none
