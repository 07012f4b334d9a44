-- ===== src/Connection/Context/Validated.antt =====
-- The session parameters of a context are ones that the library has accepted.
use python3_gnutls.Prelude.{
  if◌then◌else◌, Bytes, ℤ, pos, ◌≤ℤ◌, ℕ, ◌≡◌, refl, subst, Option, none, arith,
}
use python3_gnutls.Errors.{gnutls_error, is_subclass, Exception, Result, ok, err, bind-eq-ok}
use python3_gnutls.Status.{Reply, check_status}
use python3_gnutls.Status.Laws.{check_status-eq-ok}
use python3_gnutls.Connection.Context.{
  Parameters, Context, or_default, encode_parameters, invalid_parameters, store, check,
  set_parameters, init_context,
}

session_parameters-eq :
    (d c : Context) (request : Option ℕ)
    → ok (record d { certificate_request = request }) ≡ ok c
    → d.session_parameters ≡ c.session_parameters
session_parameters-eq d c request e = ground arith

module _ (priority_init : Option Bytes → Reply) where
  -- The library accepts what a session would hand to it.
  abbrev pub IsAccepted : Option Bytes → Type 0
  IsAccepted value = pos 0 ≤ℤ (priority_init value).retcode

  -- A context that was constructed, and assigned to any number of times, with or without success.
  pub data Made : Context → Type 0 where
    constructed :
        (credentials : ℕ) (parameters : Parameters) (options : Option (Option ℕ)) {c : Context}
        → init_context priority_init credentials parameters options ≡ ok c
        → Made c
    assigned :
        (parameters : Parameters) {c : Context}
        → Made c
        → Made (set_parameters priority_init parameters c).1

  -- What the setter does: it stores bytes that the library accepts, or raises and stores nothing.
  pub data Assigns (c : Context) : Result (Unit {0}) × Context → Type 0 where
    stored :
        (value : Option Bytes)
        → IsAccepted value
        → Assigns c (ok tt, record c { session_parameters = value })
    refused : (e : Exception) → Assigns c (err e, c)

  store-Assigns :
      (value : Option Bytes) (r : Result ℤ) (c : Context)
      → check_status none (priority_init value) ≡ r
      → Assigns c (store priority_init value r c)
  unfolding store
  store-Assigns value (ok v) c h =
      let (positive, _) = (check_status-eq-ok none (priority_init value) v).0 h in
      stored value positive
  store-Assigns value (err e) c h =
      refused (if is_subclass e.class gnutls_error then invalid_parameters else e)

  check-Assigns :
      (value : Result (Option Bytes)) (c : Context) → Assigns c (check priority_init value c)
  check-Assigns (ok value) c = store-Assigns value (check_status none (priority_init value)) c refl
  check-Assigns (err e) c = refused e

  pub set_parameters-Assigns :
      (parameters : Parameters) (c : Context)
      → Assigns c (set_parameters priority_init parameters c)
  unfolding set_parameters
  set_parameters-Assigns parameters c = check-Assigns (encode_parameters parameters) c

  -- What the setter leaves, by its outcome.
  kept :
      {c : Context} {o : Result (Unit {0}) × Context}
      → Assigns c o
      → IsAccepted c.session_parameters
      → IsAccepted o.1.session_parameters
  kept (stored value a) h = a
  kept (refused e) h = h

  returned :
      {c : Context} {o : Result (Unit {0}) × Context}
      → Assigns c o
      → o.0 ≡ ok tt
      → IsAccepted o.1.session_parameters
  returned (stored value a) h = a
  returned (refused e) h = cc

  constructed-IsAccepted :
      (credentials : ℕ) (parameters : Parameters) (options : Option (Option ℕ)) {c : Context}
      → init_context priority_init credentials parameters options ≡ ok c
      → IsAccepted c.session_parameters
  unfolding init_context
  constructed-IsAccepted credentials parameters options {c} h =
      let blank : Context = record {
        credentials = credentials;
        session_parameters = none;
        certificate_request = none;
      } in
      let o = set_parameters priority_init parameters blank in
      let (_, ran, e) = bind-eq-ok o.0 _ h in
      subst IsAccepted (session_parameters-eq o.1 c (or_default options) e)
        (returned (set_parameters-Assigns parameters blank) ran)

  -- A context only ever holds session parameters that the library accepts, whatever was assigned to it
  -- before: what is refused, or is of a wrong type, leaves the earlier ones.
  pub Made-IsAccepted : (c : Context) → Made c → IsAccepted c.session_parameters
  Made-IsAccepted c (constructed credentials parameters options h) =
      constructed-IsAccepted credentials parameters options h
  Made-IsAccepted _ (assigned parameters {c} m) =
      kept (set_parameters-Assigns parameters c) (Made-IsAccepted c m)
