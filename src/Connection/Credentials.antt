-- ===== src/Connection/Credentials.antt =====
-- gnutls/connection.py, `X509Credentials`. Certificates, keys and lists are their `_c_object`s.
pub mod Synced
pub mod Built
pub mod Returns
pub mod Verify
use python3_gnutls.Prelude.{
  ℕ, ◌+◌, ◌*◌, Bool, true, false, ◌&&◌, Option, none, some, List, [], ◌∷◌, ◌++◌, Str, Bytes, ℤ, pos,
  negsuc, ltb, if◌then◌else◌,
}
use python3_gnutls.Errors.{
  value_error, certificate_expired_error, text, format, new, Exception, Result, ok, err, bind,
}
use python3_gnutls.Exec.{Exec, pure, raise, lift, gets, modify, ◌>>=◌, ◌>>◌}
use python3_gnutls.Text.{Unicode, codes}
use python3_gnutls.Status.{Reply, check_status}
use python3_gnutls.Crypto.Name.{X509Name}
use python3_gnutls.Crypto.AltNames.{AlternativeNames}
use python3_gnutls.Crypto.Certificate.{CertificateLibrary, activation_time, expiration_time}
use python3_gnutls.Crypto.Crl
use python3_gnutls.Crypto.Crl.{CrlLibrary}
use python3_gnutls.Connection.ServerNames
use python3_gnutls.Connection.ServerNames.{Identity, Identities}

-- The calls that change the C credentials.
pub data Call : Type 0 where
  set_x509_key : ℕ → ℕ → Call
  set_retrieve_function : Call
  set_x509_trust : List ℕ → Call
  set_verify_limits : ℕ → ℕ → Call

-- The object, with the calls that its C counterpart has accepted, the latest last.
pub record Credentials : Type 0 where
  pub native : List Call
  pub max_depth : ℕ
  pub max_bits : ℕ
  pub cert : Option ℕ
  pub key : Option ℕ
  pub identities : List Identity
  pub trusted : List ℕ
  pub crl_list : List ℕ
  pub server_name_identities : Identities

-- What `__new__` and the assignments of constants leave.
abbrev pub allocated : Credentials
allocated = record {
  native = [];
  max_depth = 5;
  max_bits = 8200;
  cert = none;
  key = none;
  identities = [];
  trusted = [];
  crl_list = [];
  server_name_identities = [];
}

abbrev pub log_call : Call → Credentials → Credentials
log_call c s = record s { native = s.native ++ c ∷ [] }

-- A call of a function that returns nothing.
abbrev pub issue : Call → Exec Credentials (Unit {0})
issue c = modify (log_call c)

-- A call whose status is checked; how the library answers may depend on the calls before.
abbrev pub accept : Call → Result ℤ → Exec Credentials (Unit {0})
accept c (ok _) = issue c
accept c (err e) = raise e

abbrev pub answered : Reply → Call → Exec Credentials (Unit {0})
answered r c = accept c (check_status none r)

-- What `verify_callback` gets as `preverify_status`: an exception, or anything else.
pub data Preverify : Type 0 where
  raised : Exception → Preverify
  passed : Preverify

-- The `max_verify_length` and `max_verify_bits` properties' setters.
unfoldable pub set_max_verify_length : ℕ → Exec Credentials (Unit {0})
set_max_verify_length max_depth = do
  bits ← gets (λ c. c.max_bits)
  issue (set_verify_limits bits max_depth)
  modify (λ c. record c { max_depth = max_depth })

unfoldable pub set_max_verify_bits : ℕ → Exec Credentials (Unit {0})
set_max_verify_bits max_bits = do
  depth ← gets (λ c. c.max_depth)
  issue (set_verify_limits max_bits depth)
  modify (λ c. record c { max_bits = max_bits })

unfoldable pub set_crl_list : List ℕ → Exec Credentials (Unit {0})
set_crl_list crls = modify (λ c. record c { crl_list = crls })

-- How libgnutls answers a checked call on credentials that have accepted the calls of the list.
module _ (answer : List Call → Call → Reply) where
  checked : Call → Exec Credentials (Unit {0})
  checked c = do calls ← gets (λ s. s.native); answered (answer calls c) c

  unfoldable pub add_trusted : List ℕ → Exec Credentials (Unit {0})
  unfolding checked
  add_trusted [] = pure tt
  add_trusted (t ∷ ts) = do
    checked (set_x509_trust (t ∷ ts))
    modify (λ c. record c { trusted = c.trusted ++ t ∷ ts })

  -- `if cert and key: … elif (cert, key) != (None, None): raise …`
  set_key_pair : Option ℕ → Option ℕ → Exec Credentials (Unit {0})
  unfolding checked
  set_key_pair (some cert) (some key) = checked (set_x509_key cert key)
  set_key_pair none none = pure tt
  set_key_pair _ _ =
      raise (new value_error (text "Specify neither or both the certificate and private key"))

  -- Runs a method of the dictionary `server_name_identities`.
  abbrev on_names : Exec Identities (Unit {0}) → Exec Credentials (Unit {0})
  on_names m c =
      let (r, names) = m c.server_name_identities in
      (r, record c { server_name_identities = names })

  module _ (u : Unicode) (names : ℕ → Result AlternativeNames) (subject : ℕ → Result X509Name) where
    add_own : Option ℕ → Option ℕ → Exec Credentials (Unit {0})
    add_own (some cert) (some key) =
        on_names (ServerNames.add u names subject (record { cert = cert; key = key }))
    add_own _ _ = pure tt

    -- `X509Credentials.__init__`
    unfoldable pub init_credentials :
        Option ℕ → Option ℕ → List ℕ → List ℕ → List Identity → Exec Credentials (Unit {0})
    unfolding set_key_pair add_own add_trusted set_crl_list
    init_credentials cert key trusted crls identities = do
      set_key_pair cert key
      issue set_retrieve_function
      modify (λ c. record c {
        max_depth = 5;
        max_bits = 8200;
        cert = cert;
        key = key;
        identities = identities;
        trusted = [];
      })
      add_trusted trusted
      set_crl_list crls
      modify (λ c. record c { server_name_identities = [] })
      on_names (ServerNames.init_identities u names subject identities)
      add_own cert key

-- Times are whole seconds since the epoch, and `time()` is given in microseconds.
abbrev pub micros : ℕ
micros = 1000000

-- `t > now`
unfoldable pub is_after : ℤ → ℕ → Bool
is_after (pos t) now = ltb now (t * micros)
is_after (negsuc t) now = false

-- `t < now`
unfoldable pub is_before : ℤ → ℕ → Bool
is_before (pos t) now = ltb (t * micros) now
is_before (negsuc t) now = true

module _ (lib : CertificateLibrary) (crl_lib : CrlLibrary) where
  unfoldable pub check_crls : Str → ℕ → List ℕ → Result (Unit {0})
  check_crls cert_name cert [] = ok tt
  check_crls cert_name cert (crl ∷ crls) =
      bind (Crl.check_revocation crl_lib cert_name cert crl) λ _. check_crls cert_name cert crls

  -- `check_certificate`; `now` is what `time()` returns.
  unfoldable pub check_certificate : ℕ → ℕ → Str → List ℕ → Result (Unit {0})
  check_certificate now cert cert_name crls = bind (activation_time lib cert) λ activation.
      if is_after activation now
      then err (new certificate_expired_error (format "%s is not yet activated" cert_name))
      else bind (expiration_time lib cert) λ expiration.
        if is_before expiration now
        then err (new certificate_expired_error (format "%s has expired" cert_name))
        else check_crls cert_name cert crls

  unfoldable pub verify_callback : ℕ → ℕ → Preverify → List ℕ → Result (Unit {0})
  verify_callback now peer_cert (raised e) crls = err e
  verify_callback now peer_cert passed crls =
      check_certificate now peer_cert (codes "peer certificate") crls

abbrev own_identity : Option ℕ → Option ℕ → Option Identity
own_identity (some cert) (some key) = some (record { cert = cert; key = key })
own_identity _ _ = none

-- `select_server_identity`, on the server name of the session
unfoldable pub select_server_identity :
    Unicode → Option Bytes → Credentials → Result (Option Identity)
select_server_identity u (some server_name) c =
    ServerNames.get u server_name c.server_name_identities
select_server_identity u none c = ok (own_identity c.cert c.key)

-- What `_retrieve_certificate` writes into the `gnutls_retr2_st`: where there is an identity, one
-- certificate of type GNUTLS_CRT_X509 with its key.
pub record Retrieved : Type 0 where
  pub deinit_all : ℕ
  pub ncerts : ℕ
  pub identity : Option Identity

unfoldable pub retrieve_certificate : Option Identity → Retrieved
retrieve_certificate none = record { deinit_all = 0; ncerts = 0; identity = none }
retrieve_certificate (some i) = record { deinit_all = 0; ncerts = 1; identity = some i }
