-- ===== src/Connection/Opening.antt =====
-- gnutls/connection.py: the constructors of `Session`, `ClientSession`, `ServerSession` and
-- `ServerSessionFactory`, and the setters of `credentials` and `server_name`. The C session is the log
-- of the calls that it has accepted, the latest last.
pub mod Credential
pub mod Built
use python3_gnutls.Prelude.{Bytes, ℤ, ℕ, Option, none, some, List, [], ◌∷◌, ◌++◌}
use python3_gnutls.Errors.{Result, ok, err, bind}
use python3_gnutls.Exec.{◌>>=◌, ◌>>◌, Exec, pure, raise, modify}
use python3_gnutls.Status.{Reply, check_status}
use python3_gnutls.Connection.Context.{Context}

-- GNUTLS_SERVER and GNUTLS_CLIENT
pub data Role : Type 0 where
  server client : Role

pub data Call : Type 0 where
  init : Role → Call
  set_ptr set_default_priority set_private_extensions clear_credentials : Call
  priority_set_direct : Option Bytes → Call
  set_transport : ℕ → Call
  set_credentials : (type credentials : ℕ) → Call
  set_server_name : Bytes → Call
  set_request : ℕ → Call

-- The object: a socket is its file number, and credentials are their identity.
pub record Session : Type 0 where
  pub native : List Call
  pub socket : Option ℕ
  pub credentials : Option ℕ
  pub server_name : Option Bytes

-- What `__new__` leaves.
abbrev pub allocated : Session
allocated = record { native = []; socket = none; credentials = none; server_name = none }

abbrev pub log_call : Call → Session → Session
log_call c s = record s { native = s.native ++ c ∷ [] }

-- A call of a function that returns nothing.
abbrev pub issue : Call → Exec Session (Unit {0})
issue c = modify (log_call c)

-- `CRED_CERTIFICATE`, the `_type` of all credentials
abbrev pub cred_certificate : ℕ
cred_certificate = 1

-- `if context.session_parameters: … else: parameters = None`
abbrev pub sent_parameters : Option Bytes → Option Bytes
sent_parameters none = none
sent_parameters (some []) = none
sent_parameters (some (b ∷ bs)) = some (b ∷ bs)

-- How libgnutls answers a checked call on a session that has accepted the calls of the list.
module _ (answer : List Call → Call → Reply) where
  abbrev pub accept : Call → Result ℤ → Exec Session (Unit {0})
  accept c (ok _) = issue c
  accept c (err e) = raise e

  abbrev pub checked : Call → Exec Session (Unit {0})
  checked c s = accept c (check_status none (answer s.native c)) s

  -- `_set_credentials`
  unfoldable pub set_credential : ℕ → Exec Session (Unit {0})
  set_credential credentials = do
    issue clear_credentials
    checked (set_credentials cred_certificate credentials)
    modify (λ s. record s { credentials = some credentials })

  -- `ClientSession._set_server_name`
  unfoldable pub set_name : Bytes → Exec Session (Unit {0})
  set_name name = do
    checked (set_server_name name)
    modify (λ s. record s { server_name = some name })

  -- `Session.__init__`
  unfoldable pub init_session : Role → ℕ → Context → Exec Session (Unit {0})
  init_session role socket context = do
    checked (init role)
    issue set_ptr
    checked set_default_priority
    checked (priority_set_direct (sent_parameters context.session_parameters))
    issue (set_transport socket)
    issue set_private_extensions
    modify (λ s. record s { socket = some socket })
    set_credential context.credentials

  abbrev pub set_given_name : Option Bytes → Exec Session (Unit {0})
  set_given_name none = pure tt
  set_given_name (some name) = set_name name

  -- `ClientSession.__init__`
  unfoldable pub init_client : ℕ → Context → Option Bytes → Exec Session (Unit {0})
  unfolding init_session set_name
  init_client socket context server_name = do
    init_session client socket context
    modify (λ s. record s { server_name = none })
    set_given_name server_name

  abbrev pub request_certificate : Option ℕ → Exec Session (Unit {0})
  request_certificate none = pure tt
  request_certificate (some request) = issue (set_request request)

  -- `ServerSession.__init__`
  unfoldable pub init_server : ℕ → Context → Exec Session (Unit {0})
  unfolding init_session
  init_server socket context = do
    init_session server socket context
    request_certificate context.certificate_request

  -- `ServerSessionFactory.accept`, where the class of the sessions is `ServerSession`, and from what the
  -- `accept` of the socket returned: a new socket and an address. A session whose constructor raised is
  -- lost.
  unfoldable pub accept_session : {A : Type 0} → Context → Result (ℕ × A) → Result (Session × A)
  unfolding init_server
  accept_session context accepted =
      bind accepted
        λ from. let (r, s) = init_server from.0 context allocated in bind r λ _. ok (s, from.1)
