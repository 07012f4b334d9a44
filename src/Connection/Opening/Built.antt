-- ===== src/Connection/Opening/Built.antt =====
-- What the C session was told once a constructor has returned.
use python3_gnutls.Prelude.{
  Bytes, pos, ◌≤ℤ◌, ℕ, ◌≡◌, refl, sym, ap, ◌∙◌, Bool, true, false, Option, none, some, List, [],
  ◌∷◌, ◌++◌, append-nil,
}
use python3_gnutls.Errors.{Result, ok, bind}
use python3_gnutls.Exec.{◌>>◌, Exec, modify, bind-eq}
use python3_gnutls.Status.{Reply}
use python3_gnutls.Status.Laws.{check_status_ok}
use python3_gnutls.Connection.Context.{Context}
use python3_gnutls.Connection.Context.Validated.{IsAccepted, Made, Made-IsAccepted}
use python3_gnutls.Connection.Opening.{
  Role, server, client, Call, init, set_ptr, set_default_priority, set_private_extensions,
  clear_credentials, priority_set_direct, set_transport, set_credentials, set_server_name,
  set_request, Session, allocated, log_call, issue, cred_certificate, sent_parameters, accept,
  checked, set_credential, set_name, init_session, set_given_name, init_client, request_certificate,
  init_server, accept_session,
}

-- What the C session is told of the session parameters of a context: the string, byte for byte, or
-- `NULL` where there is none or where it is empty.
pub data Announces : Option Bytes → Option Bytes → Type 0 where
  as_given : (b : ℕ) (bs : Bytes) → Announces (some (b ∷ bs)) (some (b ∷ bs))
  empty : Announces (some []) none
  absent : Announces none none

sent-Announces : (p : Option Bytes) → Announces p (sent_parameters p)
sent-Announces none = absent
sent-Announces (some []) = empty
sent-Announces (some (b ∷ bs)) = as_given b bs

-- The calls of a session that was opened, in order.
abbrev pub common_calls : Role → ℕ → Option Bytes → ℕ → List Call
common_calls role socket parameters credentials =
    init role
    ∷ set_ptr
    ∷ set_default_priority
    ∷ priority_set_direct parameters
    ∷ set_transport socket
    ∷ set_private_extensions
    ∷ clear_credentials
    ∷ set_credentials cred_certificate credentials
    ∷ []

abbrev pub request_calls : Option ℕ → List Call
request_calls none = []
request_calls (some request) = set_request request ∷ []

abbrev pub name_calls : Option Bytes → List Call
name_calls none = []
name_calls (some name) = set_server_name name ∷ []

unfoldable pub is_priority : Call → Bool
is_priority (priority_set_direct p) = true
is_priority _ = false

-- A library that refuses nothing but session parameters, and those that `gnutls_priority_init`
-- refuses; `NULL` stands for the default.
pub record IsWilling (answer : List Call → Call → Reply) (priority_init : Option Bytes → Reply)
    : Type 0 where
  pub others :
      (calls : List Call) (c : Call) → is_priority c ≡ false → pos 0 ≤ℤ (answer calls c).retcode
  pub priority :
      (calls : List Call) (p : Option Bytes)
      → answer calls (priority_set_direct p) ≡ priority_init p
  pub default : pos 0 ≤ℤ (priority_init none).retcode

abbrev opened_session : Role → ℕ → Context → Session
opened_session role socket context = record allocated {
  native =
      common_calls role socket (sent_parameters context.session_parameters) context.credentials;
  socket = some socket;
  credentials = some context.credentials;
}

module _ (answer : List Call → Call → Reply) (priority_init : Option Bytes → Reply) where
  checked_lem :
      (c : Call) (s : Session)
      → pos 0 ≤ℤ (answer s.native c).retcode
      → checked answer c s ≡ (ok tt, log_call c s)
  checked_lem c s h = ap (λ r. accept answer c r s) (check_status_ok none (answer s.native c) h)

  step :
      {A : Type 0} (c : Call) (k : Exec Session A) (s : Session)
      → pos 0 ≤ℤ (answer s.native c).retcode
      → (checked answer c >> k) s ≡ k (log_call c s)
  step c k s h = bind-eq (checked answer c) (λ _. k) (checked_lem c s h)

  sent-accepted :
      IsWilling answer priority_init
      → (p : Option Bytes) (calls : List Call) → IsAccepted priority_init p
      → pos 0 ≤ℤ (answer calls (priority_set_direct (sent_parameters p))).retcode
  sent-accepted w none calls h = rw (w.priority calls none) h
  sent-accepted w (some []) calls h = rw (w.priority calls none) w.default
  sent-accepted w (some (b ∷ bs)) calls h = rw (w.priority calls (some (b ∷ bs))) h

  init_session_lem :
      (role : Role) (socket : ℕ) (context : Context)
      → IsWilling answer priority_init
      → IsAccepted priority_init context.session_parameters
      → init_session answer role socket context allocated
        ≡ (ok tt, opened_session role socket context)
  unfolding init_session set_credential is_priority
  init_session_lem role socket context w h =
      step (init role) (issue set_ptr >> after_ptr) allocated (w.others [] (init role) refl)
      ∙ (step set_default_priority (checked answer wanted >> last) s2
            (w.others s2.native set_default_priority refl)
          ∙ (step wanted last s3 (sent-accepted w context.session_parameters s3.native h)
              ∙ step given (modify (λ s. record s { credentials = some context.credentials })) s7
                  (w.others s7.native given refl)))
    where
      wanted : Call
      wanted = priority_set_direct (sent_parameters context.session_parameters)

      given : Call
      given = set_credentials cred_certificate context.credentials

      s2 : Session
      s2 = log_call set_ptr (log_call (init role) allocated)

      s3 : Session
      s3 = log_call set_default_priority s2

      s7 : Session
      s7 =
          log_call clear_credentials
            (record (log_call set_private_extensions
              (log_call (set_transport socket) (log_call wanted s3))) { socket = some socket })

      last : Exec Session (Unit {0})
      last =
          issue (set_transport socket)
          >> (issue set_private_extensions
              >> (modify (λ s. record s { socket = some socket })
                  >> set_credential answer context.credentials))

      after_ptr : Exec Session (Unit {0})
      after_ptr = checked answer set_default_priority >> (checked answer wanted >> last)

  -- Over such a library a server session opens from every context: the C session is set up in the
  -- order of the constructor, with the parameters and the credentials of the context, and then, where
  -- the context asks for a certificate, with the request.
  pub open_server_lem :
      (socket : ℕ) (context : Context)
      → IsWilling answer priority_init
      → Made priority_init context
      → (s : Session) × (init_server answer socket context allocated ≡ (ok tt, s))
        × (s.native
            ≡ common_calls server socket
                (sent_parameters context.session_parameters)
                context.credentials
              ++ request_calls context.certificate_request)
        × (s.credentials ≡ some context.credentials)
        × (s.socket ≡ some socket)
  unfolding init_server
  open_server_lem socket context w m =
      let opened = opened_session server socket context in
      let start =
        bind-eq (init_session answer server socket context)
          (λ _. request_certificate answer context.certificate_request)
          (init_session_lem server socket context w (Made-IsAccepted priority_init context m)) in
      requested context.certificate_request opened start
    where
      requested :
          (request : Option ℕ) (t : Session) {o : Result (Unit {0}) × Session}
          → o ≡ request_certificate answer request t
          → (s : Session) × (o ≡ (ok tt, s))
            × (s.native ≡ t.native ++ request_calls request)
            × (s.credentials ≡ t.credentials)
            × (s.socket ≡ t.socket)
      requested none t e = (t, e, sym (append-nil t.native), refl, refl)
      requested (some r) t e = (log_call (set_request r) t, e, refl, refl, refl)

  -- So does a client session, where the server name is announced last.
  pub open_client_lem :
      (socket : ℕ) (context : Context) (name : Option Bytes)
      → IsWilling answer priority_init
      → Made priority_init context
      → (s : Session) × (init_client answer socket context name allocated ≡ (ok tt, s))
        × (s.native
            ≡ common_calls client socket
                (sent_parameters context.session_parameters)
                context.credentials
              ++ name_calls name)
        × (s.credentials ≡ some context.credentials)
        × (s.server_name ≡ name)
  unfolding init_client set_name is_priority
  open_client_lem socket context name w m =
      let opened = opened_session client socket context in
      let start =
        bind-eq (init_session answer client socket context)
          (λ _. modify (λ s. record s { server_name = none }) >> set_given_name answer name)
          (init_session_lem client socket context w (Made-IsAccepted priority_init context m)) in
      given name opened refl start
    where
      given :
          (name : Option Bytes) (t : Session) {o : Result (Unit {0}) × Session}
          → t.server_name ≡ none
          → o ≡ set_given_name answer name t
          → (s : Session) × (o ≡ (ok tt, s))
            × (s.native ≡ t.native ++ name_calls name)
            × (s.credentials ≡ t.credentials)
            × (s.server_name ≡ name)
      given none t n e = (t, e, sym (append-nil t.native), refl, n)
      given (some b) t n e = (
        record (log_call (set_server_name b) t) { server_name = some b },
        e
            ∙ step (set_server_name b) (modify (λ s. record s { server_name = some b })) t
                (w.others t.native (set_server_name b) refl),
        refl,
        refl,
        refl,
      )

  -- Over a library that refuses nothing but session parameters, and of these only what it refuses to a
  -- context, a session of either role opens from every context, whatever was assigned to that before.
  -- The C session is set up in the order of the constructor, with the credentials of the context and
  -- with its parameters byte for byte, or none where it has none or an empty string; then comes the
  -- request of a server that asks for a certificate, or the server name of a client that was given
  -- one. A factory hands the server session out with the address.
  pub open_lem :
      (socket address : ℕ) (context : Context) (name : Option Bytes)
      → IsWilling answer priority_init
      → Made priority_init context
      → (p : Option Bytes) × Announces context.session_parameters p
        × ((s : Session) × (init_server answer socket context allocated ≡ (ok tt, s))
            × (s.native
                ≡ common_calls server socket p context.credentials
                  ++ request_calls context.certificate_request)
            × (s.credentials ≡ some context.credentials)
            × (s.socket ≡ some socket)
            × (accept_session answer context (ok (socket, address)) ≡ ok (s, address)))
        × (s : Session) × (init_client answer socket context name allocated ≡ (ok tt, s))
        × (s.native ≡ common_calls client socket p context.credentials ++ name_calls name)
        × (s.credentials ≡ some context.credentials)
        × (s.server_name ≡ name)
  unfolding accept_session
  open_lem socket address context name w m =
      let (s0, ran0, calls0, credentials0, socket0) = open_server_lem socket context w m in
      let (s, ran, calls, credentials, own) = open_client_lem socket context name w m in
      (
        sent_parameters context.session_parameters,
        sent-Announces context.session_parameters,
        (s0, ran0, calls0, credentials0, socket0, ap (λ q. bind q.0 (λ _. ok (q.1, address))) ran0),
        s,
        ran,
        calls,
        credentials,
        own,
      )
