-- ===== src/Connection/Opening/Credential.antt =====
-- Which credentials the C session has.
use python3_gnutls.Prelude.{
  Bytes, ℤ, ℕ, ◌≡◌, refl, ap, ◌∙◌, Bool, true, false, Option, none, some, List, [], ◌∷◌, ◌++◌,
}
use python3_gnutls.Errors.{Result, ok, err}
use python3_gnutls.Exec.{◌>>=◌, ◌>>◌, Exec, modify}
use python3_gnutls.Status.{Reply, check_status}
use python3_gnutls.Connection.Context.{Context}
use python3_gnutls.Connection.Opening.{
  Role, server, client, Call, init, set_ptr, set_default_priority, set_private_extensions,
  clear_credentials, priority_set_direct, set_transport, set_credentials, set_server_name,
  set_request, Session, allocated, log_call, issue, cred_certificate, sent_parameters, accept,
  checked, set_credential, set_name, init_session, set_given_name, init_client, request_certificate,
  init_server,
}

-- The credentials that were set since they were cleared last.
unfoldable pub held_in : List ℕ → List Call → List ℕ
held_in cs [] = cs
held_in cs (clear_credentials ∷ calls) = held_in [] calls
held_in cs (set_credentials t c ∷ calls) = held_in (cs ++ c ∷ []) calls
held_in cs (_ ∷ calls) = held_in cs calls

held_in-append :
    (cs : List ℕ) (ds es : List Call) → held_in cs (ds ++ es) ≡ held_in (held_in cs ds) es
unfolding held_in
held_in-append cs [] es = refl
held_in-append cs (clear_credentials ∷ ds) es = held_in-append [] ds es
held_in-append cs (set_credentials t c ∷ ds) es = held_in-append (cs ++ c ∷ []) ds es
held_in-append cs (_ ∷ ds) es = held_in-append cs ds es

-- The C session has none, or those of the attribute alone.
pub data Holds (s : Session) : Type 0 where
  bare : held_in [] s.native ≡ [] → Holds s
  one : (c : ℕ) → s.credentials ≡ some c → held_in [] s.native ≡ c ∷ [] → Holds s

-- Calls that leave the credentials alone.
unfoldable is_neutral : Call → Bool
is_neutral clear_credentials = false
is_neutral (set_credentials t c) = false
is_neutral _ = true

neutral : (cs : List ℕ) (c : Call) → is_neutral c ≡ true → held_in cs (c ∷ []) ≡ cs
unfolding is_neutral held_in
neutral cs clear_credentials h = cc
neutral cs (set_credentials t c) h = cc
neutral cs _ h = refl

log_call-Holds : (c : Call) (s : Session) → is_neutral c ≡ true → Holds s → Holds (log_call c s)
log_call-Holds c s h (bare e) = bare (held_in-append [] s.native (c ∷ []) ∙ (neutral _ c h ∙ e))
log_call-Holds c s h (one d a e) =
    one d a (held_in-append [] s.native (c ∷ []) ∙ (neutral _ c h ∙ e))

abbrev Keeps : {A : Type 0} → Exec Session A → Type 0
Keeps m = (s : Session) → Holds s → Holds (m s).1

Keeps-bind :
    {A B : Type 0} (m : Exec Session A) (f : A → Exec Session B)
    → Keeps m
    → ((a : A) → Keeps (f a))
    → Keeps (m >>= f)
Keeps-bind {A} {B} m f hm hf s h = continue (m s).0 (m s).1 (hm s h)
  where
    continue :
        (r : Result A) (t : Session)
        → Holds t
        → Holds (elim r as (λ _. Result B × Session) [ ok a ↦ f a t | err e ↦ (err e, t) ]).1
    continue (ok a) t k = hf a t k
    continue (err e) t k = k

module _ (answer : List Call → Call → Reply) where
  accept-Holds :
      (c : Call) (r : Result ℤ) (s : Session)
      → is_neutral c ≡ true
      → Holds s
      → Holds (accept answer c r s).1
  accept-Holds c (ok v) s n h = log_call-Holds c s n h
  accept-Holds c (err e) s n h = h

  checked-Keeps : (c : Call) → is_neutral c ≡ true → Keeps (checked answer c)
  checked-Keeps c n s h = accept-Holds c (check_status none (answer s.native c)) s n h

  cleared : (s : Session) → held_in [] (s.native ++ clear_credentials ∷ []) ≡ []
  unfolding held_in
  cleared s = held_in-append [] s.native (clear_credentials ∷ [])

  set_after :
      (c : ℕ) (r : Result ℤ) (s : Session)
      → held_in [] s.native ≡ []
      → Holds
          ((accept answer (set_credentials cred_certificate c) r
              >> modify (λ t. record t { credentials = some c }))
            s).1
  unfolding held_in
  set_after c (err e) s h = bare h
  set_after c (ok v) s h = one c refl (
      held_in-append [] s.native (set_credentials cred_certificate c ∷ [])
      ∙ ap (λ l. l ++ c ∷ []) h)

  rename-Keeps :
      (name : Option Bytes) → Keeps (modify (λ (s : Session). record s { server_name = name }))
  rename-Keeps name s (bare e) = bare e
  rename-Keeps name s (one c a e) = one c a e

  set_name-Keeps : (name : Bytes) → Keeps (set_name answer name)
  unfolding set_name is_neutral
  set_name-Keeps name =
      Keeps-bind (checked answer (set_server_name name))
        (λ _. modify (λ t. record t { server_name = some name }))
        (checked-Keeps (set_server_name name) refl) λ _. rename-Keeps (some name)

  reset-Keeps :
      (socket : ℕ) (m : Exec Session (Unit {0}))
      → ((s : Session) → Holds (m s).1)
      → Keeps (modify (λ s. record s { socket = some socket }) >> m)
  reset-Keeps socket m h s k = h (record s { socket = some socket })

  set_credential-Holds : (c : ℕ) (s : Session) → Holds (set_credential answer c s).1
  unfolding set_credential
  set_credential-Holds c s =
      let t = log_call clear_credentials s in
      set_after c (check_status none (answer t.native (set_credentials cred_certificate c))) t
        (cleared s)

  issue-Keeps : (c : Call) → is_neutral c ≡ true → Keeps (issue c)
  issue-Keeps c n s h = log_call-Holds c s n h

  init_session-Keeps :
      (role : Role) (socket : ℕ) (context : Context)
      → Keeps (init_session answer role socket context)
  unfolding init_session is_neutral
  init_session-Keeps role socket context =
      Keeps-bind (checked answer (init role)) (λ _. issue set_ptr >> after_ptr)
        (checked-Keeps (init role) refl)
        λ _.
          Keeps-bind (issue set_ptr) (λ _. after_ptr) (issue-Keeps set_ptr refl)
            λ _.
              Keeps-bind (checked answer set_default_priority) (λ _. checked answer wanted >> last)
                (checked-Keeps set_default_priority refl)
                λ _.
                  Keeps-bind (checked answer wanted) (λ _. last) (checked-Keeps wanted refl)
                    λ _.
                      Keeps-bind (issue (set_transport socket))
                        (λ _. issue set_private_extensions >> end)
                        (issue-Keeps (set_transport socket) refl)
                        λ _.
                          Keeps-bind (issue set_private_extensions) (λ _. end)
                            (issue-Keeps set_private_extensions refl)
                            λ _.
                              reset-Keeps socket (set_credential answer context.credentials)
                                (set_credential-Holds context.credentials)
    where
      wanted : Call
      wanted = priority_set_direct (sent_parameters context.session_parameters)

      end : Exec Session (Unit {0})
      end =
          modify (λ s. record s { socket = some socket })
          >> set_credential answer context.credentials

      last : Exec Session (Unit {0})
      last = issue (set_transport socket) >> (issue set_private_extensions >> end)

      after_ptr : Exec Session (Unit {0})
      after_ptr = checked answer set_default_priority >> (checked answer wanted >> last)

  init_client-Keeps :
      (socket : ℕ) (context : Context) (name : Option Bytes)
      → Keeps (init_client answer socket context name)
  unfolding init_client
  init_client-Keeps socket context name =
      Keeps-bind (init_session answer client socket context)
        (λ _. modify (λ s. record s { server_name = none }) >> set_given_name answer name)
        (init_session-Keeps client socket context)
        λ _.
          Keeps-bind (modify (λ s. record s { server_name = none }))
            (λ _. set_given_name answer name) (rename-Keeps none) λ _. given name
    where
      given : (name : Option Bytes) → Keeps (set_given_name answer name)
      given none s h = h
      given (some n) s h = set_name-Keeps n s h

  init_server-Keeps : (socket : ℕ) (context : Context) → Keeps (init_server answer socket context)
  unfolding init_server is_neutral
  init_server-Keeps socket context =
      Keeps-bind (init_session answer server socket context)
        (λ _. request_certificate answer context.certificate_request)
        (init_session-Keeps server socket context) λ _. requested context.certificate_request
    where
      requested : (request : Option ℕ) → Keeps (request_certificate answer request)
      requested none s h = h
      requested (some r) s h = log_call-Holds (set_request r) s refl h

  -- What a program does to a session: its constructor, and then any assignments, which may fail.
  pub data Used : Session → Type 0 where
    as_client :
        (socket : ℕ) (context : Context) (name : Option Bytes)
        → Used (init_client answer socket context name allocated).1
    as_server :
        (socket : ℕ) (context : Context) → Used (init_server answer socket context allocated).1
    changed :
        {s : Session} (credentials : ℕ) → Used s → Used (set_credential answer credentials s).1
    named : {s : Session} (name : Bytes) → Used s → Used (set_name answer name s).1

  allocated-Holds : Holds allocated
  unfolding held_in
  allocated-Holds = bare refl

  -- From its constructor on, whatever the library answers and whatever credentials and names are
  -- assigned, the C session of a client or a server never has credentials other
  -- than those of the attribute, and never two: at most it has none, after an assignment failed.
  pub Used-Holds : (s : Session) → Used s → Holds s
  Used-Holds _ (as_client socket context name) =
      init_client-Keeps socket context name allocated allocated-Holds
  Used-Holds _ (as_server socket context) =
      init_server-Keeps socket context allocated allocated-Holds
  Used-Holds _ (changed {s} c u) = set_credential-Holds c s
  Used-Holds _ (named {s} name u) = set_name-Keeps name s (Used-Holds s u)
