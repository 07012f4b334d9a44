-- ===== src/Twisted/Transport.antt =====
-- gnutls/interfaces/twisted/__init__.py: `TLSMixin`, `TLSClient` and `TLSServer`. `S` is the state
-- behind the session; what Twisted and the session do is a parameter.

pub mod Completion
pub mod Handshake
pub mod Watchdog
use python3_gnutls.Prelude.{
  ltb, if◌then◌else◌, ℕ, Bool, true, false, not, ◌||◌, Option, none, some, List, [], ◌∷◌, ◌++◌,
}
use python3_gnutls.Errors.{gnutls_error, is_subclass, Exception, Result, ok, err}
use python3_gnutls.Exec.{Exec}
use python3_gnutls.Twisted.Recurrent.{
  Answer, keep_running, finished, RecurrentCall, new_call, cancel,
}
use python3_gnutls.Twisted.Mixin.{is_blocked}
use python3_gnutls.Connection.Credentials.{Preverify, raised, passed, verify_callback}

-- What the transport asks of Twisted. `connect_error` wraps an exception's text.
pub data Event : Type 0 where
  connect_done connection_made : Event
  connect_failed : Exception → Event
  connect_error : Exception → Event
  losing : Exception → Event
  cancelled : RecurrentCall → Event
  lost : Event

-- `handshaking` says that `doRead` is `doHandshake`, and `ending` that `doWrite` is `endTLSWrite`.
pub record Transport (S : Type 0) : Type 0 where
  pub session : S
  pub reading : Bool
  pub writing : Bool
  pub handshaking : Bool
  pub ending : Bool
  pub connected : Bool
  pub disconnecting : Bool
  pub close_reason : Option Exception
  pub watchdog : Option RecurrentCall
  pub events : List Event

-- What a callback hands to the reactor: nothing, or an exception, which closes the connection.
abbrev pub Verdict : Type 0
Verdict = Option Exception

-- The session, with the credentials of its context. `verify_callback` reads the peer's certificate
-- first.
pub record Peer (S : Type 0) : Type 0 where
  pub handshake : Exec S (Unit {0})
  pub blocked_writing : S → Bool
  pub verify_peer : S → Result (Unit {0})
  pub verify_callback : Preverify → S → Result (Unit {0})
  pub wants_verify : Bool
  pub verify_period : ℕ
  pub close : Exception → S → S

module _ {S : Type 0} where
  abbrev pub note : Event → Transport S → Transport S
  note e t = record t { events = t.events ++ e ∷ [] }

  -- `loseConnection`
  unfoldable pub lose_connection : Exception → Transport S → Transport S
  lose_connection e t = note (losing e) (record t { close_reason = some e })

  -- `connectionLost`
  unfoldable pub connection_lost : Transport S → Transport S
  connection_lost t = note lost (elim t.watchdog [
    | none ↦ t
    | some w ↦ note (cancelled (cancel w)) (record t { watchdog = none })
  ])

  module _ (peer : Peer S) where
    -- `preverify_status` in `_verifyPeer`
    abbrev pub preverify : S → Preverify
    preverify s = elim (peer.verify_peer s) [ ok _ ↦ passed | err e ↦ raised e ]

    -- `_verifyPeer`
    unfoldable pub check_peer : Exec (Transport S) (Unit {0})
    check_peer t =
        if peer.wants_verify
        then elim (peer.verify_callback (preverify t.session) t.session) [
          | ok _ ↦ (
            ok tt,
            if ltb 0 peer.verify_period
                then record t { watchdog = some (new_call peer.verify_period) }
                else t,
          )
          | err e ↦ (err e, t)
        ]
        else (ok tt, t)

    -- `_recurrentVerify`
    unfoldable pub recurrent_verify : Transport S → Answer × Transport S
    unfolding lose_connection
    recurrent_verify t =
        if not t.connected || t.disconnecting
        then (finished, t)
        else elim (peer.verify_callback passed t.session) [
          | ok _ ↦ (keep_running, t)
          | err e ↦ (finished, lose_connection e t)
        ]

    -- The handshake was interrupted.
    abbrev pub wait : Transport S → Transport S
    wait t = if peer.blocked_writing t.session then record t { writing = true } else t

    abbrev pub fail_client : Exception → Transport S → Transport S
    fail_client e t =
        let closed = record t { session = peer.close e t.session } in
        if is_subclass e.class gnutls_error
        then note (connect_failed e) closed
        else note (connect_error e) closed

    -- The second `try` statement of `TLSClient.doHandshake`, and what follows.
    unfoldable pub client_checked : Result (Unit {0}) → Transport S → Transport S
    unfolding is_subclass
    client_checked (ok _) t = note connect_done t
    client_checked (err e) t = fail_client e t

    -- What follows the handshake, by what it raised.
    unfoldable pub client_continue : Result (Unit {0}) → Exec (Transport S) Verdict
    unfolding is_subclass is_blocked client_checked
    client_continue (err e) t =
        if is_blocked e
        then (ok none, wait t)
        else if is_subclass e.class gnutls_error
        then (ok none, note (connect_failed e) (record t { handshaking = false }))
        else (err e, t)
    client_continue (ok _) t =
        let (checked, t') = check_peer (record t { handshaking = false; reading = false }) in
        (ok none, client_checked checked t')

    -- `TLSClient.doHandshake`
    unfoldable pub client_handshake : Exec (Transport S) Verdict
    unfolding client_continue
    client_handshake t =
        let (r, s) = peer.handshake t.session in
        client_continue r (record t { writing = false; session = s })

    -- `TLSClient.startTLS`, which `_connectDone` calls
    unfoldable pub start_tls : Exec (Transport S) Verdict
    unfolding client_handshake
    start_tls t = client_handshake (record t { handshaking = true; reading = true })

    -- The same of `TLSServer.doHandshake`.
    unfoldable pub server_checked : Result (Unit {0}) → Transport S → Transport S
    unfolding lose_connection
    server_checked (ok _) t = note connection_made t
    server_checked (err e) t = lose_connection e t

    unfoldable pub server_continue : Result (Unit {0}) → Exec (Transport S) Verdict
    unfolding is_subclass is_blocked server_checked
    server_continue (err e) t =
        if is_blocked e
        then (ok none, wait t)
        else if is_subclass e.class gnutls_error
        then (ok (some e), record t { handshaking = false })
        else (err e, t)
    server_continue (ok _) t =
        let (checked, t') = check_peer (record t { handshaking = false; reading = true }) in
        (ok none, server_checked checked t')

    -- `TLSServer.doHandshake`
    unfoldable pub server_handshake : Exec (Transport S) Verdict
    unfolding server_continue
    server_handshake t =
        let (r, s) = peer.handshake t.session in
        server_continue r (record t { writing = false; session = s })
