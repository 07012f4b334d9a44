-- ===== src/Tests/Opening.antt =====
-- Contexts and the sessions that are opened from them.
use python3_gnutls.Prelude.{
  ◌==◌, if◌then◌else◌, Bytes, pos, negsuc, ◌≤ℤ◌, ℕ, ◌≡◌, refl, false, Option, none, some, List, [],
  ◌∷◌, ◌++◌, arith,
}
use python3_gnutls.Errors.{ok}
use python3_gnutls.Status.{Reply, returns, check_status}
use python3_gnutls.Connection.Context.{
  words, Context, cert_request, encode_parameters, store, set_parameters, init_context,
}
use python3_gnutls.Connection.Context.Validated.{
  IsAccepted, Made, constructed, assigned, Made-IsAccepted,
}
use python3_gnutls.Connection.Opening.{
  server, client, Call, priority_set_direct, Session, allocated, set_credential, init_client,
  init_server, accept_session,
}
use python3_gnutls.Connection.Opening.Credential.{Holds, as_client, changed, Used-Holds}
use python3_gnutls.Connection.Opening.Built.{
  Announces, common_calls, request_calls, name_calls, is_priority, IsWilling, open_lem,
}

-- A library that knows one priority string, the byte 78, and the default
abbrev one_priority : Option Bytes → Reply
one_priority none = returns (pos 0)
one_priority (some []) = returns (negsuc 49)
one_priority (some (b ∷ bs)) = if b == 78 then returns (pos 0) else returns (negsuc 49)

abbrev answering : List Call → Call → Reply
answering calls (priority_set_direct p) = one_priority p
answering calls _ = returns (pos 0)

abbrev made_context : Context
made_context = record {
  credentials = 7;
  session_parameters = some (78 ∷ []);
  certificate_request = some cert_request;
}

constructs : init_context one_priority 7 (words (78 ∷ [])) none ≡ ok made_context
unfolding init_context set_parameters encode_parameters store check_status
constructs = refl

-- Another string is assigned to the context, and refused.
abbrev later_context : Context
later_context = (set_parameters one_priority (words (79 ∷ [])) made_context).1

later-Made : Made one_priority later_context
later-Made = assigned (words (79 ∷ [])) (constructed 7 (words (78 ∷ [])) none constructs)

Made-IsAccepted_example : IsAccepted one_priority later_context.session_parameters
Made-IsAccepted_example = Made-IsAccepted one_priority later_context later-Made

accepts_others :
    (calls : List Call) (c : Call) → is_priority c ≡ false → pos 0 ≤ℤ (answering calls c).retcode
unfolding is_priority
accepts_others calls (priority_set_direct p) h = absurd (cc)
accepts_others calls _ h = omega arith

answering-IsWilling : IsWilling answering one_priority
answering-IsWilling = record {
  others = accepts_others;
  priority = λ calls p. refl;
  default = omega arith;
}

open_example :
    (p : Option Bytes) × Announces later_context.session_parameters p
    × ((s : Session) × (init_server answering 4 later_context allocated ≡ (ok tt, s))
        × (s.native
            ≡ common_calls server 4 p later_context.credentials
              ++ request_calls later_context.certificate_request)
        × (s.credentials ≡ some later_context.credentials)
        × (s.socket ≡ some 4)
        × (accept_session answering {A = ℕ} later_context (ok (4, 80)) ≡ ok (s, 80)))
    × (s : Session) × (init_client answering 4 later_context (some (97 ∷ [])) allocated
        ≡ (ok tt, s))
    × (s.native ≡ common_calls client 4 p later_context.credentials ++ name_calls (some (97 ∷ [])))
    × (s.credentials ≡ some later_context.credentials)
    × (s.server_name ≡ some (97 ∷ []))
open_example =
    open_lem answering one_priority 4 80 later_context (some (97 ∷ [])) answering-IsWilling
      later-Made

Used-Holds_example :
    Holds (set_credential answering 9 (init_client answering 4 made_context none allocated).1).1
Used-Holds_example =
    Used-Holds answering
      (set_credential answering 9 (init_client answering 4 made_context none allocated).1).1
      (changed 9 (as_client 4 made_context none))
