-- ===== src/Bindings/OpenpgpSetRecv.antt =====
-- gnutls/library/functions.py, from `gnutls_openpgp_set_recv_key_function` to `gnutls_openpgp_set_recv_key_function`.
use python3_gnutls.Prelude.{none, List, [], ◌∷◌}
use python3_gnutls.Bindings.Entry.{nothing, Binding, function}

abbrev pub from_openpgp_set_recv_key_function : List Binding
from_openpgp_set_recv_key_function =
    function "gnutls_openpgp_set_recv_key_function" "gnutls_openpgp_set_recv_key_function"
      ("gnutls_session_t" ∷ "gnutls_openpgp_recv_key_func" ∷ []) nothing none
    ∷ []
