-- ===== src/Constants/Table.antt =====
-- gnutls/library/constants.py, the whole of it, and what its numbers are good for.
pub mod Bounds
use python3_gnutls.Prelude.{List, ◌++◌}
use python3_gnutls.Constants.Entry.{Constant}
use python3_gnutls.Constants.Algorithms.{algorithms}
use python3_gnutls.Constants.ErrorCodes.{error_codes}
use python3_gnutls.Constants.Handshakes.{handshakes}
use python3_gnutls.Constants.Parameters.{parameters}

abbrev pub constants : List Constant
constants = algorithms ++ error_codes ++ handshakes ++ parameters
