-- ===== src/Constants/Entry.antt =====
-- What gnutls/library/constants.py assigns.
use python3_gnutls.Prelude.{ℤ, String}

-- A name with its number, or with a text such as an object identifier.
pub data Constant : Type 0 where
  number : String → ℤ → Constant
  words : String → String → Constant
