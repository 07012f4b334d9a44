-- ===== src/Bindings/AeadCipherDecrypt.antt =====
-- gnutls/library/functions.py, from `gnutls_aead_cipher_decrypt` to `gnutls_aead_cipher_encrypt`.
use python3_gnutls.Prelude.{none, List, [], ◌∷◌}
use python3_gnutls.Bindings.Entry.{c_int, Binding, function}

abbrev pub from_aead_cipher_decrypt : List Binding
from_aead_cipher_decrypt =
    function "gnutls_aead_cipher_decrypt" "gnutls_aead_cipher_decrypt"
      ("gnutls_aead_cipher_hd_t" ∷ "c_void_p" ∷ "size_t" ∷ "c_void_p" ∷ "size_t" ∷ "size_t"
        ∷ "c_void_p" ∷ "size_t" ∷ "c_void_p" ∷ "POINTER(size_t)" ∷ [])
      c_int none
    ∷ function "gnutls_aead_cipher_encrypt" "gnutls_aead_cipher_encrypt"
        ("gnutls_aead_cipher_hd_t" ∷ "c_void_p" ∷ "size_t" ∷ "c_void_p" ∷ "size_t" ∷ "size_t"
          ∷ "c_void_p" ∷ "size_t" ∷ "c_void_p" ∷ "POINTER(size_t)" ∷ [])
        c_int none
    ∷ []
