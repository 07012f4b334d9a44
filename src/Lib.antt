-- ===== src/Lib.antt =====
-- python3-gnutls: Python objects over libgnutls.
--
-- The package wraps the C library libgnutls with ctypes. gnutls/library loads it and attaches a status
-- check to its functions; gnutls/crypto.py reads certificates, keys and revocation lists;
-- gnutls/connection.py keeps credentials and runs TLS sessions.
--
-- Errors: gnutls/errors.py, the exception classes and `Result`, what a Python function ends with.
-- Constants: gnutls/library/constants.py as a table, a module for each stretch of the file, and by name
--   the numbers that the modelled code uses; Constants.Named is gnutls/constants.py.
-- Status: gnutls/library/errors.py, `ErrorHandler.check_status`, which every call goes through. What C
--   returns is a `Reply`; the exceptions keep the code in place of the text of `gnutls_strerror`.
-- Text, Dict, Exec: the Python strings, dictionaries, and code that mutates an object and may raise.
--   Texts are lists of code points. What Python's Unicode tables say above ASCII is a parameter.
-- Buffer: the ctypes buffers that grow where the library finds them too short. The library function is
--   a parameter, and `Delivers` is its documented behaviour.
-- Loading: gnutls/library/__init__.py, which library is loaded, and whether it is new enough. The
--   environment, the loader of the system and the versions are parameters.
-- Bindings: gnutls/library/functions.py as a table, a module for each stretch of the file, with the
--   result types of gnutls/library/types.py and the loop at the end of gnutls/library/errors.py that
--   attaches the status check. Which optional groups the library has is a parameter.
-- Crypto: gnutls/crypto.py. Crypto.Name is `X509Name`, Crypto.AltNames the alternative names,
--   Crypto.Certificate the properties and methods of `X509Certificate`, Crypto.Crl those of `X509CRL`.
--   Crypto.Keys is the ownership of the C objects that private keys share, and Crypto.Keys.Making the
--   keys that `generate` and `import_uri` return. Crypto.Datum is `gnutls_datum_t` of
--   gnutls/library/types.py, Crypto.Signing what keys sign and encrypt with it,
--   Crypto.Raw the public keys that are made of addresses, raw parameters and private keys,
--   Crypto.Pkcs7 the verification with `Pkcs7`, and Crypto.Aead `AEADCipher`.
--   An object is the number of its `_c_object`, and the functions that read it are parameters.
-- Connection: gnutls/connection.py. Connection.ServerNames is `_ServerNameIdentities`,
--   Connection.Credentials is `X509Credentials` beside the log of the calls that its C counterpart
--   accepted, Connection.Context `TLSContext`, Connection.Opening the constructors of the sessions over
--   the log of the calls that the C session accepted, Connection.Session the methods of the sessions
--   over a state that the library changes.
-- Validators: gnutls/validators.py, the validators over classes and values, their names, and the
--   decorators; Validators.Preserved is `preserve_signature`. What `==`, `repr` and `str` do, and what
--   Python compiles of the signature that is printed, are parameters.
-- Twisted: gnutls/interfaces/twisted/__init__.py. Twisted.Recurrent is `RecurrentCall`, Twisted.Mixin
--   is `TLSMixin`, Twisted.Transport the handshake, the verification and the watchdog of `TLSClient` and
--   `TLSServer`. What the session does and what Twisted's own classes do are parameters; what the
--   transport asks of Twisted is a list of events.
--
-- Loops over the library's indices have the source's number of rounds, 65536. The sending loop has one
-- round for each byte, which is enough since every round sends one at least. A serial number, a name or
-- an export may have any length. The calls that repeat themselves while they are interrupted run on
-- fuel, which is enough where the interruptions are fewer. Numbers of bytes and times are unbounded
-- here, as they are in Python.
--
-- Not modelled: the single calls of the library around one C object, which are the imports of
-- certificates and keys, the signing with `Pkcs7`, the trust lists and the Diffie-Hellman parameters of
-- gnutls/crypto.py; `Cipher.encrypt` and `Cipher.decrypt`, which always raise; the methods of `ServerSessionFactory` but for
-- `accept`, the sockets, Twisted's own classes, the layouts of the other ctypes structures, and the
-- examples.
pub mod Prelude
pub mod Errors
pub mod Constants
pub mod Status
pub mod Text
pub mod Dict
pub mod Exec
pub mod Buffer
pub mod Bindings
pub mod Loading
pub mod Crypto
pub mod Connection
pub mod Twisted
pub mod Validators
pub mod Tests
