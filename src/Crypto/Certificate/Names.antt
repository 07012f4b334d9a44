-- ===== src/Crypto/Certificate/Names.antt =====
-- Names and exports of any length are read whole.
use python3_gnutls.Prelude.{ℕ, ◌≡◌, [], ◌∷◌, ◌++◌, Bytes, length, take-append_self}
use python3_gnutls.Errors.{ok, bind}
use python3_gnutls.Text.{Unicode, decode}
use python3_gnutls.Text.Laws.{Lacks}
use python3_gnutls.Buffer.{Fill, Delivers}
use python3_gnutls.Buffer.Laws.{fetch_lem, c_value-append_cut}
use python3_gnutls.Crypto.Name.{init_name}
use python3_gnutls.Crypto.Certificate.{read_name, read_blob, read_text_blob}

-- A name of any length without a zero byte, which the library ends with one, is read whole.
pub read_name_lem :
    (u : Unicode) (fill : Fill) (dn : Bytes) (size : ℕ)
    → Delivers (dn ++ 0 ∷ []) size fill
    → Lacks 0 dn
    → read_name u fill ≡ bind (decode u dn) init_name
unfolding read_name
read_name_lem u fill dn size d h =
    let (f, rest, e, _, full) = fetch_lem 256 fill (dn ++ 0 ∷ []) size d in
    rw (e, full, c_value-append_cut dn [] rest h)

-- An export of any length and content, zero bytes included, is returned whole.
pub read_blob_lem :
    (fill : Fill) (blob : Bytes) → Delivers blob (length blob) fill → read_blob fill ≡ ok blob
unfolding read_blob
read_blob_lem fill blob d =
    let (f, rest, e, s, full) = fetch_lem 4096 fill blob (length blob) d in
    rw (e, s, full, take-append_self blob rest)

-- `Pkcs7.export` returns only what stands before the first zero byte of the export.
pub read_text_blob-cut :
    (fill : Fill) (front back : Bytes)
    → Lacks 0 front
    → Delivers (front ++ 0 ∷ back) (length (front ++ 0 ∷ back)) fill
    → read_text_blob fill ≡ ok front
unfolding read_text_blob
read_text_blob-cut fill front back h d =
    let (f, rest, e, s, full) = fetch_lem 4096 fill (front ++ 0 ∷ back) _ d in
    rw (e, full, c_value-append_cut front back rest h)
