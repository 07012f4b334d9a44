-- ===== src/Crypto/AltNames.antt =====
-- gnutls/crypto.py, `AlternativeNames` and the loop of `X509Certificate.alternative_names`.
pub mod Grouping
use python3_gnutls.Prelude.{
  ℕ, zero, suc, ◌+◌, ◌^◌, Bool, true, false, Option, none, some, List, [], ◌∷◌, ◌++◌, Bytes, ℤ, pos,
  negsuc, pos_part, ◌==◌, if◌then◌else◌,
}
use python3_gnutls.Errors.{
  memory_error, requested_data_not_available, is_subclass, Exception, Result, ok, err, bind,
}
use python3_gnutls.Exec.{Exec}
use python3_gnutls.Status.{check_status}
use python3_gnutls.Buffer.{Filled, Fill, create_string_buffer, c_value}

pub record AlternativeNames : Type 0 where
  pub dns : List Bytes
  pub email : List Bytes
  pub uri : List Bytes
  pub ip : List Bytes
  pub other : List Bytes
  pub dn : List Bytes

-- The dictionary `names`, from the type of a name to the names of that type.
abbrev pub Names : Type 0
Names = List (ℕ × List Bytes)

-- `names.get(key, ())`
unfoldable pub names_of : ℕ → Names → List Bytes
names_of key [] = []
names_of key ((k, vs) ∷ ns) = if k == key then vs else names_of key ns

-- `names.setdefault(key, []).append(value)`
unfoldable pub append_name : ℕ → Bytes → Names → Names
append_name key value [] = (key, value ∷ []) ∷ []
append_name key value ((k, vs) ∷ ns) =
    if k == key then (k, vs ++ value ∷ []) ∷ ns else (k, vs) ∷ append_name key value ns

-- The keys of `AlternativeNames.__slots__`, GNUTLS_SAN_*.
abbrev pub san_dnsname : ℕ
san_dnsname = 1

abbrev pub san_rfc822name : ℕ
san_rfc822name = 2

abbrev pub san_uri : ℕ
san_uri = 3

abbrev pub san_ipaddress : ℕ
san_ipaddress = 4

abbrev pub san_othername : ℕ
san_othername = 5

abbrev pub san_dn : ℕ
san_dn = 6

-- `AlternativeNames.__init__`
unfoldable pub init_alternative_names : Names → AlternativeNames
unfolding names_of
init_alternative_names names = record {
  dns = names_of san_dnsname names;
  email = names_of san_rfc822name names;
  uri = names_of san_uri names;
  ip = names_of san_ipaddress names;
  other = names_of san_othername names;
  dn = names_of san_dn names;
}

-- The variables of the loop; a name's type is the status of the call, which is not negative.
pub record Scan : Type 0 where
  pub size : ℕ
  pub buffer : Bytes
  pub names : Names

abbrev pub record_name : ℤ → Filled → Names → Scan
record_name name_type f names = record {
  size = f.size;
  buffer = f.buffer;
  names = append_name (pos_part name_type) (c_value f.buffer) names;
}

-- How one round ends.
pub data Round : Type 0 where
  next : Scan → Round
  stop : Round
  fail : Exception → Round

-- The call in the `except MemoryError` branch; nothing there handles its exceptions.
unfoldable pub scan_again : Fill → ℕ → Names → Round
scan_again fill size names =
    let f = fill (create_string_buffer size) size in
    elim (check_status none f.reply) [
      | ok name_type ↦ next (record_name name_type f names)
      | err e ↦ fail e
    ]

unfoldable pub scan_round : Fill → Scan → Round
unfolding is_subclass
scan_round fill s =
    let f = fill s.buffer s.size in
    elim (check_status none f.reply) [
      | ok name_type ↦ next (record_name name_type f s.names)
      | err e ↦
          if is_subclass e.class requested_data_not_available
          then stop
          else if is_subclass e.class memory_error
          then scan_again fill f.size s.names
          else fail e
    ]

-- `for i in range(i, i + rounds)`
unfoldable pub scan_names : (ℕ → Fill) → ℕ → ℕ → Scan → Result Names
scan_names get zero i s = ok s.names
scan_names get (suc rounds) i s = elim (scan_round (get i) s) [
  | next s' ↦ scan_names get rounds (i + 1) s'
  | stop ↦ ok s.names
  | fail e ↦ err e
]

abbrev pub first_scan : Scan
first_scan = record { size = 256; buffer = create_string_buffer 256; names = [] }

-- `alternative_names` on a certificate that has not cached them, the number of rounds left open.
unfoldable pub read_alternative_names : ℕ → (ℕ → Fill) → Result AlternativeNames
unfolding scan_names scan_round scan_again init_alternative_names
read_alternative_names rounds get =
    bind (scan_names get rounds 0 first_scan) λ names. ok (init_alternative_names names)

abbrev pub max_names : ℕ
max_names = 65536

-- `X509Certificate.alternative_names`, with the attribute `_alternative_names` as the state.
unfoldable pub alternative_names : (ℕ → Fill) → Exec (Option AlternativeNames) AlternativeNames
alternative_names get (some names) = (ok names, some names)
alternative_names get none = elim (read_alternative_names max_names get) [
  | ok names ↦ (ok names, some names)
  | err e ↦ (err e, none)
]
