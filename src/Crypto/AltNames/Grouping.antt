-- ===== src/Crypto/AltNames/Grouping.antt =====
-- The alternative names come out grouped by their type, in the certificate's order.
use python3_gnutls.Prelude.{
  ℕ, ◌+◌, ◌≤◌, ◌≡◌, List, [], ◌∷◌, ◌++◌, Bytes, pos, length, ◌==◌, if◌then◌else◌, Bool, true, false,
  ◌||◌,
}
use python3_gnutls.Constants.Code
use python3_gnutls.Buffer.{Fill, c_value, Delivers}
use python3_gnutls.Crypto.AltNames.{AlternativeNames, Names, append_name, Scan, next, Round}

-- A name of the certificate: its type and its value.
abbrev pub Entry : Type 0
Entry = ℕ × Bytes

-- The types whose names are text: DNS names, mail addresses and URIs
abbrev pub is_text : ℕ → Bool
is_text t = (t == 1) || (t == 2) || (t == 3)

-- What the library puts into the buffer: a text is ended by a zero byte, and other names, such as the
-- bytes of an address, stand there as they are.
unfoldable pub written : Entry → Bytes
written (t, v) = if is_text t then v ++ 0 ∷ [] else v

-- The library delivers that, and returns the type.
pub record Answers (e : Entry) (size : ℕ) (fill : Fill) : Type 0 where
  pub delivers : Delivers (written e) size fill
  pub name_type : (b : Bytes) (n : ℕ) → length (written e) ≤ n → (fill b n).reply.retcode ≡ pos e.0

-- The value that is recorded for a name: of a text what stands before its first zero byte, so all of
-- it where it has none; of another name what stands before the first zero byte of the name and of
-- some bytes that follow it in the buffer.
pub data ReadOne : Entry → Bytes → Type 0 where
  text : (t : ℕ) (v : Bytes) → is_text t ≡ true → ReadOne (t, v) (c_value v)
  binary : (t : ℕ) (v left : Bytes) → is_text t ≡ false → ReadOne (t, v) (c_value (v ++ left))

-- Each name is read so, in the certificate's order.
pub data ReadAs : List Entry → List Entry → Type 0 where
  none_left : ReadAs [] []
  one_more :
      (t : ℕ) (v w : Bytes) (es rs : List Entry)
      → ReadOne (t, v) w
      → ReadAs es rs
      → ReadAs ((t, v) ∷ es) ((t, w) ∷ rs)

-- The entries from index `i` on are answered, and after the last one nothing is available.
abbrev pub Serves : List Entry → ℕ → (ℕ → Fill) → Type 0
Serves [] i get =
    (b : Bytes) (n : ℕ) → (get i b n).reply.retcode ≡ Code.requested_data_not_available
Serves (e ∷ es) i get = ((size : ℕ) × Answers e size (get i)) × Serves es (i + 1) get

-- The values of one type, in order.
unfoldable pub of_type : ℕ → List Entry → List Bytes
of_type k [] = []
of_type k ((t, v) ∷ es) = let rest = of_type k es in if t == k then v ∷ rest else rest

-- A round that goes on, having recorded a value for the entry
abbrev Records : Entry → Names → Round → Type 0
Records e names r =
    (s : Scan) × (v : Bytes) × ReadOne e v × (r ≡ next s) × (s.names ≡ append_name e.0 v names)

all_names : List Entry → Names → Names
all_names [] ns = ns
all_names ((t, v) ∷ es) ns = all_names es (append_name t v ns)

-- The names of a certificate, each type's in order.
abbrev pub by_type : List Entry → AlternativeNames
by_type es = record {
  dns = of_type 1 es;
  email = of_type 2 es;
  uri = of_type 3 es;
  ip = of_type 4 es;
  other = of_type 5 es;
  dn = of_type 6 es;
}
