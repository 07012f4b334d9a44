-- ===== src/Connection/Session/ServerName/FirstDns.antt =====
-- `server_name` finds the first DNS name, of any length and behind any others.
use python3_gnutls.Prelude.{
  ℕ, suc, ◌+◌, ◌<◌, ◌≤◌, ◌≡◌, false, Option, none, some, List, [], ◌∷◌, ◌++◌, Bytes, pos, ◌≤ℤ◌,
  length, drop, ◌==◌, if◌then◌else◌,
}
use python3_gnutls.Constants.Code
use python3_gnutls.Connection.Session.ServerName.{Named, GetName, name_dns, Round, return, next}

-- A name of the extension: its type and its bytes.
abbrev pub Entry : Type 0
Entry = ℕ × Bytes

-- The library's answer at one index: it wants more room than the name has bytes, for the zero byte
-- that it adds to a DNS name, and asks for the length of the name.
pub record Tells (e : Entry) (get : Bytes → ℕ → Named) : Type 0 where
  pub short :
      (b : Bytes) (n : ℕ)
      → n ≤ length e.1
      → ((get b n).reply.retcode ≡ Code.short_memory_buffer) × ((get b n).size ≡ length e.1)
  pub fits :
      (b : Bytes) (n : ℕ)
      → length e.1 < n
      → (pos 0 ≤ℤ (get b n).reply.retcode) × ((get b n).hostname_type ≡ e.0)
  pub dns :
      (b : Bytes) (n : ℕ)
      → length e.1 < n
      → e.0 ≡ name_dns
      → (get b n).buffer ≡ e.1 ++ 0 ∷ drop (suc (length e.1)) b

-- The entries from index `i` on, and nothing after them.
abbrev pub Serves : List Entry → ℕ → GetName → Type 0
Serves [] i get =
    (b : Bytes) (n : ℕ) → (get b n i).reply.retcode ≡ Code.requested_data_not_available
Serves (e ∷ es) i get = Tells e (λ b n. get b n i) × Serves es (i + 1) get

-- The first name of type DNS.
unfoldable pub first_dns : List Entry → Option Bytes
first_dns [] = none
first_dns ((t, v) ∷ es) = if t == name_dns then some v else first_dns es

-- What a round over an entry ends with, whatever buffer it began with.
pub data Examined (e : Entry) : Round → Type 0 where
  hit : e.0 ≡ name_dns → Examined e (return e.1)
  miss : (b : Bytes) (n : ℕ) → (e.0 == name_dns) ≡ false → Examined e (next b n)
