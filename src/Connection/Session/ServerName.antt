-- ===== src/Connection/Session/ServerName.antt =====
-- gnutls/connection.py, `ServerSession.server_name`: the first DNS name of the client's server name
-- extension.
pub mod FirstDns
use python3_gnutls.Prelude.{
  ℕ, zero, suc, ◌+◌, Bool, true, false, Option, none, some, Bytes, ◌==◌, if◌then◌else◌,
}
use python3_gnutls.Errors.{
  memory_error, requested_data_not_available, is_subclass, Exception, Result, ok, err,
}
use python3_gnutls.Status.{Reply, check_status}
use python3_gnutls.Buffer.{create_string_buffer, c_value}

-- What `gnutls_server_name_get` leaves: the buffer, its size and the type of the name.
pub record Named : Type 0 where
  pub reply : Reply
  pub buffer : Bytes
  pub size : ℕ
  pub hostname_type : ℕ

-- The call on one session, by the buffer, its size and the index.
abbrev pub GetName : Type 0
GetName = Bytes → ℕ → ℕ → Named

abbrev pub name_dns : ℕ
name_dns = 1

-- How a round ends: with the name, with the next index, or with the loop.
pub data Round : Type 0 where
  return : Bytes → Round
  next : Bytes → ℕ → Round
  stop : Round
  fail : Exception → Round

-- The lines behind the `try` statement.
abbrev pub examine : Named → Round
examine n = if n.hostname_type == name_dns then return (c_value n.buffer) else next n.buffer n.size

-- The `except MemoryError` branch: one byte more than the library asked for.
unfoldable pub name_again : GetName → ℕ → ℕ → Round
name_again get size i =
    let n = get (create_string_buffer (size + 1)) (size + 1) i in
    elim (check_status none n.reply) [ ok _ ↦ examine n | err e ↦ fail e ]

unfoldable pub name_round : GetName → Bytes → ℕ → ℕ → Round
unfolding is_subclass
name_round get buffer size i =
    let n = get buffer size i in
    elim (check_status none n.reply) [
      | ok _ ↦ examine n
      | err e ↦
          if is_subclass e.class requested_data_not_available
          then stop
          else if is_subclass e.class memory_error
          then name_again get n.size i
          else fail e
    ]

-- `for i in range(i, i + rounds)`
unfoldable pub scan_server_names : GetName → ℕ → Bytes → ℕ → ℕ → Result (Option Bytes)
scan_server_names get zero buffer size i = ok none
scan_server_names get (suc rounds) buffer size i = elim (name_round get buffer size i) [
  | return name ↦ ok (some name)
  | next buffer' size' ↦ scan_server_names get rounds buffer' size' (i + 1)
  | stop ↦ ok none
  | fail e ↦ err e
]

abbrev pub max_names : ℕ
max_names = 65536

-- `server_name`
unfoldable pub server_name : GetName → Result (Option Bytes)
server_name get = scan_server_names get max_names (create_string_buffer 256) 256 0
