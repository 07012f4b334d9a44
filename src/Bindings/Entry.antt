-- ===== src/Bindings/Entry.antt =====
-- What gnutls/library/functions.py declares of one C function, and gnutls/library/types.py's result
-- types.
use python3_gnutls.Prelude.{String, Bool, true, false, Option, none, some, List}
use python3_gnutls.Text.{codes, str_eq}

-- A `restype`. The enumerations are named types, and `pointer t` is `POINTER(t)`.
pub data ResultType : Type 0 where
  c_int c_uint c_char_p c_void_p size_t ssize_t time_t transport_ptr nothing : ResultType
  enum pointer : String → ResultType

-- `name = libgnutls.symbol` with `argtypes`, `restype` and, where there is one, `errmsg`. `rebound`
-- is a name that is assigned again afterwards, to the ctypes class `c_uint`.
pub data Binding : Type 0 where
  function :
      (name symbol : String) (argtypes : List String) (restype : ResultType)
      (errmsg : Option String)
      → Binding
  rebound : (name : String) → Binding

abbrev pub name_of : Binding → String
name_of (function name symbol argtypes restype errmsg) = name
name_of (rebound name) = name

abbrev pub has_errmsg : Binding → Bool
has_errmsg (function name symbol argtypes restype (some m)) = true
has_errmsg (function name symbol argtypes restype none) = false
has_errmsg (rebound name) = false

-- The ctypes classes that the alias stands for: `obj.restype in (c_int, c_long)`
unfoldable pub is_integer : ResultType → Bool
is_integer c_int = true
is_integer (enum t) = true
is_integer time_t = true
is_integer ssize_t = true
is_integer _ = false

-- Whether the loop of gnutls/library/errors.py attaches `check_status`. A class that was rebound to
-- has no `restype` and is not in `__all__`.
unfoldable pub is_checked : Binding → Bool
unfolding is_integer
is_checked (function name symbol argtypes restype errmsg) = is_integer restype
is_checked (rebound name) = false

-- Whether the name stands for the C function of that name.
unfoldable pub is_own : Binding → Bool
is_own (function name symbol argtypes restype errmsg) = str_eq (codes name) (codes symbol)
is_own (rebound name) = false
