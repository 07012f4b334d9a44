-- ===== src/Tests/Loader.antt =====
-- gnutls/library/__init__.py on a system with one library.
use python3_gnutls.Prelude.{
  ◌==◌, if◌then◌else◌, Str, ℕ, ◌≡◌, refl, true, false, Option, none, some, [], ◌∷◌, ◌++◌,
}
use python3_gnutls.Errors.{os_error, is_subclass, text, new, Result, ok, err}
use python3_gnutls.Text.{codes, str_eq, starts_with}
use python3_gnutls.Loading.{
  system_name, places, split_colons, keep, flat_map, Environment, library_locations, candidates,
  load_first, load_library, Started, check_library, start,
}

abbrev linux : Environment
linux = record {
  system = codes "linux";
  variable = λ name. [];
  is_dir = λ path. false;
  join = λ path name. path ++ b'/' ∷ name;
  decimal = λ n. if n == 30 then codes "30" else codes "28";
}

-- Only the one library can be loaded.
abbrev only : Str → Result ℕ
only library =
    if str_eq library (codes "/usr/local/lib/libgnutls.so.28")
    then ok 7
    else err (new os_error (text "cannot open shared object file"))

-- Version 3.2.1
abbrev old_version : ℕ → Option Str → Option Str
old_version library none = some (codes "3.2.1")
old_version library (some wanted) =
    if str_eq wanted (codes "3.3") then none else some (codes "3.2.1")

abbrev started_old : Started
started_old = record { library = 7; global_init_called = true }

-- The equation on the left does hold.
only_starts : start linux only old_version (λ v. []) ≡ ok started_old
unfolding start check_library load_library candidates library_locations load_first str_eq flat_map
    keep split_colons places system_name starts_with is_subclass
only_starts = refl
