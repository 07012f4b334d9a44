-- ===== src/Loading.antt =====
-- gnutls/library/__init__.py: where libgnutls is looked for, and which one is loaded.
pub mod First
pub mod Starting
use python3_gnutls.Prelude.{
  ◌==◌, if◌then◌else◌, Str, ℕ, Bool, true, false, Option, none, some, List, [], ◌∷◌, ◌++◌, map,
}
use python3_gnutls.Errors.{
  runtime_error, os_error, is_subclass, text, format, new, Result, ok, err, bind,
}
use python3_gnutls.Text.{codes, str_eq, starts_with}

-- `system.lower()` in `_get_system_name`, and what follows
unfoldable pub system_name : Str → Str
unfolding starts_with
system_name system = if starts_with system (codes "cygwin") then codes "cygwin" else system

-- What the branches of `_library_locations` set.
pub record Places : Type 0 where
  pub library_names : List Str
  pub dynamic_loader_env_vars : List Str
  pub additional_paths : List Str

-- The library names, with the version in decimal.
unfoldable pub places : Str → Str → Places
unfolding str_eq
places system abi =
    if str_eq system (codes "darwin")
    then record {
      library_names = (codes "libgnutls." ++ abi ++ codes ".dylib") ∷ [];
      dynamic_loader_env_vars = codes "DYLD_LIBRARY_PATH" ∷ codes "LD_LIBRARY_PATH" ∷ [];
      additional_paths = codes "/usr/local/lib" ∷ codes "/opt/local/lib" ∷ codes "/sw/lib" ∷ [];
    }
    else if str_eq system (codes "windows")
    then record {
      library_names = (codes "libgnutls-" ++ abi ++ codes ".dll") ∷ [];
      dynamic_loader_env_vars = codes "PATH" ∷ [];
      additional_paths = codes "." ∷ [];
    }
    else if str_eq system (codes "cygwin")
    then record {
      library_names = (codes "cyggnutls-" ++ abi ++ codes ".dll") ∷ [];
      dynamic_loader_env_vars = codes "LD_LIBRARY_PATH" ∷ [];
      additional_paths = codes "/usr/bin" ∷ [];
    }
    else record {
      library_names = (codes "libgnutls.so." ++ abi) ∷ (codes "libgnutls-deb0.so." ++ abi) ∷ [];
      dynamic_loader_env_vars = codes "LD_LIBRARY_PATH" ∷ [];
      additional_paths = codes "/usr/local/lib" ∷ [];
    }

abbrev add_front : ℕ → List Str → List Str
add_front c [] = (c ∷ []) ∷ []
add_front c (part ∷ parts) = (c ∷ part) ∷ parts

-- `s.split(":")`
unfoldable pub split_colons : Str → List Str
split_colons [] = [] ∷ []
split_colons (c ∷ s) =
    let rest = split_colons s in if c == b':' then [] ∷ rest else add_front c rest

unfoldable pub keep : (Str → Bool) → List Str → List Str
keep test [] = []
keep test (s ∷ ss) = let rest = keep test ss in if test s then s ∷ rest else rest

unfoldable pub flat_map : {A : Type 0} → (A → List Str) → List A → List Str
flat_map f [] = []
flat_map f (x ∷ xs) = f x ++ flat_map f xs

-- Python's environment: `os.environ.get(name, "")`, `os.path.isdir`, `os.path.join`, and `%d`.
pub record Environment : Type 0 where
  pub system : Str
  pub variable : Str → Str
  pub is_dir : Str → Bool
  pub join : Str → Str → Str
  pub decimal : ℕ → Str

module _ (env : Environment) where
  -- `_library_locations`
  unfoldable pub library_locations : ℕ → List Str
  unfolding split_colons keep flat_map system_name
  library_locations abi =
      let p = places (system_name env.system) (env.decimal abi) in
      flat_map
        (λ name.
          map (λ path. env.join path name)
            (flat_map (λ v. keep env.is_dir (split_colons (env.variable v)))
              p.dynamic_loader_env_vars)
          ++ (name ∷ map (λ path. env.join path name) p.additional_paths))
        p.library_names

  -- `sorted(abi_versions, reverse=True)` of the two versions, and the locations of each.
  unfoldable pub candidates : List Str
  unfolding flat_map
  candidates = flat_map library_locations (30 ∷ 28 ∷ [])

-- The loop of `_load_library`; `load` is `CDLL`.
unfoldable pub load_first : (Str → Result ℕ) → List Str → Result ℕ
unfolding is_subclass
load_first load [] =
    err (new runtime_error (text "cannot find a supported version of libgnutls on this system"))
load_first load (library ∷ rest) = elim (load library) [
  | ok handle ↦ ok handle
  | err e ↦ if is_subclass e.class os_error then load_first load rest else err e
]

-- `_load_library`
unfoldable pub load_library : Environment → (Str → Result ℕ) → Result ℕ
load_library env load = load_first load (candidates env)

-- The package, with the library that it stands on.
pub record Started : Type 0 where
  pub library : ℕ
  pub global_init_called : Bool

-- `__need_version__`
abbrev pub need_version : Str
need_version = codes "3.2.0"

abbrev pub is_none : Option Str → Bool
is_none none = true
is_none (some version) = false

-- What follows the loading. `check_version` is `gnutls_check_version` of the library that was loaded:
-- its version, or `NULL` where it is older than the one asked for; `shown` is how `%s` shows that.
unfoldable pub check_library :
    (ℕ → Option Str → Option Str) → (Option Str → Str) → ℕ → Result Started
check_library check_version shown library =
    if is_none (check_version library (some need_version))
    then err (
        new runtime_error (
          format "Found GNUTLS library version %s, but at least version 3.2.0 is required"
            (shown (check_version library none))))
    else ok (record {
      library = library;
      global_init_called = is_none (check_version library (some (codes "3.3")));
    })

-- The import of gnutls.library
unfoldable pub start :
    Environment
    → (Str → Result ℕ)
    → (ℕ → Option Str → Option Str)
    → (Option Str → Str)
    → Result Started
unfolding load_library check_library
start env load check_version shown =
    bind (load_library env load) (check_library check_version shown)
