-- ===== src/Crypto/Keys/Making/Usable.antt =====
-- What `generate` and `import_uri` return can be used.
use python3_gnutls.Prelude.{
  ◌==◌, if◌then◌else◌, Bytes, All, ℤ, pos, pos_part, ℕ, ◌≡◌, refl, ◌≢◌, ◌&&◌, Option, none, some,
}
use python3_gnutls.Errors.{Result, ok, err}
use python3_gnutls.Exec.{◌>>=◌, ◌>>◌, pure, lift, modify}
use python3_gnutls.Status.{returns, check_status}
use python3_gnutls.Crypto.Keys.{
  Key, Heap, start, absent, key, init_key, Step, made, deleted, keytype_of,
}
use python3_gnutls.Crypto.Keys.Ownership.{
  Distinct, IsSound, start-IsSound, init_key-IsSound, delete_key-IsSound,
}
use python3_gnutls.Crypto.Keys.Making.{
  KeyLibrary, KeyClass, private_key, rsa_private_key, dsa_private_key, update, copy_password,
  init_rsa, init_dsa, wrap_as, upcast, is_falsy, remember, generate, import_tpm, import_into,
  import_uri,
}
use python3_gnutls.Crypto.Keys.Making.Sound.{
  IsLive, Good, IsSound-update, IsLive-update, Good-bind, Good-lift, Good-if, init_key-Good,
}

-- The key that comes back is there.
abbrev pub Given : KeyClass × ℕ → Heap → Type 0
Given (c, k) h = IsLive k h

init_rsa-Good : (i : ℕ) (h : Heap) → IsSound h → Good Given (init_rsa i h)
unfolding init_rsa copy_password
init_rsa-Good i h s =
    Good-bind (init_key (returns (pos 0)) (key i) none 0)
      (λ j g. (ok (rsa_private_key, j), copy_password i j g)) h
      (init_key-Good (returns (pos 0)) (key i) none 0 h s)
      (λ j g sound live. record {
        sound = IsSound-update j _ g (λ x. (refl, refl, refl)) sound;
        returned = IsLive-update j _ g j (λ x. (refl, refl, refl)) live;
      })

init_dsa-Good : (i : ℕ) (h : Heap) → IsSound h → Good Given (init_dsa i h)
unfolding init_dsa
init_dsa-Good i h s =
    Good-bind (init_key (returns (pos 0)) (key i) none 0) (λ j. pure (dsa_private_key, j)) h
      (init_key-Good (returns (pos 0)) (key i) none 0 h s)
      (λ j g sound live. record { sound = sound; returned = live })

wrap_as-Good :
    (keytype i : ℕ) (h : Heap) → IsSound h → IsLive i h → Good Given (wrap_as keytype i h)
unfolding wrap_as
wrap_as-Good keytype i h s live = Good-if (keytype == 1) (init_rsa i) _ h (init_rsa-Good i h s) (
    Good-if (keytype == 2) (init_dsa i) (pure (private_key, i)) h (init_dsa-Good i h s)
      (record { sound = s; returned = live }))

upcast-Good : (algo i : ℕ) (h : Heap) → IsSound h → IsLive i h → Good Given (upcast algo i h)
unfolding upcast
upcast-Good algo i h s live =
    Good-lift (keytype_of algo)
      (λ keytype. modify (update i (λ x. record x { keytype = keytype })) >> wrap_as keytype i) h s
      (λ keytype.
        wrap_as-Good keytype i _ (IsSound-update i _ h (λ x. (refl, refl, refl)) s)
          (IsLive-update i _ h i (λ x. (refl, refl, refl)) live))

answered :
    {A : Type 0} (r : Result A) (i : ℕ) (h : Heap)
    → IsSound h
    → IsLive i h
    → Good (λ (_ : A) g. IsLive i g) (lift r h)
answered (ok a) i h s live = record { sound = s; returned = live }
answered (err e) i h s live = record { sound = s; returned = tt }

module _ (lib : KeyLibrary) where
  -- Whatever the library answers, `generate` leaves sound keys, and a key that it returns is there.
  generate-Good :
      (algo bits flags : ℕ) (h : Heap) → IsSound h → Good Given (generate lib algo bits flags h)
  unfolding generate
  generate-Good algo bits flags h s =
      Good-bind (init_key lib.init_reply absent none 0)
        (λ i. lift (check_status none (lib.generate_with i algo bits flags)) >> upcast algo i) h
        (init_key-Good lib.init_reply absent none 0 h s)
        (λ i g sound live.
          Good-lift (check_status none (lib.generate_with i algo bits flags)) (λ _. upcast algo i) g
            sound (λ _. upcast-Good algo i g sound live))

  -- The calls that read a key change nothing.
  import_tpm-Good :
      (i : ℕ) (uri : Bytes) (flags : ℕ) (srk password : Option Bytes) (h : Heap)
      → IsSound h
      → IsLive i h
      → Good (λ (_ : ℤ) g. IsLive i g) (import_tpm lib i uri flags srk password h)
  unfolding import_tpm
  import_tpm-Good i uri flags (some srk) (some password) h s live =
      answered (check_status none (lib.import_tpm_url i uri srk password flags)) i h s live
  import_tpm-Good i uri flags none password h s live = record { sound = s; returned = tt }
  import_tpm-Good i uri flags (some srk) none h s live = record { sound = s; returned = tt }

  import_into-Good :
      (i : ℕ) (uri : Bytes) (flags : ℕ) (srk password : Option Bytes) (h : Heap)
      → IsSound h
      → IsLive i h
      → Good Given (import_into lib i uri flags srk password h)
  unfolding import_into
  import_into-Good i uri flags srk password h s live =
      Good-bind
        (if is_falsy srk && is_falsy password
          then lift (check_status none (lib.import_url i uri flags))
          else import_tpm lib i uri flags srk password)
        (λ _. lift (check_status none (lib.pk_algorithm i)) >>= λ algo. upcast (pos_part algo) i) h
        (Good-if (is_falsy srk && is_falsy password)
          (lift (check_status none (lib.import_url i uri flags)))
          (import_tpm lib i uri flags srk password) h
          (answered (check_status none (lib.import_url i uri flags)) i h s live)
          (import_tpm-Good i uri flags srk password h s live))
        (λ _ g sound still_live.
          Good-lift (check_status none (lib.pk_algorithm i)) (λ algo. upcast (pos_part algo) i) g
            sound (λ algo. upcast-Good (pos_part algo) i g sound still_live))

  import_uri-Good :
      (uri : Bytes) (flags : ℕ) (srk password : Option Bytes) (h : Heap)
      → IsSound h
      → Good Given (import_uri lib uri flags srk password h)
  unfolding import_uri
  import_uri-Good uri flags srk password h s =
      Good-bind (init_key lib.init_reply absent none 0)
        (λ i.
          modify (update i (remember uri srk password)) >> import_into lib i uri flags srk password)
        h (init_key-Good lib.init_reply absent none 0 h s)
        (λ i g sound live.
          import_into-Good i uri flags srk password _
            (IsSound-update i _ g (λ x. (refl, refl, refl)) sound)
            (IsLive-update i _ g i (λ x. (refl, refl, refl)) live))

-- A key that came back, with a C object that is not released
abbrev pub IsUsable : ℕ → Heap → Type 0
IsUsable k h = (x : Key) × (h.live k ≡ some x) × All (λ f. x.handle ≢ f) h.freed

abbrev pub ReturnsUsable : Result (KeyClass × ℕ) → Heap → Type 0
ReturnsUsable (ok (c, k)) h = IsUsable k h
ReturnsUsable (err e) h = Unit

usable : (r : Result (KeyClass × ℕ)) (h : Heap) → Good Given (r, h) → ReturnsUsable r h
usable (ok (c, k)) h good = let (x, e) = good.returned in (x, e, good.sound.usable k x e)
usable (err e) h good = tt

-- What Python does with keys: it makes one, deletes one that no other key refers to, or asks for a
-- key that is generated or read.
pub data KeyStep (lib : KeyLibrary) (h : Heap) : Heap → Type 0 where
  plain : {g : Heap} → Step h g → KeyStep lib h g
  generated : (algo bits flags : ℕ) → KeyStep lib h (generate lib algo bits flags h).1
  imported :
      (uri : Bytes) (flags : ℕ) (srk password : Option Bytes)
      → KeyStep lib h (import_uri lib uri flags srk password h).1

pub data Runs (lib : KeyLibrary) (h : Heap) : Heap → Type 0 where
  begin : Runs lib h h
  next : {g i : Heap} → Runs lib h g → KeyStep lib g i → Runs lib h i

Runs-IsSound : (lib : KeyLibrary) {h : Heap} → Runs lib start h → IsSound h
Runs-IsSound lib begin = start-IsSound
Runs-IsSound lib (next {g} r (plain (made reply source uri keytype))) =
    init_key-IsSound g reply source uri keytype (Runs-IsSound lib r)
Runs-IsSound lib (next {g} r (plain (deleted i x e free))) =
    delete_key-IsSound g i x (Runs-IsSound lib r) e free
Runs-IsSound lib (next {g} r (generated algo bits flags)) =
    (generate-Good lib algo bits flags g (Runs-IsSound lib r)).sound
Runs-IsSound lib (next {g} r (imported uri flags srk password)) =
    (import_uri-Good lib uri flags srk password g (Runs-IsSound lib r)).sound

-- However keys are made, wrapped, generated, read, and deleted where no other key refers to them, and
-- whatever the library answers, no key that is left has a released C object, no object was released
-- twice, and a key that `generate` or `import_uri` returns next, which wraps
-- another one if it is an RSA or a DSA key, is there with an object that is not released.
pub Runs-usable :
    (lib : KeyLibrary) (h : Heap)
    → Runs lib start h
    → ((k : ℕ) (x : Key) → h.live k ≡ some x → All (λ f. x.handle ≢ f) h.freed)
      × Distinct h.freed
      × ((algo bits flags : ℕ) → let (r, g) = generate lib algo bits flags h in ReturnsUsable r g)
      × ((uri : Bytes) (flags : ℕ) (srk password : Option Bytes)
          → let (r, g) = import_uri lib uri flags srk password h in ReturnsUsable r g)
Runs-usable lib h r =
    let s = Runs-IsSound lib r in
    (
      s.usable,
      s.once,
      λ algo bits flags. usable _ _ (generate-Good lib algo bits flags h s),
      λ uri flags srk password. usable _ _ (import_uri-Good lib uri flags srk password h s),
    )
