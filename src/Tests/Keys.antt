-- ===== src/Tests/Keys.antt =====
-- gnutls/crypto.py, a private key that is made and deleted.
use python3_gnutls.Prelude.{Bytes, All, pos, ℕ, ◌≡◌, refl, ◌≢◌, Option, none, some, arith}
use python3_gnutls.Errors.{ok}
use python3_gnutls.Status.{returns, check_status}
use python3_gnutls.Crypto.Keys.{
  Key, Heap, start, absent, borrowed, owned, init_key, delete_key, made, deleted, pk_rsa,
  keytype_of,
}
use python3_gnutls.Crypto.Keys.Ownership.{Distinct}
use python3_gnutls.Crypto.Keys.Making.{KeyLibrary, rsa_private_key, generate, import_uri}
use python3_gnutls.Crypto.Keys.Making.Usable.{
  ReturnsUsable, plain, generated, begin, next, Runs-usable,
}
use python3_gnutls.Crypto.Keys.Making.Generated.{maker, generate-rsa}

abbrev made_once : Heap
made_once = (init_key (returns (pos 0)) absent none 0 start).1

abbrev first_key : Key
first_key = owned 0 none 0

first_live : made_once.live 0 ≡ some first_key
unfolding init_key check_status
first_live = refl

no_borrower : (k : ℕ) (y : Key) → made_once.live k ≡ some y → y.pk ≢ some 0
unfolding init_key check_status
no_borrower k y e h = ground arith

abbrev willing_library : KeyLibrary
willing_library = record {
  init_reply = returns (pos 0);
  generate_with = λ i algo bits flags. returns (pos 0);
  import_url = λ i uri flags. returns (pos 0);
  import_tpm_url = λ i uri srk password flags. returns (pos 0);
  pk_algorithm = λ i. returns (pos 1);
}

-- A key is made and deleted, and another one is generated.
abbrev later : Heap
later = (generate willing_library pk_rsa 2048 0 (delete_key 0 first_key made_once)).1

Runs-usable_example :
    ((k : ℕ) (x : Key) → later.live k ≡ some x → All (λ f. x.handle ≢ f) later.freed)
    × Distinct later.freed
    × ((algo bits flags : ℕ)
        → let (r, g) = generate willing_library algo bits flags later in ReturnsUsable r g)
    × ((uri : Bytes) (flags : ℕ) (srk password : Option Bytes)
        → let (r, g) = import_uri willing_library uri flags srk password later in ReturnsUsable r g)
Runs-usable_example = Runs-usable willing_library later (
    next
      (next (next begin (plain (made (returns (pos 0)) absent none 0)))
        (plain (deleted 0 first_key first_live no_borrower)))
      (generated pk_rsa 2048 0))

rsa_known : keytype_of pk_rsa ≡ ok 1
unfolding keytype_of
rsa_known = refl

generate-rsa_example :
    let (r, g) = generate willing_library pk_rsa 2048 0 start in
    (r ≡ ok (rsa_private_key, 1))
    × (g.live 0 ≡ some (maker 0 1))
    × (g.live 1 ≡ some (borrowed 0 (maker 0 1) 0))
generate-rsa_example =
    generate-rsa willing_library pk_rsa 2048 0 start rsa_known (omega arith) (omega arith)
