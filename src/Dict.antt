-- ===== src/Dict.antt =====
-- A Python dict with text keys, in insertion order: `d[k] = v` on a key that is there keeps its
-- place.
use python3_gnutls.Prelude.{◌≡◌, refl, Option, none, some, List, [], ◌∷◌, Str, arith, if◌then◌else◌}
use python3_gnutls.Text.{str_eq}
use python3_gnutls.Text.Laws.{str_eq_iff}

abbrev pub Dict {ℓ} : Type ℓ → Type ℓ
Dict V = List (Str × V)

module _ {ℓ} {V : Type ℓ} where
  -- `d.get(k)`
  unfoldable pub lookup : Str → Dict V → Option V
  lookup k [] = none
  lookup k ((j, v) ∷ d) = if str_eq j k then some v else lookup k d

  -- `d[k] = v`
  unfoldable pub insert : Str → V → Dict V → Dict V
  insert k v [] = (k, v) ∷ []
  insert k v ((j, w) ∷ d) = if str_eq j k then (j, v) ∷ d else (j, w) ∷ insert k v d

  pub lookup-insert :
      (k j : Str) (v : V) (d : Dict V)
      → lookup j (insert k v d) ≡ (if str_eq k j then some v else lookup j d)
  unfolding lookup insert
  lookup-insert k j v [] = refl
  lookup-insert k j v ((i, w) ∷ d) =
      ground (arith, str_eq_iff k j, str_eq_iff i k, str_eq_iff i j, lookup-insert k j v d)
