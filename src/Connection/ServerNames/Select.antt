-- ===== src/Connection/ServerNames/Select.antt =====
-- Which identity `get` selects: the exact name first, then the first wildcard that covers it.
use python3_gnutls.Prelude.{
  ◌≡◌, refl, subst, sym, ap, ◌∙◌, ◌↔◌, inl, inr, false, Option, none, some, [], ◌∷◌, ◌++◌, Str,
  Bytes, All, Bool-cases, Option-cases,
}
use python3_gnutls.Errors.{ok}
use python3_gnutls.Text.{Unicode, lower, decode}
use python3_gnutls.Dict.{lookup}
use python3_gnutls.Connection.ServerNames.{Identity, Identities, covers, first_cover, find, get}
use python3_gnutls.Connection.ServerNames.Wildcard.{Covers, covers_iff}

-- No key covers the name.
abbrev pub NoneCovers : Str → Identities → Type 0
NoneCovers s = All (λ e. ¬ (Covers e.0 s))

-- The outcome for a name in lower case.
pub data Selects (s : Str) (ids : Identities) : Option Identity → Type 0 where
  exact : (i : Identity) → lookup s ids ≡ some i → Selects s ids (some i)
  wildcard :
      (before after : Identities) (k : Str) (i : Identity)
      → lookup s ids ≡ none
      → ids ≡ before ++ (k, i) ∷ after
      → NoneCovers s before
      → Covers k s
      → Selects s ids (some i)
  nothing : lookup s ids ≡ none → NoneCovers s ids → Selects s ids none

covers-false : (k s : Str) → ¬ (Covers k s) → covers k s ≡ false
covers-false k s h = elim (Bool-cases (covers k s)) [
  | inl e ↦ absurd (h ((covers_iff k s).0 e))
  | inr e ↦ e
]

not-Covers : (k s : Str) → covers k s ≡ false → ¬ (Covers k s)
not-Covers k s h c = cc ((covers_iff k s).1 c)

pub data Scanned (s : Str) (ids : Identities) : Option Identity → Type 0 where
  hit :
      (before after : Identities) (k : Str) (i : Identity)
      → ids ≡ before ++ (k, i) ∷ after
      → NoneCovers s before
      → Covers k s
      → Scanned s ids (some i)
  miss : NoneCovers s ids → Scanned s ids none

Scanned-cons :
    (s k : Str) (i : Identity) (ids : Identities) {o : Option Identity}
    → ¬ (Covers k s)
    → Scanned s ids o
    → Scanned s ((k, i) ∷ ids) o
Scanned-cons s k i ids apart (hit before after k' i' e none_covers c) =
    hit ((k, i) ∷ before) after k' i' (ap (λ l. (k, i) ∷ l) e) (apart, none_covers) c
Scanned-cons s k i ids apart (miss h) = miss (apart, h)

first_cover_lem : (s : Str) (ids : Identities) → Scanned s ids (first_cover s ids)
unfolding first_cover
first_cover_lem s [] = miss tt
first_cover_lem s ((k, i) ∷ ids) = elim (Bool-cases (covers k s)) [
  | inl e ↦ rw e (hit [] ids k i refl tt ((covers_iff k s).0 e))
  | inr e ↦ rw e (Scanned-cons s k i ids (not-Covers k s e) (first_cover_lem s ids))
]

first_cover-hit :
    (s k : Str) (i : Identity) (before after : Identities)
    → NoneCovers s before
    → Covers k s
    → first_cover s (before ++ (k, i) ∷ after) ≡ some i
unfolding first_cover
first_cover-hit s k i [] after h c = rw ((covers_iff k s).1 c)
first_cover-hit s k i (e ∷ before) after h c =
    rw (covers-false e.0 s h.0) (first_cover-hit s k i before after h.1 c)

first_cover-miss : (s : Str) (ids : Identities) → NoneCovers s ids → first_cover s ids ≡ none
unfolding first_cover
first_cover-miss s [] h = refl
first_cover-miss s (e ∷ ids) h = rw (covers-false e.0 s h.0) (first_cover-miss s ids h.1)

Selects-Scanned :
    (s : Str) (ids : Identities) {o : Option Identity}
    → lookup s ids ≡ none
    → Scanned s ids o
    → Selects s ids o
Selects-Scanned s ids absent (hit before after k i e h c) = wildcard before after k i absent e h c
Selects-Scanned s ids absent (miss h) = nothing absent h

find-Selects : (s : Str) (ids : Identities) → Selects s ids (find s ids)
unfolding find
find-Selects s ids = elim (Option-cases (lookup s ids)) [
  | inl absent ↦ rw absent (Selects-Scanned s ids absent (first_cover_lem s ids))
  | inr (i, present) ↦ rw present (exact i present)
]

Selects-eq : (s : Str) (ids : Identities) {o : Option Identity} → Selects s ids o → find s ids ≡ o
unfolding find
Selects-eq s ids (exact i present) = rw present
Selects-eq s ids (wildcard before after k i absent e h c) =
    rw absent (ap (first_cover s) e ∙ first_cover-hit s k i before after h c)
Selects-eq s ids (nothing absent h) = rw absent (first_cover-miss s ids h)

get-find :
    (u : Unicode) (server_name : Bytes) (name : Str) (ids : Identities)
    → decode u server_name ≡ ok name
    → get u server_name ids ≡ ok (find (lower u name) ids)
unfolding get
get-find u server_name name ids d = rw (d, get)

ok-eq : {a b : Option Identity} → ok a ≡ ok b → a ≡ b
ok-eq h = cc

-- For a server name that decodes, `get` returns exactly what the rule selects for its lower-case
-- form: the identity under that name itself, else that of the first key, in the order of insertion,
-- whose star stands for one label of the name, else nothing.
pub get_iff :
    (u : Unicode) (server_name : Bytes) (name : Str) (ids : Identities) (o : Option Identity)
    → decode u server_name ≡ ok name
    → (get u server_name ids ≡ ok o) ↔ Selects (lower u name) ids o
get_iff u server_name name ids o d =
    let e = get-find u server_name name ids d in
    let s = lower u name in
    (
      λ g. subst (λ r. Selects s ids r) (ok-eq (sym e ∙ g)) (find-Selects s ids),
      λ sel. e ∙ ap ok (Selects-eq s ids sel),
    )
