-- ===== src/Crypto/Name/ReadOnly.antt =====
-- The attributes of a distinguished name are complete and cannot be reassigned.
use python3_gnutls.Prelude.{
  ◌≡◌, refl, ◌≢◌, ◌⊎◌, inl, inr, Bool, true, false, Option, none, List, [], ◌∷◌, ◌++◌, map, Str,
  All-append, not, ◌&&◌, ◌==◌, arith, Bool-cases,
}
use python3_gnutls.Errors.{
  attribute_error, ok, err, Exception, Result, bind, bind-eq-err, new, text,
}
use python3_gnutls.Text.Laws.{Lacks, str_eq_iff}
use python3_gnutls.Dict.{lookup, lookup-insert}
use python3_gnutls.Crypto.Name.{
  comma, backslash, equals, ids, member, Attributes, X509Name, split_commas, unescape, split_pair,
  set_attribute, assign, assign_pairs, set_defaults, init_name, set_name, invalid_name,
}
use python3_gnutls.Crypto.Name.RoundTrip.{lookup-set_defaults}

member-eq : (j k : Str) (l : List Str) → member j l ≡ false → member k l ≡ true → j ≢ k
unfolding member
member-eq j k l h p e = cc

-- Assigning to a name raises and so changes nothing, or leaves every one of the seven ids as it was.
pub set_name_keeps :
    (n : Str) (v : Option Str) (x y : X509Name) (k : Str)
    → member k ids ≡ true
    → set_name n v x ≡ ok y
    → (lookup k y.attributes ≡ lookup k x.attributes) × (y.dname ≡ x.dname)
unfolding set_name
set_name_keeps n v x y k hk h =
    ground (arith, member-eq n k ids, lookup-insert n k v x.attributes, str_eq_iff n k)

-- Assigning to an id raises `AttributeError`.
pub set_name-id :
    (n : Str) (v : Option Str) (x : X509Name)
    → member n ids ≡ true
    → (e : Exception) × (set_name n v x ≡ err e) × (e.class ≡ attribute_error)
unfolding set_name
set_name-id n v x h = (new attribute_error (text "can't set attribute"), ground arith, refl)

-- Assigning to an id raises `AttributeError`, and assigning to any attribute raises or leaves the id
-- and the text of the name as they were.
pub set_name_lem :
    (n k : Str) (v : Option Str) (x : X509Name)
    → member k ids ≡ true
    → ((e : Exception) × (set_name k v x ≡ err e) × (e.class ≡ attribute_error))
      × (((e : Exception) × (set_name n v x ≡ err e))
          ⊎ ((y : X509Name) × (set_name n v x ≡ ok y)
              × (lookup k y.attributes ≡ lookup k x.attributes)
              × (y.dname ≡ x.dname)))
set_name_lem n k v x h = (set_name-id k v x h, by_outcome (set_name n v x) refl)
  where
    by_outcome :
        (r : Result X509Name)
        → set_name n v x ≡ r
        → ((e : Exception) × (set_name n v x ≡ err e))
          ⊎ ((y : X509Name) × (set_name n v x ≡ ok y)
              × (lookup k y.attributes ≡ lookup k x.attributes)
              × (y.dname ≡ x.dname))
    by_outcome (ok y) e =
        let (kept, whole) = set_name_keeps n v x y k h e in inr (y, e, kept, whole)
    by_outcome (err e) raised = inl (e, raised)

complete :
    (d : Str) (r : Result Attributes) (x : X509Name) (k : Str)
    → bind r (λ attrs. ok (record { dname = d; attributes = set_defaults ids attrs })) ≡ ok x
    → member k ids ≡ true
    → lookup k x.attributes ≢ none
complete d (ok attrs) x k h m = ground (arith, lookup-set_defaults k ids attrs)
complete d (err e) x k h m = cc

-- Each id is an attribute of every name that was read, whatever the text.
pub init_name-ids :
    (d : Str) (x : X509Name) (k : Str)
    → init_name d ≡ ok x
    → member k ids ≡ true
    → lookup k x.attributes ≢ none
unfolding init_name
init_name-ids d x k = complete d (assign_pairs d (map unescape (split_commas false [] d)) []) x k

assign_error :
    (d : Str) (o : Option (Str × Str)) (attrs : Attributes) (e : Exception)
    → assign d o attrs ≡ err e
    → (e ≡ invalid_name d) ⊎ (e.class ≡ attribute_error)
unfolding set_attribute
assign_error d o attrs e h = ground arith

assign_pairs_error :
    (d : Str) (ps : List Str) (attrs : Attributes) (e : Exception)
    → assign_pairs d ps attrs ≡ err e
    → (e ≡ invalid_name d) ⊎ (e.class ≡ attribute_error)
unfolding assign_pairs
assign_pairs_error d [] attrs e h = cc
assign_pairs_error d (p ∷ ps) attrs e h =
    elim (bind-eq-err (assign d (split_pair p) attrs) (assign_pairs d ps) e h) [
      | inl first ↦ assign_error d (split_pair p) attrs e first
      | inr (next, _, later) ↦ assign_pairs_error d ps next e later
    ]

-- Reading fails only with the `ValueError` that names the whole text, or with the `AttributeError`
-- of a pair that is named like a property.
pub init_name_error :
    (d : Str) (e : Exception)
    → init_name d ≡ err e
    → (e ≡ invalid_name d) ⊎ (e.class ≡ attribute_error)
unfolding init_name
init_name_error d e h =
    ground (arith, assign_pairs_error d (map unescape (split_commas false [] d)) [] e)

split_pair-none : (s : Str) → Lacks equals s → split_pair s ≡ none
unfolding split_pair
split_pair-none [] h = refl
split_pair-none (c ∷ s) h = ground (arith, split_pair-none s h.1)

first_part :
    (escaped : Bool) (part s : Str)
    → Lacks equals part
    → Lacks equals s
    → (p : Str) × (ps : List Str) × (split_commas escaped part s ≡ p ∷ ps) × Lacks equals p
unfolding split_commas
first_part escaped part [] hp hs = (part, [], refl, hp)
first_part escaped part (c ∷ s) hp hs = elim (Bool-cases (c == comma && not escaped)) [
  | inl cut ↦ (part, split_commas false [] s, rw (cut, split_commas), hp)
  | inr kept ↦
      rw (kept, split_commas)
        (first_part (c == backslash) (part ++ c ∷ []) s
          (All-append (λ d. equals ≢ d) part (c ∷ []) hp (hs.0, tt)) hs.1)
]

unescape-Lacks : (s : Str) → Lacks equals s → Lacks equals (unescape s)
unfolding unescape
unescape-Lacks [] h = tt
unescape-Lacks (c ∷ []) h = h
unescape-Lacks (c ∷ d ∷ s) h = elim (Bool-cases (c == backslash && d == comma)) [
  | inl pair ↦ rw (pair, unescape) (omega arith, unescape-Lacks s h.1.1)
  | inr kept ↦ rw (kept, unescape) (h.0, unescape-Lacks (d ∷ s) h.1)
]

-- A text with no `=`, the empty one among them, is refused with the `ValueError`.
pub init_name-no_equals : (d : Str) → Lacks equals d → init_name d ≡ err (invalid_name d)
init_name-no_equals d h =
    let (p, ps, e, lacks) = first_part false [] d tt h in
    unfold init_name in rw (e, split_pair-none (unescape p) (unescape-Lacks p lacks))
