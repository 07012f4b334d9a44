-- ===== src/Connection/ServerNames/Wildcard.antt =====
-- What a wildcard name covers: one label in the place of the star.
use python3_gnutls.Prelude.{
  ◌-◌, ◌≡◌, refl, subst, sym, ◌↔◌, Bool, true, false, not, ◌&&◌, ◌∷◌, ◌++◌, Str, length, take, drop,
  arith,
}
use python3_gnutls.Text.{starts_with}
use python3_gnutls.Text.Laws.{
  starts_with-eq, ends_with-eq, ends_with-append, take-sub_append, Lacks, has_char_iff,
}
use python3_gnutls.Connection.ServerNames.{dot, star_dot, covers}

-- `name` is a star, a dot and a domain, and `server_name` has a label without a dot in the place of
-- the star.
pub record Covers (name server_name : Str) : Type 0 where
  pub label : Str
  pub domain : Str
  pub pattern_eq : name ≡ star_dot ++ domain
  pub server_eq : server_name ≡ label ++ dot ∷ domain
  pub one_label : Lacks dot label

not-eq-true : (b : Bool) → not b ≡ true → b ≡ false
not-eq-true b h = ground arith

&&-eq : (a b c : Bool) → (a && b && c) ≡ true → (a ≡ true) × (b ≡ true) × (c ≡ true)
&&-eq a b c h = ground arith

split_name : (name : Str) → starts_with name star_dot ≡ true → name ≡ star_dot ++ drop 2 name
split_name name h = starts_with-eq name star_dot h

covers_sound :
    (domain server_name : Str)
    → covers (star_dot ++ domain) server_name ≡ true
    → Covers (star_dot ++ domain) server_name
unfolding covers
covers_sound domain s h =
    let (_, ends, plain) = &&-eq _ _ _ h in
    record {
      label = take (length s - length (dot ∷ domain)) s;
      domain = domain;
      pattern_eq = refl;
      server_eq = ends_with-eq s (dot ∷ domain) ends;
      one_label =
          (has_char_iff dot (take (length s - length (dot ∷ domain)) s)).0 (not-eq-true _ plain);
    }

covers_complete :
    (label domain : Str)
    → Lacks dot label
    → covers (star_dot ++ domain) (label ++ dot ∷ domain) ≡ true
unfolding covers starts_with
covers_complete label domain h = ground (
  arith,
  ends_with-append label (dot ∷ domain),
  take-sub_append label (dot ∷ domain),
  has_char_iff dot label,
)

covers-starts : (name s : Str) → covers name s ≡ true → starts_with name star_dot ≡ true
unfolding covers
covers-starts name s h = (&&-eq _ _ _ h).0

-- The test in the loop of `get` accepts exactly the names that are a star, a dot and a domain for a
-- server name that is one label without dots, a dot and that domain: more labels, or none, do not
-- match.
pub covers_iff :
    (name server_name : Str) → (covers name server_name ≡ true) ↔ Covers name server_name
covers_iff name server_name = (
  λ h.
      let e = split_name name (covers-starts name server_name h) in
      subst (λ n. Covers n server_name) (sym e)
        (covers_sound (drop 2 name) server_name (subst (λ n. covers n server_name ≡ true) e h)),
  λ c.
      subst (λ n. covers n server_name ≡ true) (sym c.pattern_eq)
        (subst (λ s. covers (star_dot ++ c.domain) s ≡ true) (sym c.server_eq)
          (covers_complete c.label c.domain c.one_label)),
)
