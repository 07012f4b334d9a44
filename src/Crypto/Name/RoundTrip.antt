-- ===== src/Crypto/Name/RoundTrip.antt =====
-- `X509Name` reads back the pairs that a distinguished name was printed from.
use python3_gnutls.Prelude.{
  ◌≡◌, refl, ◌∙◌, false, Option, none, some, List, [], ◌∷◌, ◌++◌, append_assoc, append-nil, map,
  Str, All, arith, if◌then◌else◌, ap,
}
use python3_gnutls.Errors.{ok}
use python3_gnutls.Text.{str_eq}
use python3_gnutls.Text.Laws.{Lacks, str_eq_iff}
use python3_gnutls.Dict.{lookup, insert, lookup-insert}
use python3_gnutls.Crypto.Name.{
  comma, backslash, equals, ids, member, is_long_name, Attributes, X509Name, split_commas, unescape,
  set_attribute, assign_pairs, set_defaults, init_name,
}
use python3_gnutls.Crypto.Name.Parse.{
  escape, unescape-append, unescape-cons, unescape-escape, split_commas-append, split_commas-escape,
  split_pair-append,
}

abbrev pub Pair : Type 0
Pair = Str × Str

-- `name=value`, with the commas of the value escaped
abbrev pub render_pair : Pair → Str
render_pair (n, v) = n ++ equals ∷ escape v

unfoldable pub render : List Pair → Str
unfolding escape
render [] = []
render (p ∷ []) = render_pair p
render (p ∷ q ∷ ps) = render_pair p ++ comma ∷ render (q ∷ ps)

-- A pair that can be printed: the name has none of the three special characters and is no property
-- of the class, and the value has no backslash.
pub record IsPlain (p : Pair) : Type 0 where
  pub no_equals : Lacks equals p.0
  pub no_comma : Lacks comma p.0
  pub no_backslash : Lacks backslash p.0
  pub plain_value : Lacks backslash p.1
  pub settable : is_long_name p.0 ≡ false

-- The value that the last pair of that name gives.
unfoldable pub last_value : Str → List Pair → Option Str
last_value k [] = none
last_value k ((n, v) ∷ ps) = elim (last_value k ps) [
  | some w ↦ some w
  | none ↦ if str_eq n k then some v else none
]

split_commas-render_pair :
    (p : Pair) (s : Str)
    → IsPlain p
    → split_commas false [] (render_pair p ++ s) ≡ split_commas false (render_pair p) s
split_commas-render_pair (n, v) s h = rw (append_assoc n (equals ∷ escape v) s) (
    split_commas-append n (equals ∷ (escape v ++ s)) [] h.no_backslash h.no_comma
    ∙ (split_equals
        ∙ (split_commas-escape v s (n ++ equals ∷ []) h.plain_value
            ∙ ap (λ part. split_commas false part s) (append_assoc n (equals ∷ []) (escape v)))))
  where
    split_equals :
        split_commas false n (equals ∷ (escape v ++ s))
        ≡ split_commas false (n ++ equals ∷ []) (escape v ++ s)
    split_equals = unfold split_commas in refl

split_commas-render :
    (p : Pair) (ps : List Pair)
    → All IsPlain (p ∷ ps)
    → split_commas false [] (render (p ∷ ps)) ≡ map render_pair (p ∷ ps)
unfolding render split_commas
split_commas-render p [] h = cc (split_commas-render_pair p [] h.0, append-nil (render_pair p))
split_commas-render p (q ∷ ps) h =
    split_commas-render_pair p (comma ∷ render (q ∷ ps)) h.0
    ∙ ap (λ l. render_pair p ∷ l) (split_commas-render q ps h.1)

unescape-render_pair : (p : Pair) → IsPlain p → unescape (render_pair p) ≡ p.0 ++ equals ∷ p.1
unescape-render_pair (n, v) h =
    unescape-append n (equals ∷ escape v) h.no_backslash
    ∙ ap (λ s. n ++ s)
        (unescape-cons equals (escape v) (omega arith)
          ∙ ap (λ s. equals ∷ s) (unescape-escape v h.plain_value))

insert_all : List Pair → Attributes → Attributes
insert_all [] attrs = attrs
insert_all ((n, v) ∷ ps) attrs = insert_all ps (insert n (some v) attrs)

assign_pairs-render :
    (d : Str) (ps : List Pair) (attrs : Attributes)
    → All IsPlain ps
    → assign_pairs d (map unescape (map render_pair ps)) attrs ≡ ok (insert_all ps attrs)
unfolding assign_pairs insert_all set_attribute
assign_pairs-render d [] attrs h = refl
assign_pairs-render d ((n, v) ∷ ps) attrs h =
    rw (unescape-render_pair (n, v) h.0, split_pair-append n v h.0.no_equals)
      (rw (h.0.settable) (assign_pairs-render d ps (insert n (some v) attrs) h.1))

abbrev or_some : Option Str → Option (Option Str) → Option (Option Str)
or_some none o = o
or_some (some v) o = some (some v)

lookup-insert_all :
    (k : Str) (ps : List Pair) (attrs : Attributes)
    → lookup k (insert_all ps attrs) ≡ or_some (last_value k ps) (lookup k attrs)
unfolding insert_all last_value
lookup-insert_all k [] attrs = refl
lookup-insert_all k ((n, v) ∷ ps) attrs =
    ground
      (arith, lookup-insert_all k ps (insert n (some v) attrs), lookup-insert n k (some v) attrs)

pub lookup-set_defaults :
    (k : Str) (is : List Str) (attrs : Attributes)
    → lookup k (set_defaults is attrs)
      ≡ elim (lookup k attrs) [ some x ↦ some x | none ↦ if member k is then some none else none ]
unfolding set_defaults member
lookup-set_defaults k [] attrs = ground arith
lookup-set_defaults k (i ∷ is) attrs = ground (
  arith,
  lookup-set_defaults k is attrs,
  lookup-set_defaults k is (insert i none attrs),
  lookup-insert i k none attrs,
  str_eq_iff i k,
)

-- What an attribute is after the pairs were read: the value of the last pair of that name, `None`
-- for an id that no pair has, and else absent.
abbrev pub expected : Str → List Pair → Option (Option Str)
expected k ps = or_some (last_value k ps) (if member k ids then some none else none)

-- Reading the text that a non-empty list of plain pairs prints to succeeds, keeps the text, and
-- gives every attribute its expected value: commas in values survive, of two pairs with one name
-- the later counts, and the seven ids are there even where no pair has them.
pub init_name-render :
    (p : Pair) (ps : List Pair)
    → All IsPlain (p ∷ ps)
    → (x : X509Name) × (init_name (render (p ∷ ps)) ≡ ok x)
      × (x.dname ≡ render (p ∷ ps))
      × ((k : Str) → lookup k x.attributes ≡ expected k (p ∷ ps))
init_name-render p ps h =
    let text = render (p ∷ ps) in
    let attrs = set_defaults ids (insert_all (p ∷ ps) []) in
    (record { dname = text; attributes = attrs }, parsed, refl, λ k. found k)
  where
    parsed :
        init_name (render (p ∷ ps))
        ≡ ok (record {
          dname = render (p ∷ ps);
          attributes = set_defaults ids (insert_all (p ∷ ps) []);
        })
    parsed =
        unfold init_name in
        rw (split_commas-render p ps h, assign_pairs-render (render (p ∷ ps)) (p ∷ ps) [] h)

    found : (k : Str) → lookup k (set_defaults ids (insert_all (p ∷ ps) [])) ≡ expected k (p ∷ ps)
    found k =
        unfold lookup in
        ground (
          arith,
          lookup-set_defaults k ids (insert_all (p ∷ ps) []),
          lookup-insert_all k (p ∷ ps) [],
        )
