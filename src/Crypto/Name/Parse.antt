-- ===== src/Crypto/Name/Parse.antt =====
-- The pieces of `X509Name.__init__` on the text that a plain name prints to.
use python3_gnutls.Prelude.{
  ℕ, ◌≡◌, refl, ◌≢◌, false, some, [], ◌∷◌, ◌++◌, append_assoc, append-nil, Str, arith, ◌==◌,
  if◌then◌else◌,
}
use python3_gnutls.Text.Laws.{Lacks}
use python3_gnutls.Crypto.Name.{comma, backslash, equals, split_commas, unescape, split_pair}

-- A value as a distinguished name writes it: each comma behind a backslash.
unfoldable pub escape : Str → Str
escape [] = []
escape (c ∷ s) = if c == comma then backslash ∷ comma ∷ escape s else c ∷ escape s

pub unescape-cons : (c : ℕ) (s : Str) → backslash ≢ c → unescape (c ∷ s) ≡ c ∷ unescape s
unfolding unescape
unescape-cons c [] h = refl
unescape-cons c (d ∷ s) h = ground arith

pub unescape-append : (p s : Str) → Lacks backslash p → unescape (p ++ s) ≡ p ++ unescape s
unescape-append [] s h = refl
unescape-append (c ∷ p) s h = ground (arith, unescape-cons c (p ++ s) h.0, unescape-append p s h.1)

pub unescape-escape : (v : Str) → Lacks backslash v → unescape (escape v) ≡ v
unfolding escape unescape
unescape-escape [] h = refl
unescape-escape (c ∷ v) h = ground (arith, unescape-escape v h.1, unescape-cons c (escape v) h.0)

pub split_commas-append :
    (p s part : Str)
    → Lacks backslash p
    → Lacks comma p
    → split_commas false part (p ++ s) ≡ split_commas false (part ++ p) s
unfolding split_commas
split_commas-append [] s part hb hc = rw append-nil
split_commas-append (c ∷ p) s part hb hc =
    ground (arith, split_commas-append p s (part ++ c ∷ []) hb.1 hc.1, append_assoc part (c ∷ []) p)

pub split_commas-escape :
    (v s part : Str)
    → Lacks backslash v
    → split_commas false part (escape v ++ s) ≡ split_commas false (part ++ escape v) s
unfolding split_commas escape
split_commas-escape [] s part h = rw append-nil
split_commas-escape (c ∷ v) s part h = ground (
  arith,
  split_commas-escape v s (part ++ c ∷ []) h.1,
  split_commas-escape v s ((part ++ backslash ∷ []) ++ comma ∷ []) h.1,
  append_assoc part (c ∷ []) (escape v),
  append_assoc part (backslash ∷ []) (comma ∷ []),
  append_assoc part (backslash ∷ comma ∷ []) (escape v),
)

pub split_pair-append : (n v : Str) → Lacks equals n → split_pair (n ++ equals ∷ v) ≡ some (n, v)
unfolding split_pair
split_pair-append [] v h = refl
split_pair-append (c ∷ n) v h = ground (arith, split_pair-append n v h.1)
