-- ===== src/Index/Few.antt =====
-- Indices with few enough kinds for a file, which numbers them in one byte.
use cdump.Prelude.{
  suc, ◌≤◌, ◌≡◌, ap, List, [], ◌∷◌, ok, ok->>=, ok-injective, arith, length, ◌∙◌, sym,
}
use cdump.Kind.{Kind}
use cdump.Oid.{Oid}
use cdump.Index.{FileIndex, Entry, deref, sorted_keys}
use cdump.Index.Save.{set_insert, kind_set, deref_all}

-- The kinds of an index fit the one byte that a file has for each.
abbrev pub KindsFit : FileIndex → Type 0
KindsFit index =
    (es : List Entry) → deref_all index (sorted_keys index) ≡ ok es → length (kind_set es) ≤ 256

length-set_insert : (k : Kind) (ks : List Kind) → length (set_insert k ks) ≤ suc (length ks)
unfolding set_insert
length-set_insert k [] = omega arith
length-set_insert k (j ∷ js) = ground (arith, length-set_insert k js)

length-kind_set : (es : List Entry) → length (kind_set es) ≤ length es
unfolding kind_set
length-kind_set [] = omega arith
length-kind_set (e ∷ es) =
    omega (arith, length-set_insert e.1.kind (kind_set es), length-kind_set es)

length-deref_all :
    (index : FileIndex) (ks : List Oid) (es : List Entry)
    → deref_all index ks ≡ ok es
    → length es ≡ length ks
unfolding deref_all
length-deref_all index [] es h = ap length (sym (ok-injective [] es h))
length-deref_all index (k ∷ ks) es h =
    let (e, h', _) = ok->>= _ (deref index k) h in
    let (es', h'', rest) = ok->>= _ (deref_all index ks) h' in
    ap length (sym (ok-injective (e ∷ es') es h'')) ∙ ap suc (length-deref_all index ks es' rest)

pub few-KindsFit : (index : FileIndex) → length (sorted_keys index) ≤ 256 → KindsFit index
few-KindsFit index few es h =
    omega (arith, length-kind_set es, length-deref_all index (sorted_keys index) es h, few)
