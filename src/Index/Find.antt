-- ===== src/Index/Find.antt =====
-- `FileIndex::find` over both halves of an index, and the keys that it finds.
use cdump.Prelude.{
  ◌+◌, ◌^◌, ◌<◌, ◌≡◌, ◌⊎◌, refl, sym, ◌∙◌, inl, inr, Bool-cases, Option, none, some, List, [], ◌∷◌,
  ◌++◌, ok, length, All, All-append, All-get_elem?, lt-get_elem?, map,
}
use cdump.Bytes.{IsWord}
use cdump.Oid.{Oid, IsOid, equals}
use cdump.Oid.Laws.{comparisons, equals-path}
use cdump.Index.{
  FileData, FileIndex, Entry, no_data, ram_find, find_data, find, deref, append_keys, sorted_keys,
}
use cdump.Index.Kinds.{IsKind}
use cdump.Index.Keys.{
  Has, Has-append_left, Has-append_right, append-Has, All-sort, get_elem?-Has, Has-get_elem?,
}
use cdump.Index.Search.{Answers}
use cdump.Index.Tops.{IsData, row-IsRow, IsData-IsRow, find_data-Answers}
use cdump.Index.Passes.{Known}

-- A loaded half whose values fit their 32 bits.
pub record IsStored (f : FileData) : Type 0 where
  pub shape : IsData f
  pub words : All IsWord f.offsets
  pub names : All IsKind f.kind_map

abbrev pub IsEntry : Entry → Type 0
IsEntry e = IsOid e.0 × IsWord e.1.offset × IsKind e.1.kind

-- An index in memory: entries added, over nothing or over what was loaded.
pub record IsIndex (index : FileIndex) : Type 0 where
  pub ram_good : All IsEntry index.ram
  pub data_good : (index.fdata ≡ no_data) ⊎ IsStored index.fdata
  pub small : length index.ram + length index.fdata.hashes < 2 ^ 31

abbrev pub key_of : Entry → Oid
key_of e = e.0

-- The keys of both halves.
abbrev pub keys : FileIndex → List Oid
keys index = append_keys index.fdata (map (λ e. e.0) index.ram)

-- What `find` should answer, given the keys.
abbrev pub FindSpec : List Oid → Oid → Option Entry → Type 0
FindSpec ks key none = Has key ks → ⊥
FindSpec ks key (some e) = (e.0 ≡ key) × IsWord e.1.offset × IsKind e.1.kind × Has key ks

behind_head :
    (k key : Oid) (ks : List Oid) (r : Option Entry)
    → (k ≡ key → ⊥)
    → FindSpec ks key r
    → FindSpec (k ∷ ks) key r
behind_head k key ks none differ s = λ h. elim h [ inl e ↦ differ e | inr m ↦ s m ]
behind_head k key ks (some x) differ (same, word, kind, h) = (same, word, kind, inr h)

behind_list :
    (js ks : List Oid) (key : Oid) (r : Option Entry)
    → (Has key js → ⊥)
    → FindSpec ks key r
    → FindSpec (js ++ ks) key r
behind_list js ks key none differ s =
    λ h. elim (append-Has js ks key h) [ inl m ↦ differ m | inr m ↦ s m ]
behind_list js ks key (some x) differ (same, word, kind, h) =
    (same, word, kind, Has-append_right js ks key h)

pub ram_find_lem :
    (key : Oid) (ram : List Entry)
    → IsOid key
    → All IsEntry ram
    → FindSpec (map (λ e. e.0) ram) key (ram_find key ram)
unfolding ram_find
ram_find_lem key [] g p = λ h. h
ram_find_lem key (e ∷ ram) g p = elim (Bool-cases (equals e.0 key)) [
  | inl same ↦
      rw same
        (equals-path e.0 key p.0.0 g same, p.0.1, p.0.2, inl (equals-path e.0 key p.0.0 g same))
  | inr other ↦ rw other (
      behind_head e.0 key (map (λ e. e.0) ram) (ram_find key ram)
        (λ same. cc (other, (comparisons e.0 key p.0.0 g).2.1 same)) (ram_find_lem key ram g p.1))
]

find_data_lem :
    (f : FileData) (key : Oid)
    → (f ≡ no_data) ⊎ IsStored f
    → IsOid key
    → (r : Option Entry) × (find_data f key ≡ ok r) × FindSpec f.hashes key r
find_data_lem f key (inl e) g = rw e (none, unfold find_data in refl, λ h. h)
find_data_lem f key (inr v) g = stored (find_data-Answers f key v.shape g)
  where
    stored :
        (r : Option Entry) × (find_data f key ≡ ok r) × Answers f key r
        → (r : Option Entry) × (find_data f key ≡ ok r) × FindSpec f.hashes key r
    stored (none, e, a) = (none, e, λ h. let (i, at) = Has-get_elem? f.hashes key h in a i at)
    stored (some x, e, (i, at, er)) =
        let (n, r) = IsData-IsRow f v.shape i (lt-get_elem? f.hashes i at) in
        (
          some (key, n),
          e ∙ sym er ∙ row-IsRow f key i n r,
          (
            refl,
            All-get_elem? IsWord f.offsets i v.words r.offset_at,
            All-get_elem? IsKind f.kind_map r.number v.names r.kind_at,
            get_elem?-Has f.hashes i key at,
          ),
        )

-- On a well-formed index `find` ends for every identifier of 20 bytes. It answers with an entry of that
-- key, of a 32-bit offset and kind, if the key is in memory or was loaded, and with none otherwise.
pub find-FindSpec :
    (index : FileIndex) (key : Oid)
    → IsIndex index
    → IsOid key
    → (r : Option Entry) × (find index key ≡ ok r) × FindSpec (keys index) key r
unfolding find append_keys
find-FindSpec index key v g =
    go (ram_find key index.ram) refl (ram_find_lem key index.ram g v.ram_good)
  where
    ram_keys : List Oid
    ram_keys = map (λ e. e.0) index.ram

    go :
        (o : Option Entry)
        → ram_find key index.ram ≡ o
        → FindSpec ram_keys key o
        → (r : Option Entry) × (find index key ≡ ok r) × FindSpec (keys index) key r
    go none e s =
        let (r, er, sr) = find_data_lem index.fdata key v.data_good g in
        (r, rw (e, find) er, behind_list ram_keys index.fdata.hashes key r s sr)
    go (some x) e (same, word, kind, h) = (
      some x,
      rw (e, find) refl,
      (same, word, kind, Has-append_left ram_keys index.fdata.hashes key h),
    )

pub deref-Known :
    (index : FileIndex) (key : Oid)
    → IsIndex index
    → IsOid key
    → Has key (keys index)
    → Known index key
unfolding deref
deref-Known index key v g h = go (find-FindSpec index key v g)
  where
    go :
        (r : Option Entry) × (find index key ≡ ok r) × FindSpec (keys index) key r → Known index key
    go (none, e, s) = absurd (s h)
    go (some x, e, (same, word, kind, m)) =
        (x, record { found = rw (e, deref) refl; same = same; word = word; kind = kind })

ram-IsOid : (ram : List Entry) → All IsEntry ram → All IsOid (map (λ e. e.0) ram)
ram-IsOid [] p = tt
ram-IsOid (e ∷ ram) p = (p.0.0, ram-IsOid ram p.1)

data-IsOid : (f : FileData) → (f ≡ no_data) ⊎ IsStored f → All IsOid f.hashes
data-IsOid f (inl e) = rw e tt
data-IsOid f (inr v) = v.shape.oids

pub keys-IsOid : (index : FileIndex) → IsIndex index → All IsOid (keys index)
unfolding append_keys
keys-IsOid index v =
    All-append IsOid (map (λ e. e.0) index.ram) index.fdata.hashes (ram-IsOid index.ram v.ram_good)
      (data-IsOid index.fdata v.data_good)

-- The keys that the sorted iterator walks over can all be dereferenced.
pub sorted_keys-Known :
    (index : FileIndex)
    → IsIndex index
    → All IsOid (sorted_keys index) × All (Known index) (sorted_keys index)
unfolding sorted_keys
sorted_keys-Known index v = (
  All-sort IsOid (keys index) (keys-IsOid index v),
  All-sort (Known index) (keys index) (known (keys index) (λ k h. h) (keys-IsOid index v)),
)
  where
    known :
        (ks : List Oid)
        → ((k : Oid) → Has k ks → Has k (keys index))
        → All IsOid ks
        → All (Known index) ks
    known [] inside p = tt
    known (k ∷ ks) inside p =
        (deref-Known index k v p.0 (inside k (inl refl)), known ks (λ j h. inside j (inr h)) p.1)
