-- ===== src/Pool/Grow.antt =====
-- The pool after an insertion represents the map with one blob more.
use cdump.Prelude.{
  ℕ, ◌+◌, ◌^◌, ◌<◌, ◌≡◌, ◌⊎◌, refl, sym, ◌∙◌, inl, inr, true, false, Bool-cases, Option-cases, some,
  List, [], ◌∷◌, ◌++◌, ok-injective, some-injective, arith, length, length-append, append-nil,
}
use cdump.Kind.{Kind}
use cdump.Oid.{Oid, IsOid, equals}
use cdump.Oid.Laws.{comparisons, equals-path}
use cdump.Index.{Entry, FileIndex, ram_find, find}
use cdump.Index.Insert.{find-insert, insert-IsIndex}
use cdump.Index.Kinds.{IsKind}
use cdump.Chunk.{Zlib}
use cdump.Pool.Directory.{lookup-append}
use cdump.Pool.Files.{Dir, append, data_name, File}
use cdump.Pool.Frame.{append_data-SameBelow, Agrees, update-Keeps, All-frame}
use cdump.Pool.Image.{StoredAt-append}
use cdump.Pool.Session.{session, entry_at}
use cdump.Pool.View.{Blob, Contents, update, IsImage, StoredAt, Finds, Holds, Found, Represents}

ram_Finds :
    (index : FileIndex) (key : Oid) (x : Entry)
    → ram_find key index.ram ≡ some x
    → Finds index key x
unfolding find
ram_Finds index key x h = rw (find, h) refl

-- What an index finds after an insertion: the new entry, or what it found before.
module _ (e : Entry) (index : FileIndex) (good : IsOid e.0) where
  pub Finds-insert :
      (key : Oid) (x : Entry)
      → IsOid key
      → Finds (cdump.Index.insert e index) key x
      → ((key ≡ e.0) × (x ≡ e)) ⊎ Finds index key x
  Finds-insert key x g found = elim (Option-cases (ram_find e.0 index.ram)) [
    | inr (old, here) ↦ inr (rw (find-insert e index key, here) at found)
    | inl fresh ↦ elim (Bool-cases (equals e.0 key)) [
      | inr other ↦ inr (rw (find-insert e index key, fresh, other) at found)
      | inl same ↦ inl (
        sym (equals-path e.0 key good g same),
        sym (
            some-injective e x (
              ok-injective (some e) (some x) (rw (find-insert e index key, fresh, same) at found))),
      )
    ]
  ]

  -- The inserted key is found.
  pub insert-Finds : (x : Entry) × Finds (cdump.Index.insert e index) e.0 x
  insert-Finds = elim (Option-cases (ram_find e.0 index.ram)) [
    | inl fresh ↦
        (e, find-insert e index e.0 ∙ rw (fresh, (comparisons e.0 e.0 good good).2.1 refl) refl)
    | inr (old, here) ↦ (old, find-insert e index e.0 ∙ rw here (ram_Finds index e.0 old here))
  ]

  -- And so is every key that was found.
  pub Finds-insert_other :
      (key : Oid) (x : Entry)
      → Finds index key x
      → (y : Entry) × Finds (cdump.Index.insert e index) key y
  Finds-insert_other key x found = elim (Option-cases (ram_find e.0 index.ram)) [
    | inr (old, here) ↦ (x, find-insert e index key ∙ rw here found)
    | inl fresh ↦ elim (Bool-cases (equals e.0 key)) [
      | inl same ↦ (e, find-insert e index key ∙ rw (fresh, same) refl)
      | inr other ↦ (x, find-insert e index key ∙ rw (fresh, other) found)
    ]
  ]

-- The latest file of a session.
abbrev pub front_of : ℕ → FileIndex → List ℕ → File
front_of pos index content = record {
  pos = pos;
  index = index;
  size = length content;
  for_writing = true;
  failed = false;
}

-- A session before and after `out`, the image of a blob, is appended to its file.
module _ (z : Zlib) (m : Contents) (dir : Dir) (limit pos : ℕ) (index : FileIndex)
    (content : List ℕ) (fs : List File)
    (v : Represents z (session dir limit pos index content fs) m)
    (h : Holds z dir m (front_of pos index content) content) (oid : Oid) (kind : Kind)
    (text out : List ℕ) (good : IsOid oid) (kword : IsKind kind)
    (image : IsImage z out oid (kind, text)) (agree : Agrees m oid (kind, text))
    (space : length content + length out < 2 ^ 32)
    (entries : length index.ram + 1 + length index.fdata.hashes < 2 ^ 31) where
  abbrev e : Entry
  e = entry_at oid content kind

  abbrev index' : FileIndex
  index' = cdump.Index.insert e index

  abbrev dir' : Dir
  dir' = append (data_name pos) out dir

  abbrev m' : Contents
  m' = update m oid (kind, text)

  has_new : m' oid ≡ some (kind, text)
  has_new = rw ((comparisons oid oid good good).2.1 refl) refl

  stored : StoredAt z (content ++ out) (length content) oid (kind, text)
  stored = record {
    front = content;
    out = out;
    back = [];
    cut = rw append-nil refl;
    starts = refl;
    image = image;
  }

  grown-agrees :
      (key : Oid) (x : Entry)
      → IsOid key
      → Finds index' key x
      → (b : Blob) × (m' key ≡ some b) × StoredAt z (content ++ out) x.1.offset key b
  grown-agrees key x g found = elim (Finds-insert e index good key x g found) [
    | inl (same, entry) ↦ rw (same, entry) ((kind, text), has_new, stored)
    | inr before ↦
        let (b, has, at) = h.agrees key x g before in
        (
          b,
          update-Keeps m oid (kind, text) good agree key b g has,
          StoredAt-append z content out x.1.offset key b at,
        )
  ]

  grown-Holds : Holds z dir' m' (front_of pos index' (content ++ out)) (content ++ out)
  grown-Holds = record {
    there = lookup-append (data_name pos) content out dir h.there;
    sized = refl;
    below = omega (arith, length-append content out, space);
    intact = refl;
    named = h.named;
    well = insert-IsIndex e index (good, h.below, kword) h.well entries;
    agrees = grown-agrees;
  }

  Found-later :
      (key : Oid)
      → Found key (front_of pos index content ∷ fs)
      → Found key (front_of pos index' (content ++ out) ∷ fs)
  Found-later key (inl (x, found)) = inl (Finds-insert_other e index good key x found)
  Found-later key (inr later) = inr later

  grown_complete :
      (key : Oid) (b : Blob)
      → IsOid key
      → m' key ≡ some b
      → Found key (front_of pos index' (content ++ out) ∷ fs)
  grown_complete key b g has = elim (Bool-cases (equals oid key)) [
    | inl same ↦ inl (rw (← equals-path oid key good g same) (insert-Finds e index good))
    | inr other ↦ Found-later key (v.complete key b g (rw other at has))
  ]

  pub grown-Represents :
      Represents z (session dir' limit pos index' (content ++ out) fs) (update m oid (kind, text))
  grown-Represents = record {
    hold = (
      (content ++ out, grown-Holds),
      All-frame z dir dir' m m' (update-Keeps m oid (kind, text) good agree) pos fs
          (append_data-SameBelow pos out dir h.named) v.descends.0 v.hold.1,
    );
    descends = v.descends;
    complete = grown_complete;
    unset = refl;
    word = v.word;
    front_open = (refl, refl);
  }
