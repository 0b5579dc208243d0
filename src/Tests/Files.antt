-- ===== src/Tests/Files.antt =====
-- Indices at concrete inputs: two entries in memory over two that were loaded.
use cdump.Prelude.{
  ℕ, ◌<◌, ◌≡◌, refl, ap, Bool, true, false, List, [], ◌∷◌, ◌++◌, Option, none, some, ok, arith, inr,
  replicate, All, get_elem?, ◌==◌, ==_iff, holds_below-get,
}
use cdump.Bytes.{memcmp}
use cdump.Oid.{Oid, IsOid, cmp, less, peek_first}
use cdump.Index.{
  FileIndex, FileData, Entry, find, find_data, insert, ram_insert, ram_find, sort, sorted_insert,
}
use cdump.Index.Tops.{IsData, find_data-Answers, count_le}
use cdump.Index.Search.{Answers, IsSorted}
use cdump.Index.Keys.{sort-IsSorted}
use cdump.Index.Find.{IsEntry, IsIndex, FindSpec, keys, find-FindSpec}
use cdump.Index.Save.{save}
use cdump.Index.Load.{load}
use cdump.Index.Few.{KindsFit, few-KindsFit}
use cdump.Index.Saved.{length-keys, load-save}
use cdump.Index.Insert.{find-insert, after_insert}
use cdump.Index.Reloaded.{load-save-insert}
use cdump.Tests.Values.{oid, oid-IsOid, blob, back}

good : (first last : ℕ) → first < 256 → last < 256 → IsOid (oid first last)
good = oid-IsOid

abbrev tops : List ℕ
tops = replicate 3 0 ++ (replicate 200 1 ++ replicate 53 2)

abbrev hashes : List Oid
hashes = oid 3 1 ∷ oid 203 2 ∷ []

abbrev loaded : FileData
loaded = record {
  tops = tops;
  hashes = hashes;
  offsets = 0 ∷ 96 ∷ [];
  kind_map = back ∷ blob ∷ [];
  kinds = 1 ∷ 0 ∷ [];
}

abbrev is_count : Option ℕ → ℕ → Bool
is_count none n = false
is_count (some m) n = m == n

is_count_sound : (o : Option ℕ) (n : ℕ) → is_count o n ≡ true → o ≡ some n
is_count_sound none n h = cc
is_count_sound (some m) n h = ap some ((==_iff m n).0 h)

tops_counted : (t : ℕ) → t < 256 → get_elem? tops t ≡ some (count_le t hashes)
unfolding count_le peek_first
tops_counted t h =
    is_count_sound _ _
      (holds_below-get (λ t. is_count (get_elem? tops t) (count_le t hashes)) 256 t h refl)

oids : All IsOid hashes
oids = (good 3 1 (omega arith) (omega arith), (good 203 2 (omega arith) (omega arith), tt))

hashes-IsSorted : IsSorted hashes
unfolding sort sorted_insert less cmp memcmp
hashes-IsSorted = sort-IsSorted hashes oids

loaded-IsData : IsData loaded
loaded-IsData = record {
  tops_size = refl;
  tops_count = tops_counted;
  small = omega arith;
  sorted = hashes-IsSorted;
  oids = oids;
  offsets_size = refl;
  kinds_size = refl;
  kinds_known = (omega arith, (omega arith, tt));
}

find_data-Answers_example :
    (r : Option Entry) × (find_data loaded (oid 203 2) ≡ ok r) × Answers loaded (oid 203 2) r
find_data-Answers_example =
    find_data-Answers loaded (oid 203 2) loaded-IsData (good 203 2 (omega arith) (omega arith))

-- An index with one entry in memory over the loaded ones.
abbrev both : FileIndex
both = record { ram = (oid 9 9, record { offset = 192; kind = blob }) ∷ []; fdata = loaded }

abbrev added : Entry
added = (oid 9 8, record { offset = 288; kind = back })

blob-IsEntry : IsEntry (oid 9 9, record { offset = 192; kind = blob })
blob-IsEntry = (good 9 9 (omega arith) (omega arith), omega arith, omega arith)

added-IsEntry : IsEntry added
added-IsEntry = (good 9 8 (omega arith) (omega arith), omega arith, omega arith)

both-IsIndex : IsIndex both
both-IsIndex = record {
  ram_good = (blob-IsEntry, tt);
  data_good = inr (record {
    shape = loaded-IsData;
    words = (omega arith, (omega arith, tt));
    names = (omega arith, (omega arith, tt));
  });
  small = omega arith;
}

find-FindSpec_example :
    (r : Option Entry) × (find both (oid 203 2) ≡ ok r) × FindSpec (keys both) (oid 203 2) r
find-FindSpec_example =
    find-FindSpec both (oid 203 2) both-IsIndex (good 203 2 (omega arith) (omega arith))

find-insert_example :
    find (insert added both) (oid 9 9)
    ≡ after_insert (ram_find (oid 9 8) both.ram) added both (oid 9 9)
find-insert_example = find-insert added both (oid 9 9)

-- Its file has two kinds.
both-KindsFit : KindsFit both
both-KindsFit = few-KindsFit both (omega (arith, length-keys both))

load-save_example :
    (file : List ℕ) × (fresh : FileIndex) × (save both 384 ≡ ok file)
    × (load (some file) 384 ≡ ok fresh)
    × IsIndex fresh
    × ((key : Oid) → IsOid key → find fresh key ≡ find both key)
load-save_example = load-save both 384 both-IsIndex both-KindsFit (omega arith)

-- With the added entry it has five keys.
more-KindsFit : KindsFit (insert added both)
unfolding insert ram_insert ram_find cdump.Index.sorted_keys cdump.Oid.equals
more-KindsFit = few-KindsFit (insert added both) (omega (arith, length-keys (insert added both)))

load-save-insert_example :
    (image : List ℕ) × (fresh : FileIndex) × (save (insert added both) 384 ≡ ok image)
    × (load (some image) 384 ≡ ok fresh)
    × IsIndex fresh
    × ((key : Oid)
        → IsOid key
        → find fresh key ≡ after_insert (ram_find (oid 9 8) both.ram) added both key)
load-save-insert_example =
    load-save-insert added both 384 added-IsEntry both-IsIndex (omega arith) more-KindsFit
      (omega arith)
