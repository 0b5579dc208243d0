-- ===== src/Index/Reloaded.antt =====
-- An index that had an entry added, once it was saved and loaded again.
use cdump.Prelude.{ℕ, ◌+◌, ◌^◌, ◌<◌, ◌≡◌, ◌∙◌, List, some, ok, length}
use cdump.Bytes.{IsWord}
use cdump.Oid.{Oid, IsOid}
use cdump.Index.{Entry, FileIndex, insert, ram_find, find}
use cdump.Index.Few.{KindsFit}
use cdump.Index.Find.{IsEntry, IsIndex}
use cdump.Index.Insert.{insert-IsIndex, find-insert, after_insert}
use cdump.Index.Load.{load}
use cdump.Index.Save.{save}
use cdump.Index.Saved.{load-save}

-- Let a well-formed entry be added by `insert` to a well-formed index, so that there are fewer than
-- 2 ^ 31 entries and at most 256 kinds. The index is then saved by `save`, and `load` reads from
-- this image a well-formed index, in which the new entry is found under its key, unless the entries
-- in memory had that key already: then every key is found as before the insertion. Every other key
-- is found as before in any case.
pub load-save-insert :
    (e : Entry) (index : FileIndex) (size : ℕ)
    → IsEntry e
    → IsIndex index
    → length index.ram + 1 + length index.fdata.hashes < 2 ^ 31
    → KindsFit (insert e index)
    → IsWord size
    → (image : List ℕ) × (fresh : FileIndex) × (save (insert e index) size ≡ ok image)
      × (load (some image) size ≡ ok fresh)
      × IsIndex fresh
      × ((key : Oid)
          → IsOid key
          → find fresh key ≡ after_insert (ram_find e.0 index.ram) e index key)
load-save-insert e index size g v room fit h =
    let (image, fresh, saved, loaded, well, same) =
      load-save (insert e index) size (insert-IsIndex e index g v room) fit h in
    (image, fresh, saved, loaded, well, λ key k. same key k ∙ find-insert e index key)
