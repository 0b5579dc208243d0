-- ===== src/Tests/Walks.antt =====
-- A walk with a visitor that counts its calls.
use cdump.Prelude.{
  ℕ, suc, ◌≡◌, ◌≢◌, refl, inr, false, some, List, [], ok, throw, runtime_error, codes,
}
use cdump.Bytes.{memcmp, le_value}
use cdump.Kind.{load_kind}
use cdump.Oid.{Oid, equals, cmp}
use cdump.Index.{new_index}
use cdump.Pool.Session.{session}
use cdump.Decoder.Properties.{PropertyMap}
use cdump.Decoder.Walk.{returned, pruned, Backup, walk, walk_fails}
use cdump.Decoder.Refused.{walk-IsRefused}
use cdump.Tests.Maps.{key, key-IsOid, pool, contents, pool-Represents}
use cdump.Tests.Values.{oid, blob}
use cdump.Tests.Chunks.{toy, stale, text}

abbrev count_calls : Backup ℕ
count_calls oids o date props n = ok (returned (suc n))

never_pruned :
    (oids : List Oid) (o : Oid) (date : ℕ) (props : PropertyMap) (s s' : ℕ)
    → count_calls oids o date props s ≢ ok (pruned s')
never_pruned oids o date props s s' h = cc

walk_fails_example :
    walk toy stale count_calls 5 (oid 3 1) (session [] 128 0 new_index [] []) [] 0
    ≢ ok (session [] 128 0 new_index [] [], [], 1)
walk_fails_example =
    walk_fails toy stale count_calls never_pruned 5 (oid 3 1) (session [] 128 0 new_index [] []) []
      0 (session [] 128 0 new_index [] [], [], 1)

-- A pool with a chunk of kind "blob", which is no backup.
blob_there : contents key ≡ some (blob, text)
unfolding equals cmp memcmp
blob_there = refl

blob_other : cdump.Kind.equals blob (load_kind (codes "back")) ≡ false
unfolding cdump.Kind.equals load_kind le_value
blob_other = refl

walk-IsRefused_example :
    walk toy stale count_calls 1 key pool [] 0 ≡ throw (runtime_error "Unsupported chunk kind")
walk-IsRefused_example =
    walk-IsRefused toy stale count_calls 0 key pool contents [] 0
      (runtime_error "Unsupported chunk kind") refl pool-Represents key-IsOid
      (inr ((blob, text), blob_there, blob_other, refl))
