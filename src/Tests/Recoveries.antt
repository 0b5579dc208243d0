-- ===== src/Tests/Recoveries.antt =====
-- Recovery of a file with two chunks, whose index file is refused.
use cdump.Prelude.{
  ℕ, ◌≡◌, ◌<◌, ◌^◌, refl, List, [], ◌∷◌, some, ok, throw, index_error, arith, length,
}
use cdump.Index.{
  FileIndex, new_index, ram_insert, ram_find, sorted_keys, append_keys, sort, sorted_insert,
}
use cdump.Index.Few.{KindsFit, few-KindsFit}
use cdump.Index.Find.{IsIndex}
use cdump.Index.Load.{load}
use cdump.Oid.{Oid, IsOid, equals, cmp, less}
use cdump.Bytes.{memcmp}
use cdump.Chunk.Format.{padded}
use cdump.Chunk.Written.{payload_of, uclen_of, length-image}
use cdump.Pool.Flush.{indexed}
use cdump.Pool.Image.{image_of, image-IsImage}
use cdump.Pool.Rebuilt.{Located, Complete, recover_index-images}
use cdump.Pool.Recover.{recover_index}
use cdump.Pool.Recovered.{Item, IsItem, images, insert_all}
use cdump.Prelude.{length-append}
use cdump.Tests.Values.{oid, oid-IsOid, blob}
use cdump.Tests.Chunks.{toy, toy-IsZlib, text, text_stored, stale, beyond}

abbrev item : Oid → Item
item key = record {
  oid = key;
  blob = (blob, text);
  out = image_of beyond key (blob, text) (some text);
}

item_size : (key : Oid) → IsOid key → length (item key).out ≡ 80
unfolding padded
item_size key v =
    length-image beyond blob key (uclen_of text (some text)) (payload_of text (some text)) v
      (omega arith) (omega arith)

item-IsItem : (key : Oid) → IsOid key → IsItem toy (item key)
item-IsItem key v = record {
  twenty = v;
  word = omega arith;
  some_bytes = omega (arith, item_size key v);
  image =
      image-IsImage toy beyond blob key text toy-IsZlib v (omega arith) (omega arith) (omega arith)
        (some text) text_stored;
}

abbrev items : List Item
items = item (oid 3 1) ∷ item (oid 5 2) ∷ []

first_good : IsOid (oid 3 1)
first_good = oid-IsOid 3 1 (omega arith) (omega arith)

second_good : IsOid (oid 5 2)
second_good = oid-IsOid 5 2 (omega arith) (omega arith)

items_small : length (images items) < 2 ^ 31
items_small = omega (
  arith,
  length-append (item (oid 3 1)).out (images (item (oid 5 2) ∷ [])),
  length-append (item (oid 5 2)).out [],
  item_size (oid 3 1) first_good,
  item_size (oid 5 2) second_good,
)

items_fit : KindsFit (insert_all 0 items new_index)
unfolding cdump.Index.insert ram_insert ram_find sorted_keys append_keys sort sorted_insert equals
    less cmp memcmp
items_fit = few-KindsFit (insert_all 0 items new_index) (omega arith)

recover_index-images_example :
    (image : List ℕ) × (fresh : FileIndex) × (recover_index stale
        (images items)
        0
        []
        (throw (index_error "Index file incorrect version"))
      ≡ ok (indexed 0 image []))
    × (load (some image) (length (images items)) ≡ ok fresh)
    × IsIndex fresh
    × Located toy (images items) fresh
    × Complete fresh items
recover_index-images_example =
    recover_index-images toy stale items 0 [] "Index file incorrect version" refl
      (item-IsItem (oid 3 1) first_good, (item-IsItem (oid 5 2) second_good, tt)) items_small
      items_fit
