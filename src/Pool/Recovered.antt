-- ===== src/Pool/Recovered.antt =====
-- What recovery makes of a data file that is a sequence of images of chunks.
use cdump.Prelude.{
  ℕ, zero, suc, ◌+◌, ◌%◌, ◌^◌, ◌≤◌, ◌<◌, ◌≡◌, refl, ap, ◌∙◌, true, false, some, List, [], ◌∷◌, ◌++◌,
  ok, arith, length, length-append, drop, drop-append, append_assoc, All, ltb,
}
use cdump.Oid.{Oid, IsOid}
use cdump.Index.{Entry, FileIndex, new_index}
use cdump.Index.Kinds.{IsKind}
use cdump.Chunk.{Zlib}
use cdump.Chunk.Format.{HeaderInfo, read_header}
use cdump.Pool.Recover.{recover_loop}
use cdump.Pool.View.{Blob, IsImage}

-- A chunk in a file: its identifier, its kind and text, and its bytes.
pub record Item : Type 0 where
  pub oid : Oid
  pub blob : Blob
  pub out : List ℕ

pub record IsItem (z : Zlib) (i : Item) : Type 0 where
  pub twenty : IsOid i.oid
  pub word : IsKind i.blob.0
  pub some_bytes : 0 < length i.out
  pub image : IsImage z i.out i.oid i.blob

abbrev pub images : List Item → List ℕ
images [] = []
images (i ∷ items) = i.out ++ images items

-- The entries of the items, behind `pos` bytes.
abbrev pub entry_of : ℕ → Item → Entry
entry_of pos i = (i.oid, record { offset = pos; kind = i.blob.0 })

abbrev pub insert_all : ℕ → List Item → FileIndex → FileIndex
insert_all pos [] index = index
insert_all pos (i ∷ items) index =
    insert_all (pos + length i.out) items (cdump.Index.insert (entry_of pos i) index)

recover_loop-step :
    (stale content : List ℕ) (size fuel pos next : ℕ) (index : FileIndex) (info : HeaderInfo)
    (after : List ℕ)
    → pos < size
    → read_header stale (record { rest = drop pos content; failed = false })
      ≡ (some info, record { rest = after; failed = false })
    → (pos + info.stored_size) % 2 ^ 32 ≡ next
    → recover_loop stale content size (suc fuel) pos false index
      ≡ recover_loop stale content size fuel next false
          (cdump.Index.insert (info.oid, record { offset = pos; kind = info.kind }) index)
unfolding recover_loop
recover_loop-step stale content size fuel pos next index info after less head moved =
    simp (within, head, moved)
  where
    within : ltb pos size ≡ true
    within = ground arith

recover_loop-end :
    (stale content : List ℕ) (size fuel pos : ℕ) (index : FileIndex)
    → size ≡ pos
    → recover_loop stale content size fuel pos false index ≡ ok index
unfolding recover_loop
recover_loop-end stale content size fuel pos index e = ends fuel
  where
    beyond : ltb pos size ≡ false
    beyond = ground arith

    ends : (n : ℕ) → recover_loop stale content size n pos false index ≡ ok index
    ends zero = rw beyond refl
    ends (suc n) = rw beyond refl

module _ (z : Zlib) (stale : List ℕ) (frame : length stale ≡ 48) where
  -- The rounds from the end of `front` on.
  pub recover_loop-images :
      (items : List Item) (front content : List ℕ) (fuel : ℕ) (index : FileIndex)
      → All (IsItem z) items
      → content ≡ front ++ images items
      → length content < 2 ^ 32
      → length (images items) ≤ fuel
      → recover_loop stale content (length content) fuel (length front) false index
        ≡ ok (insert_all (length front) items index)
  recover_loop-images [] front content fuel index h cut small enough =
      recover_loop-end stale content (length content) fuel (length front) index
        (omega (arith, ap length cut, length-append front []))
  recover_loop-images (i ∷ items) front content zero index (v, h) cut small enough =
      absurd (omega (arith, length-append i.out (images items), v.some_bytes, enough))
  recover_loop-images (i ∷ items) front content (suc fuel) index (v, h) cut small enough =
      let r = v.image stale (images items) frame in
      let total : length content ≡ length front + (length i.out + length (images items)) = omega (
        arith,
        ap length cut,
        length-append front (i.out ++ images items),
        length-append i.out (images items),
      ) in
      let grown : length (front ++ i.out) ≡ length front + length i.out =
        length-append front i.out in
      recover_loop-step stale content (length content) fuel (length front) (length (front ++ i.out))
        index _ r.after_head (omega (arith, total, v.some_bytes))
        (ap (λ (rest : List ℕ). read_header stale (record { rest = rest; failed = false }))
            (ap (drop (length front)) cut
              ∙ drop-append front (i.out ++ images items) (length front) refl)
          ∙ r.head)
        (omega (arith, total, grown, small))
      ∙ recover_loop-images items (front ++ i.out) content fuel
          (cdump.Index.insert (entry_of (length front) i) index) h (cut ∙ rw append_assoc refl)
          small (omega (arith, length-append i.out (images items), v.some_bytes, enough))
      ∙ ap
          (λ (n : ℕ).
            ok (insert_all n items (cdump.Index.insert (entry_of (length front) i) index)))
          grown
