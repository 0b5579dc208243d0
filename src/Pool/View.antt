-- ===== src/Pool/View.antt =====
-- What a pool contains, as a map from identifiers to kinds and texts, and when a directory and the
-- files that are open represent such a map.
use cdump.Prelude.{
  ℕ, ◌^◌, ◌<◌, ◌≡◌, ◌⊎◌, Bool, true, false, Option, none, some, List, [], ◌∷◌, ◌++◌, ok, length,
  All, if◌then◌else◌,
}
use cdump.Kind.{Kind}
use cdump.Oid.{Oid, IsOid, equals}
use cdump.Index.{Entry, FileIndex}
use cdump.Index.Find.{IsIndex}
use cdump.Chunk.{Zlib, Chunk, chunk_kind, chunk_oid, size, chunk_data}
use cdump.Chunk.Format.{read_header, read}
use cdump.Pool.{Pool}
use cdump.Pool.Files.{Dir, lookup, data_name, File}

-- A kind and a text.
abbrev pub Blob : Type 0
Blob = Kind × List ℕ

abbrev pub Contents : Type 0
Contents = Oid → Option Blob

abbrev pub nothing : Contents
nothing key = none

abbrev pub update : Contents → Oid → Blob → Contents
update m o b key = if equals o key then some b else m key

-- The chunk has this identifier, and kind, size and data of the blob.
pub record Shows (z : Zlib) (d : Chunk) (key : Oid) (b : Blob) : Type 0 where
  pub same_kind : chunk_kind d ≡ b.0
  pub same_oid : chunk_oid d ≡ key
  pub same_size : size d ≡ length b.1
  pub opened : Chunk
  pub text_back : chunk_data z d ≡ ok (b.1, opened)

-- What reading bytes as a chunk comes to, from any stack and with anything behind the bytes.
pub record ReadsAs (z : Zlib) (stale out rest : List ℕ) (key : Oid) (b : Blob) : Type 0 where
  pub chunk : Chunk
  pub behind : List ℕ
  pub got :
      read stale (record { rest = out ++ rest; failed = false })
      ≡ ok (chunk, record { rest = behind; failed = false })
  pub shows : Shows z chunk key b
  pub after_head : List ℕ
  pub head : read_header stale (record { rest = out ++ rest; failed = false }) ≡ (
    some (record { kind = b.0; oid = key; size = length b.1; stored_size = length out }),
    record { rest = after_head; failed = false },
  )

-- The bytes are the image of a chunk.
abbrev pub IsImage : Zlib → List ℕ → Oid → Blob → Type 0
IsImage z out key b = (stale rest : List ℕ) → length stale ≡ 48 → ReadsAs z stale out rest key b

-- The content of a file has the image of a chunk at an offset.
pub record StoredAt (z : Zlib) (content : List ℕ) (offset : ℕ) (key : Oid) (b : Blob) : Type 0 where
  pub front : List ℕ
  pub out : List ℕ
  pub back : List ℕ
  pub cut : content ≡ front ++ (out ++ back)
  pub starts : length front ≡ offset
  pub image : IsImage z out key b

abbrev pub Finds : FileIndex → Oid → Entry → Type 0
Finds index key e = cdump.Index.find index key ≡ ok (some e)

-- A file that is open, with its content: what its index finds is there, and is what the map has.
pub record Holds (z : Zlib) (dir : Dir) (m : Contents) (f : File) (content : List ℕ) : Type 0 where
  pub there : lookup (data_name f.pos) dir ≡ some content
  pub sized : f.size ≡ length content
  pub below : length content < 2 ^ 32
  pub intact : f.failed ≡ false
  pub named : f.pos < 10000
  pub well : IsIndex f.index
  pub agrees :
      (key : Oid) (e : Entry)
      → IsOid key
      → Finds f.index key e
      → (b : Blob) × (m key ≡ some b) × StoredAt z content e.1.offset key b

abbrev pub FileHolds : Zlib → Dir → Contents → File → Type 0
FileHolds z dir m f = (content : List ℕ) × Holds z dir m f content

-- The latest file comes first.
abbrev pub Descends : List File → Type 0
Descends [] = Unit {0}
Descends (f ∷ fs) = All (λ g. g.pos < f.pos) fs × Descends fs

-- Some file's index finds the key.
abbrev pub Found : Oid → List File → Type 0
Found key [] = ⊥
Found key (f ∷ fs) = ((e : Entry) × Finds f.index key e) ⊎ Found key fs

-- While the pool is dirty, its latest file is open for writing.
abbrev pub FrontOpen : Bool → Bool → List File → Type 0
FrontOpen false newfile files = Unit {0}
FrontOpen true newfile [] = ⊥
FrontOpen true newfile (f ∷ fs) = (f.for_writing ≡ true) × (newfile ≡ false)

pub record Represents (z : Zlib) (pool : Pool) (m : Contents) : Type 0 where
  pub hold : All (FileHolds z pool.dir m) pool.files
  pub descends : Descends pool.files
  pub complete : (key : Oid) (b : Blob) → IsOid key → m key ≡ some b → Found key pool.files
  pub unset : pool.write_pos ≡ 0
  pub word : pool.limit < 2 ^ 32
  pub front_open : FrontOpen pool.dirty pool.first_newfile pool.files
