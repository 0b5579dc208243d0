-- ===== src/Pool/Lookup.antt =====
-- `find` in a pool that represents a map.
use cdump.Prelude.{
  ℕ, ◌≡◌, refl, sym, ap, ◌∙◌, inl, inr, subst, some-injective, Bool, false, Outcome, Option, none,
  some, List, [], ◌∷◌, ◌++◌, ok, length, drop, drop-append, All,
}
use cdump.Oid.{Oid, IsOid}
use cdump.Index.{Entry}
use cdump.Index.Find.{FindSpec, keys, find-FindSpec}
use cdump.Chunk.{Zlib, Chunk, Stream}
use cdump.Chunk.Format.{read}
use cdump.Pool.{Pool, read_entry, find_in, find}
use cdump.Pool.Files.{Dir, lookup, data_name, File}
use cdump.Pool.View.{Blob, Contents, Shows, Finds, Holds, FileHolds, Found, Represents}

read_entry-read :
    (stale : List ℕ) (dir : Dir) (entry : Entry) (file : File) (files : List File)
    (content : List ℕ) (d : Chunk) (s : Stream)
    → lookup (data_name file.pos) dir ≡ some content
    → read stale (record { rest = drop entry.1.offset content; failed = file.failed }) ≡ ok (d, s)
    → read_entry stale dir entry file files ≡ ok (some d, record file { failed = s.failed } ∷ files)
unfolding read_entry
read_entry-read stale dir entry file files content d s there got = rw (read_entry, there, got) refl

-- What `find` should answer for a key, from what the map has.
abbrev pub Reply : Zlib → Option Blob → Oid → Option Chunk → Type 0
Reply z none key none = Unit {0}
Reply z none key (some d) = ⊥
Reply z (some b) key none = ⊥
Reply z (some b) key (some d) = Shows z d key b

-- What the map and an answer of `find` have to do with each other.
abbrev pub Answer : Zlib → Contents → Oid → List File → Option Chunk → Type 0
Answer z m key files none = Found key files → ⊥
Answer z m key files (some d) = (b : Blob) × (m key ≡ some b) × Shows z d key b

module _ (z : Zlib) (stale : List ℕ) (frame : length stale ≡ 48) (dir : Dir) (m : Contents)
    (key : Oid) (good : IsOid key) where
  read_entry-Holds :
      (file : File) (files : List File) (content : List ℕ) (e : Entry)
      → Holds z dir m file content
      → Finds file.index key e
      → (d : Chunk) × (read_entry stale dir e file files ≡ ok (some d, file ∷ files))
        × ((b : Blob) × (m key ≡ some b) × Shows z d key b)
  read_entry-Holds file files content e h found =
      let (b, has, at) = h.agrees key e good found in
      let r = at.image stale at.back frame in
      (
        r.chunk,
        read_entry-read stale dir e file files content r.chunk
              (record { rest = r.behind; failed = false }) h.there
              (rw (h.intact, at.cut, drop-append at.front (at.out ++ at.back) e.1.offset at.starts)
                r.got)
            ∙ ap (λ (b : Bool). ok (some r.chunk, record file { failed = b } ∷ files))
                (sym h.intact),
        (b, has, r.shows),
      )

  -- The answer of the later files, when the first does not find the key.
  Answer-later :
      (file : File) (files : List File) (answer : Option Chunk)
      → cdump.Index.find file.index key ≡ ok none
      → Answer z m key files answer
      → Answer z m key (file ∷ files) answer
  Answer-later file files none missing a =
      λ f. elim f [ inl (e, found) ↦ clash e (sym missing ∙ found) | inr g ↦ a g ]
    where
      clash : (e : Entry) → ◌≡◌ {A = Outcome (Option Entry)} (ok none) (ok (some e)) → ⊥
      clash e h = cc
  Answer-later file files (some d) missing a = a

  abbrev Answers : List File → Type 0
  Answers files =
      (answer : Option Chunk) × (find_in stale dir key files ≡ ok (answer, files))
      × Answer z m key files answer

  find_in-cons :
      (file : File) (files : List File) (content : List ℕ)
      → Holds z dir m file content
      → Answers files
      → (r : Option Entry) × (cdump.Index.find file.index key ≡ ok r)
        × FindSpec (keys file.index) key r
      → Answers (file ∷ files)
  unfolding find_in
  find_in-cons file files content h rest (some e, found, s) =
      let (d, got, shown) = read_entry-Holds file files content e h found in
      (some d, rw (found) got, shown)
  find_in-cons file files content h (answer, got, a) (none, missing, s) =
      (answer, rw (missing, got) refl, Answer-later file files answer missing a)

  find_in-Answers : (files : List File) → All (FileHolds z dir m) files → Answers files
  unfolding find_in
  find_in-Answers [] h = (none, refl, λ f. f)
  find_in-Answers (file ∷ files) ((content, h), hs) =
      find_in-cons file files content h (find_in-Answers files hs)
        (find-FindSpec file.index key h.well good)

pub find_refines :
    (z : Zlib) (stale : List ℕ) (pool : Pool) (m : Contents) (key : Oid)
    → length stale ≡ 48
    → Represents z pool m
    → IsOid key
    → (answer : Option Chunk) × (find stale key pool ≡ ok (answer, pool))
      × Reply z (m key) key answer
unfolding find
find_refines z stale pool m key frame v good =
    let (answer, got, a) = find_in-Answers z stale frame pool.dir m key good pool.files v.hold in
    (answer, rw got refl, reply (m key) answer refl a)
  where
    reply :
        (o : Option Blob) (answer : Option Chunk)
        → m key ≡ o
        → Answer z m key pool.files answer
        → Reply z o key answer
    reply none none e a = tt
    reply none (some d) e (b, has, shown) = cc (e, has)
    reply (some b) none e a = a (v.complete key b good e)
    reply (some b) (some d) e (b', has, shown) =
        subst (Shows z d key) (some-injective b' b (sym has ∙ e)) shown
