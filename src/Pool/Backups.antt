-- ===== src/Pool/Backups.antt =====
-- `Pool::get_backups` of src/pool.cc reads the identifiers of `metadata/backups.txt`.
use cdump.Prelude.{
  ℕ, ◌/◌, ◌%◌, ◌<◌, ◌≡◌, refl, ◌∙◌, true, false, List, [], ◌∷◌, ◌++◌, some, ok, ◌>>=◌, append_assoc,
  append-nil, All, length, arith, codes,
}
use cdump.Oid.{Oid, IsOid, hex_text, to_hex}
use cdump.Oid.Hex.{from_hex-to_hex, length-hex_text}
use cdump.Bytes.{IsByte}
use cdump.Text.Digits.{put_hex-byte}
use cdump.Text.Scan.{is_space, digit_char_plain}
use cdump.Pool.Files.{Dir, lookup}
use cdump.Pool.Open.{backups_loop, get_backups}

abbrev IsSpace : ℕ → Type 0
IsSpace c = is_space c ≡ true

abbrev IsPrinted : ℕ → Type 0
IsPrinted c = is_space c ≡ false

-- An identifier and the white space behind it.
abbrev pub IsLine : Oid × List ℕ → Type 0
IsLine line = IsOid line.0 × All IsSpace line.1 × (0 < length line.1)

abbrev pub backup_lines : List (Oid × List ℕ) → List ℕ
backup_lines [] = []
backup_lines (line ∷ lines) = to_hex line.0 ++ (line.1 ++ backup_lines lines)

abbrev pub identifiers : List (Oid × List ℕ) → List Oid
identifiers [] = []
identifiers (line ∷ lines) = line.0 ∷ identifiers lines

hex_text-IsPrinted : (bs : List ℕ) → All IsByte bs → All IsPrinted (hex_text bs)
unfolding hex_text
hex_text-IsPrinted [] h = tt
hex_text-IsPrinted (b ∷ bs) h = rw (put_hex-byte b h.0) (
  (digit_char_plain (b / 16) (omega arith)).0,
  ((digit_char_plain (b % 16) (omega arith)).0, hex_text-IsPrinted bs h.1),
)

-- A word is gathered.
backups_loop-word :
    (front w rest : List ℕ)
    → All IsPrinted w
    → backups_loop front (w ++ rest) ≡ backups_loop (front ++ w) rest
unfolding backups_loop
backups_loop-word front [] rest h = rw append-nil refl
backups_loop-word front (c ∷ w) rest h =
    rw (h.0) (backups_loop-word (front ++ c ∷ []) w rest h.1 ∙ rw append_assoc refl)

-- White space between words is skipped.
backups_loop-space :
    (g rest : List ℕ) → All IsSpace g → backups_loop [] (g ++ rest) ≡ backups_loop [] rest
unfolding backups_loop
backups_loop-space [] rest h = refl
backups_loop-space (c ∷ g) rest h = rw (h.0) (backups_loop-space g rest h.1)

length-to_hex : (o : Oid) → IsOid o → length (to_hex o) ≡ 40
unfolding to_hex
length-to_hex o v = omega (arith, length-hex_text o.raw v.bytes, v.size)

-- The identifier of a word that ends, and those behind it.
backups_loop-end :
    (o : Oid) (g rest : List ℕ)
    → IsOid o
    → All IsSpace g
    → 0 < length g
    → backups_loop (to_hex o) (g ++ rest) ≡ (backups_loop [] rest >>= λ os. ok (o ∷ os))
unfolding backups_loop
backups_loop-end o [] rest v h n = absurd (omega arith)
backups_loop-end o (c ∷ g) rest v h n =
    rw (h.0, length-to_hex o v, from_hex-to_hex o v, backups_loop-space g rest h.1) refl

backups_loop-lines :
    (lines : List (Oid × List ℕ))
    → All IsLine lines
    → backups_loop [] (backup_lines lines) ≡ ok (identifiers lines)
backups_loop-lines [] h = unfold backups_loop in refl
backups_loop-lines ((o, g) ∷ lines) ((v, space, some_space), h) =
    backups_loop-word [] (to_hex o) (g ++ backup_lines lines)
      (unfold to_hex in hex_text-IsPrinted o.raw v.bytes)
    ∙ backups_loop-end o g (backup_lines lines) v space some_space
    ∙ rw (backups_loop-lines lines h) refl

-- If `metadata/backups.txt` has identifiers of 20 bytes as `to_hex` writes them, each followed by white
-- space, and perhaps white space in front, then `get_backups` returns these identifiers in their order.
pub get_backups-lines :
    (dir : Dir) (front : List ℕ) (lines : List (Oid × List ℕ))
    → All IsSpace front
    → All IsLine lines
    → lookup (codes "metadata/backups.txt") dir ≡ some (front ++ backup_lines lines)
    → get_backups dir ≡ ok (identifiers lines)
unfolding get_backups
get_backups-lines dir front lines space h there =
    rw there (backups_loop-space front (backup_lines lines) space ∙ backups_loop-lines lines h)
