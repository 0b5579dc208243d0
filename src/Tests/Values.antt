-- ===== src/Tests/Values.antt =====
-- Concrete values, and tests that decide what the theorems ask of them.
use cdump.Prelude.{
  ℕ, ◌+◌, ◌*◌, ◌<◌, All-append, ◌≡◌, refl, Bool, true, false, ◌&&◌, List, [], ◌∷◌, ◌++◌, All, ltb,
  ltb→lt, replicate,
}
use cdump.Bytes.{IsByte}
use cdump.Kind.{Kind}
use cdump.Oid.{Oid, IsOid}

abbrev pub all_bytes : List ℕ → Bool
all_bytes [] = true
all_bytes (b ∷ bs) = ltb b 256 && all_bytes bs

and_left : (a b : Bool) → (a && b) ≡ true → a ≡ true
and_left true b h = refl
and_left false b h = h

and_right : (a b : Bool) → (a && b) ≡ true → b ≡ true
and_right true b h = h
and_right false b h = cc

pub all_bytes_sound : (bs : List ℕ) → all_bytes bs ≡ true → All IsByte bs
all_bytes_sound [] h = tt
all_bytes_sound (b ∷ bs) h = (
  ltb→lt b 256 (and_left (ltb b 256) (all_bytes bs) h),
  all_bytes_sound bs (and_right (ltb b 256) (all_bytes bs) h),
)

-- Identifiers that differ in the first byte and in the last.
abbrev pub oid : ℕ → ℕ → Oid
oid first last = record { raw = first ∷ replicate 18 7 ++ (last ∷ []) }

pub oid-IsOid : (first last : ℕ) → first < 256 → last < 256 → IsOid (oid first last)
oid-IsOid first last f l = record {
  size = refl;
  bytes = (
    f,
    All-append IsByte (replicate 18 7) (last ∷ []) (all_bytes_sound (replicate 18 7) refl) (l, tt),
  );
}

abbrev pub blob : Kind
blob = record { raw = 98 + 256 * (108 + 256 * (111 + 256 * 98)) }

abbrev pub back : Kind
back = record { raw = 98 + 256 * (97 + 256 * (99 + 256 * 107)) }
