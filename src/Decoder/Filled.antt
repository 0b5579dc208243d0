-- ===== src/Decoder/Filled.antt =====
-- The node of a backup that `decode_property` fills.
use cdump.Prelude.{
  ℕ, ◌≡◌, refl, ap, ◌∙◌, Bool, true, false, Option, none, some, List, [], ◌∷◌, Outcome, ok, ◌>>=◌,
  codes, All, if◌then◌else◌,
}
use cdump.Oid.{Oid, from_hex}
use cdump.Decoder.{decode_property}
use cdump.Decoder.Blocks.{Property, property_block, add_all, decode_property-block}
use cdump.Decoder.Properties.{assign, lookup-assign}
use cdump.Decoder.Walk.{BackNode, new_node, back_node, add_property, stoll}
use cdump.Pool.Directory.{same_name-path}
use cdump.Pool.Files.{same_name, lookup}

abbrev date_key : List ℕ
date_key = codes "_date"

abbrev hash_key : List ℕ
hash_key = codes "hash"

-- A property that the node takes: a date that `stoll` reads, a hash that `from_hex` reads, or
-- another key.
pub data Readable (key value : List ℕ) : Type 0 where
  a_date : same_name key date_key ≡ true → (n : ℕ) → stoll value ≡ ok n → Readable key value
  a_hash :
      same_name key date_key ≡ false
      → same_name key hash_key ≡ true
      → (oid : Oid) → from_hex value ≡ ok oid
      → Readable key value
  another : same_name key date_key ≡ false → same_name key hash_key ≡ false → Readable key value

abbrev over : Option (List ℕ) → Option (List ℕ) → Option (List ℕ)
over none old = old
over (some value) old = some value

-- The value of the last property with this key.
abbrev pub last_value : List ℕ → List Property → Option (List ℕ)
last_value k [] = none
last_value k ((key, value) ∷ ps) =
    over (last_value k ps) (if same_name key k then some value else none)

-- The properties that are neither the date nor the hash.
abbrev pub others : List Property → List Property
others [] = []
others ((key, value) ∷ ps) =
    let rest = others ps in
    if same_name key date_key
    then rest
    else if same_name key hash_key
    then rest
    else (key, value) ∷ rest

-- What was read from a value, if there was one, or what was there before.
abbrev pub Reads :
    {A : Type 0} → (List ℕ → Outcome A) → Option (List ℕ) → Option A → Option A → Type 0
Reads read none before after = after ≡ before
Reads {A} read (some value) before after = (a : A) × (read value ≡ ok a) × (after ≡ some a)

-- The node after the calls for these properties.
pub record Filled (ps : List Property) (start node : BackNode) : Type 0 where
  pub type_of : node.type_of ≡ start.type_of
  pub date : Reads stoll (last_value date_key ps) start.date node.date
  pub oid : Reads from_hex (last_value hash_key ps) (some start.oid) (some node.oid)
  pub props :
      (k : List ℕ) → lookup k node.props ≡ over (last_value k (others ps)) (lookup k start.props)

Reads-first :
    {A : Type 0} (read : List ℕ → Outcome A) (later : Option (List ℕ)) (value : List ℕ) (a : A)
    (before after : Option A)
    → read value ≡ ok a
    → Reads read later (some a) after
    → Reads read (over later (some value)) before after
Reads-first read none value a before after h r = (a, h, r)
Reads-first read (some later) value a before after h r = r

Reads-skipped :
    {A : Type 0} (read : List ℕ → Outcome A) (later : Option (List ℕ)) (before after : Option A)
    → Reads read later before after
    → Reads read (over later none) before after
Reads-skipped read none before after r = r
Reads-skipped read (some later) before after r = r

over_assoc :
    (later value before : Option (List ℕ))
    → over later (over value before) ≡ over (over later value) before
over_assoc none value before = refl
over_assoc (some later) value before = refl

over_if :
    (b : Bool) (value : List ℕ) (before : Option (List ℕ))
    → (if b then some value else before) ≡ over (if b then some value else none) before
over_if true value before = refl
over_if false value before = refl

date-not-hash : (key : List ℕ) → same_name key date_key ≡ true → same_name key hash_key ≡ false
unfolding same_name
date-not-hash key h = ap (λ k. same_name k hash_key) (same_name-path key date_key h)

-- One call, and those that follow it.
add_one :
    (key value : List ℕ) (ps : List Property) (s : BackNode)
    → Readable key value
    → ((s' : BackNode)
        → (node : BackNode) × (add_all back_node ps s' ≡ ok node) × Filled ps s' node)
    → (node : BackNode) × ((add_property key value s >>= add_all back_node ps) ≡ ok node)
      × Filled ((key, value) ∷ ps) s node
unfolding add_property
add_one key value ps s (a_date here n read) follow =
    let (node, added, f) = follow (record s { date = some n }) in
    (
      node,
      rw (here, read) added,
      record {
        type_of = f.type_of;
        date =
            rw here
              (Reads-first stoll (last_value date_key ps) value n s.date node.date read f.date);
        oid =
            rw (date-not-hash key here)
              (Reads-skipped from_hex (last_value hash_key ps) (some s.oid) (some node.oid) f.oid);
        props = λ k. rw here (f.props k);
      },
    )
add_one key value ps s (a_hash undated here oid read) follow =
    let (node, added, f) = follow (record s { oid = oid }) in
    (
      node,
      rw (undated, here, read) added,
      record {
        type_of = f.type_of;
        date = rw undated (Reads-skipped stoll (last_value date_key ps) s.date node.date f.date);
        oid = rw here (
            Reads-first from_hex (last_value hash_key ps) value oid (some s.oid) (some node.oid)
              read f.oid);
        props = λ k. rw (undated, here) (f.props k);
      },
    )
add_one key value ps s (another undated unhashed) follow =
    let (node, added, f) = follow (record s { props = assign key value s.props }) in
    (
      node,
      rw (undated, unhashed) added,
      record {
        type_of = f.type_of;
        date = rw undated (Reads-skipped stoll (last_value date_key ps) s.date node.date f.date);
        oid =
            rw unhashed
              (Reads-skipped from_hex (last_value hash_key ps) (some s.oid) (some node.oid) f.oid);
        props = λ k.
            rw (undated, unhashed)
              (f.props k
                ∙ ap (over (last_value k (others ps))) (
                    lookup-assign key value k s.props
                    ∙ over_if (same_name key k) value (lookup k s.props))
                ∙ over_assoc (last_value k (others ps))
                    (if same_name key k then some value else none) (lookup k s.props));
      },
    )

add_all-Filled :
    (ps : List Property) (s : BackNode)
    → All (λ p. Readable p.0 p.1) ps
    → (node : BackNode) × (add_all back_node ps s ≡ ok node) × Filled ps s node
add_all-Filled [] s read =
    (s, refl, record { type_of = refl; date = refl; oid = refl; props = λ k. refl })
add_all-Filled ((key, value) ∷ ps) s (first, later) =
    add_one key value ps s first (λ s'. add_all-Filled ps s' later)

-- Let every date among the properties be a number that `stoll` reads, and every hash a text that
-- `from_hex` reads. Then `decode_property` of the block of these properties into a new node ends in a
-- node with the type of the block, the last date and the last hash (no date, and the zero identifier,
-- if there is none), in whose map every other key among the properties has its last value. No key but
-- these is in the map.
pub decode_property-Filled :
    (type : List ℕ) (ps : List Property)
    → All (λ p. Readable p.0 p.1) ps
    → (node : BackNode) × (decode_property back_node (property_block type ps) new_node ≡ ok node)
      × Filled ps (record new_node { type_of = type }) node
decode_property-Filled type ps read =
    let (node, added, f) = add_all-Filled ps (record new_node { type_of = type }) read in
    (node, decode_property-block back_node type ps new_node ∙ added, f)
