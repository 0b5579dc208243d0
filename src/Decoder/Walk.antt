-- ===== src/Decoder/Walk.antt =====
-- `BackNode` and `BackupWalk` of src/decoder.cc. The derived visitor's `backup` is a parameter.
use cdump.Prelude.{
  ℕ, zero, suc, ◌+◌, ◌*◌, ◌-◌, ◌%◌, ◌^◌, ◌≡◌, ◌≢◌, refl, ap, ◌∙◌, Bool, Bool-cases, inl, inr, true,
  false, ◌&&◌, Option, none, some, List, [], ◌∷◌, Outcome, ok, throw, undefined, invalid_argument,
  out_of_range, runtime_error, ◌>>=◌, ok->>=, codes, take, drop, leb, ltb, ◌==◌, if◌then◌else◌,
}
use cdump.Text.Scan.{skip_space}
use cdump.Kind.{equals, load_kind}
use cdump.Oid.{Oid, zero_oid, from_hex}
use cdump.Chunk.{Zlib, Chunk, chunk_kind, chunk_data, size}
use cdump.Decoder.Properties.{PropertyMap, assign}
use cdump.Decoder.{Visitor, decode_property}
use cdump.Pool.{Pool, find}
use cdump.Pool.Files.{same_name}

-- The decimal digits at the front of a text, behind those of value `acc`; `none` if there are none.
unfoldable pub dec_prefix : Option ℕ → List ℕ → Option ℕ
dec_prefix acc [] = acc
dec_prefix acc (c ∷ cs) =
    let more = dec_prefix (some ((elim acc [ none ↦ 0 | some n ↦ n * 10 ]) + (c - 48))) cs in
    if leb 48 c && leb c 57 then more else acc

-- `std::stoll`, in base 10: a 64-bit pattern.
unfoldable pub signed_value : Bool → Option ℕ → Outcome ℕ
signed_value negative none = throw (invalid_argument "stoll")
signed_value true (some n) =
    if ltb (2 ^ 63) n then throw (out_of_range "stoll") else ok ((2 ^ 64 - n) % 2 ^ 64)
signed_value false (some n) = if leb (2 ^ 63) n then throw (out_of_range "stoll") else ok n

unfoldable pub stoll_sign : List ℕ → Outcome ℕ
unfolding signed_value dec_prefix
stoll_sign [] = signed_value false none
stoll_sign (c ∷ cs) =
    if c == b'-'
    then signed_value true (dec_prefix none cs)
    else if c == b'+'
    then signed_value false (dec_prefix none cs)
    else signed_value false (dec_prefix none (c ∷ cs))

unfoldable pub stoll : List ℕ → Outcome ℕ
unfolding stoll_sign skip_space
stoll text = stoll_sign (skip_space text)

-- `BackNode`; `date` is `none` as long as it was not assigned.
pub record BackNode : Type 0 where
  pub type_of : List ℕ
  pub oid : Oid
  pub date : Option ℕ
  pub props : PropertyMap

abbrev pub new_node : BackNode
new_node = record { type_of = []; oid = zero_oid; date = none; props = [] }

-- `BackNode::add_property`
unfoldable pub add_property : List ℕ → List ℕ → BackNode → Outcome BackNode
unfolding same_name stoll assign
add_property key value node =
    if same_name key (codes "_date")
    then (do date ← stoll value; ok (record node { date = some date }))
    else if same_name key (codes "hash")
    then (do oid ← from_hex value; ok (record node { oid = oid }))
    else ok (record node { props = assign key value node.props })

abbrev pub back_node : Visitor BackNode
back_node = record {
  set_type = λ text node. ok (record node { type_of = text });
  add_property = add_property;
}

-- How the visitor's `backup` ends, where it does not throw anything else: it returns, or throws Prune.
pub data Visited (S : Type 0) : Type 0 where
  returned pruned : S → Visited S

-- The arguments of `backup`: the stack of identifiers, `oid`, `date`, `props`.
abbrev pub Backup : Type 0 → Type 0
Backup S = List Oid → Oid → ℕ → PropertyMap → S → Outcome (Visited S)

module _ {S : Type 0} (z : Zlib) (stale : List ℕ) (backup : Backup S) where
  -- `decode_property` into a new node; reading a date that was not assigned is undefined.
  unfoldable pub read_node : Chunk → Outcome (BackNode × ℕ)
  unfolding decode_property chunk_data
  read_node chunk = do
    (text, _) ← chunk_data z chunk
    node ← decode_property back_node (take (size chunk) text) new_node
    elim node.date [ none ↦ undefined | some date ↦ ok (node, date) ]

  -- What `operator()` makes of the visitor's answer; `deeper` walks on to the child.
  unfoldable pub after_backup :
      (S → Outcome (Pool × List Oid × S))
      → Pool
      → List Oid
      → Visited S
      → Outcome (Pool × List Oid × S)
  after_backup deeper pool oids (pruned s) = ok (pool, drop 1 oids, s)
  after_backup deeper pool oids (returned s) = do
    (pool, oids, s) ← deeper s
    ok (pool, drop 1 oids, s)

  -- `walk_back`, called with the stack that has the chunk's identifier. `deeper` is `operator()`.
  unfoldable pub walk_back :
      (Oid → S → Outcome (Pool × List Oid × S))
      → Chunk
      → Pool
      → List Oid
      → S
      → Outcome (Pool × List Oid × S)
  unfolding read_node after_backup
  walk_back deeper chunk pool oids s = do
    (node, date) ← read_node chunk
    visited ← backup oids node.oid date node.props s
    after_backup (deeper node.oid) pool oids visited

  -- The rest of `operator()`, from what `find` returned. `back` is the one kind with a handler.
  unfoldable pub walk_found :
      (Chunk → Outcome (Pool × List Oid × S)) → Option Chunk → Outcome (Pool × List Oid × S)
  walk_found handler none = throw (runtime_error "Chunk missing from pool")
  walk_found handler (some chunk) =
      if equals (chunk_kind chunk) (load_kind (codes "back"))
      then handler chunk
      else throw (runtime_error "Unsupported chunk kind")

  -- `operator()`, on fuel; `undefined` also stands for a walk that has run out of it.
  unfoldable pub walk : ℕ → Oid → Pool → List Oid → S → Outcome (Pool × List Oid × S)
  unfolding walk_back walk_found
  walk zero root pool oids s = undefined
  walk (suc fuel) root pool oids s = do
    (found, pool) ← find stale root pool
    walk_found
        (λ chunk. walk_back (λ o s. walk fuel o pool (root ∷ oids) s) chunk pool (root ∷ oids) s)
        found

  -- No result of this call is a return.
  abbrev Fails : Outcome (Pool × List Oid × S) → Type 0
  Fails m = (r : Pool × List Oid × S) → m ≢ ok r

  module _
      (prunes_never : (oids : List Oid) (o : Oid) (date : ℕ) (props : PropertyMap) (s s' : S)
        → backup oids o date props s ≢ ok (pruned s')) where
    after_backup-Fails :
        (deeper : S → Outcome (Pool × List Oid × S)) (pool : Pool) (oids : List Oid) (a : Visited S)
        → ((s : S) → Fails (deeper s))
        → ((s : S) → a ≢ pruned s)
        → Fails (after_backup deeper pool oids a)
    unfolding after_backup
    after_backup-Fails deeper pool oids (pruned s) d p r h = p s refl
    after_backup-Fails deeper pool oids (returned s) d p r h =
        let (q, _, e) = ok->>= _ (deeper s) h in d s q e

    walk_back-Fails :
        (deeper : Oid → S → Outcome (Pool × List Oid × S)) (chunk : Chunk) (pool : Pool)
        (oids : List Oid) (s : S)
        → ((o : Oid) (s : S) → Fails (deeper o s))
        → Fails (walk_back deeper chunk pool oids s)
    unfolding walk_back
    walk_back-Fails deeper chunk pool oids s d r h =
        let ((node, date), e, _) = ok->>= _ (read_node chunk) h in
        let (visited, rest, answered) = ok->>= _ (backup oids node.oid date node.props s) e in
        after_backup-Fails (deeper node.oid) pool oids visited (d node.oid)
          (λ s' is. prunes_never oids node.oid date node.props s s' (answered ∙ ap ok is)) r rest

    walk_found-Fails :
        (handler : Chunk → Outcome (Pool × List Oid × S)) (found : Option Chunk)
        → ((chunk : Chunk) → Fails (handler chunk))
        → Fails (walk_found handler found)
    unfolding walk_found
    walk_found-Fails handler none d r h = cc
    walk_found-Fails handler (some chunk) d r h =
        elim (Bool-cases (equals (chunk_kind chunk) (load_kind (codes "back")))) [
          | inl e ↦ d chunk r (rw e at h)
          | inr e ↦ apart r (rw e at h)
        ]
      where
        apart :
            (r : Pool × List Oid × S) → throw (runtime_error "Unsupported chunk kind") ≡ ok r → ⊥
        apart r h = cc

    -- If the visitor's `backup` never throws Prune, then no walk returns, from any root and whatever the
    -- pool has: it throws, meets undefined behaviour or goes on for ever.
    pub walk_fails :
        (fuel : ℕ) (root : Oid) (pool : Pool) (oids : List Oid) (s : S) (r : Pool × List Oid × S)
        → walk fuel root pool oids s ≢ ok r
    unfolding walk
    walk_fails zero root pool oids s r h = cc
    walk_fails (suc fuel) root pool oids s r h =
        let ((found, pool'), e, _) = ok->>= _ (find stale root pool) h in
        walk_found-Fails _ found
          (λ chunk.
            walk_back-Fails _ chunk pool' (root ∷ oids) s
              (λ o s. walk_fails fuel o pool' (root ∷ oids) s))
          r e
