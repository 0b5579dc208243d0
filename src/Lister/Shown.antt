-- ===== src/Lister/Shown.antt =====
-- What the main program shows of a pool that represents a map.
use cdump.Prelude.{
  ℕ, suc, ◌≡◌, refl, ◌∙◌, Bool, true, false, Option, none, some, List, [], ◌∷◌, ◌++◌, ok,
  append_assoc, append-nil, All, length, take_all, codes, ==_iff,
}
use cdump.Kind.{Kind, equals, load_kind}
use cdump.Oid.{Oid, IsOid}
use cdump.Chunk.{Zlib, Chunk}
use cdump.Decoder.{decode_property}
use cdump.Decoder.Walk.{
  BackNode, new_node, back_node, read_node, after_backup, walk_back, walk_found, walk,
}
use cdump.Lister.{Node, backup, walk_backups, earlier, show_nodes, show, run}
use cdump.Lister.Order.{earlier-IsStrictWeak}
use cdump.Prelude.Sorting.{IsSorted, IsStdSort}
use cdump.Pool.Open.{get_backups}
use cdump.Text.Digits.{digits}
use mathlib.Core.List.{Perm}
use cdump.Pool.{Pool, find, flush, close}
use cdump.Pool.Lookup.{Reply, find_refines}
use cdump.Pool.View.{Contents, Shows, Represents}

flush-clean : (pool : Pool) → pool.dirty ≡ false → flush pool ≡ ok pool
unfolding flush
flush-clean pool clean = simp clean

abbrev pub back_kind : Kind
back_kind = load_kind (codes "back")

back_found : equals back_kind back_kind ≡ true
unfolding equals
back_found = (==_iff back_kind.raw back_kind.raw).1 refl

-- The map has a backup for the identifier: a chunk of kind "back" whose text is a block of properties,
-- which fills a node, with its date.
pub record IsBackup (m : Contents) (oid : Oid) : Type 0 where
  pub twenty : IsOid oid
  pub text : List ℕ
  pub has : m oid ≡ some (back_kind, text)
  pub node : BackNode
  pub decoded : decode_property back_node text new_node ≡ ok node
  pub date : ℕ
  pub dated : node.date ≡ some date

-- The node that is listed.
abbrev pub listed : (m : Contents) (oid : Oid) → IsBackup m oid → Node
listed m oid b = record { self_oid = oid; date = b.date; props = b.node.props }

abbrev pub all_listed : (m : Contents) (oids : List Oid) → All (IsBackup m) oids → List Node
all_listed m [] h = []
all_listed m (oid ∷ oids) (b, h) = listed m oid b ∷ all_listed m oids h

read_node-IsBackup :
    (z : Zlib) (stale : List ℕ) (m : Contents) (oid : Oid) (b : IsBackup m oid) (d : Chunk)
    → Shows z d oid (back_kind, b.text)
    → read_node z stale backup d ≡ ok (b.node, b.date)
unfolding read_node
read_node-IsBackup z stale m oid b d s =
    simp (s.text_back, s.same_size, take_all b.text (length b.text) refl, b.decoded, b.dated)

module _ (z : Zlib) (stale : List ℕ) (frame : length stale ≡ 48) (pool : Pool) (m : Contents)
    (v : Represents z pool m) where
  -- `find` of a backup's identifier answers its chunk.
  find-IsBackup :
      (oid : Oid) (b : IsBackup m oid)
      → (d : Chunk) × (find stale oid pool ≡ ok (some d, pool)) × Shows z d oid (back_kind, b.text)
  find-IsBackup oid b = answered (find_refines z stale pool m oid frame v b.twenty)
    where
      answered :
          (answer : Option Chunk) × (find stale oid pool ≡ ok (answer, pool))
            × Reply z (m oid) oid answer
          → (d : Chunk) × (find stale oid pool ≡ ok (some d, pool))
            × Shows z d oid (back_kind, b.text)
      answered (none, got, r) = absurd (rw b.has at r)
      answered (some d, got, r) = (d, got, rw b.has at r)

  -- One walk: the backup's node is added, the stack is as before.
  walk-IsBackup :
      (fuel : ℕ) (oid : Oid) (b : IsBackup m oid) (nodes : List Node)
      → walk z stale backup (suc fuel) oid pool [] nodes
        ≡ ok (pool, [], nodes ++ listed m oid b ∷ [])
  unfolding walk walk_found walk_back after_backup backup
  walk-IsBackup fuel oid b nodes =
      let (d, got, s) = find-IsBackup oid b in
      rw (got, s.same_kind, back_found, read_node-IsBackup z stale m oid b d s) refl

  walk_backups-all_listed :
      (fuel : ℕ) (oids : List Oid) (h : All (IsBackup m) oids) (nodes : List Node)
      → walk_backups z stale (suc fuel) oids pool [] nodes
        ≡ ok (pool, [], nodes ++ all_listed m oids h)
  unfolding walk_backups
  walk_backups-all_listed fuel [] h nodes = rw append-nil refl
  walk_backups-all_listed fuel (oid ∷ oids) (b, h) nodes =
      rw (walk-IsBackup fuel oid b nodes)
        (walk_backups-all_listed fuel oids h (nodes ++ listed m oid b ∷ []) ∙ rw append_assoc refl)

-- Let a clean pool represent a map that has a backup (IsBackup) for every identifier of `backups.txt`, and
-- `std::sort` keep its promise. Then the main program ends, and needs no more than one step of fuel: it
-- prints its two lines and a line for every backup, each once, in the order of the signed dates, and
-- leaves the pool as it is.
pub run-all_listed :
    (z : Zlib) (stale : List ℕ) (sort : (Node → Node → Bool) → List Node → List Node) (fuel : ℕ)
    (pool : Pool) (m : Contents) (oids : List Oid)
    → length stale ≡ 48
    → IsStdSort sort
    → Represents z pool m
    → pool.dirty ≡ false
    → get_backups pool.dir ≡ ok oids
    → (h : All (IsBackup m) oids)
    → (nodes : List Node) × Perm nodes (all_listed m oids h)
      × IsSorted earlier nodes
      × (run sort z stale (suc fuel) pool
          ≡ ok (
            codes "Hello world\n"
                ++ (codes "There are "
                    ++ (digits 10 32 (length oids) ++ (codes " backups\n" ++ show_nodes nodes))),
            pool,
          ))
unfolding run show close
run-all_listed z stale sort fuel pool m oids frame std v clean known h = (
  sort earlier (all_listed m oids h),
  std.permutes earlier (all_listed m oids h) earlier-IsStrictWeak,
  std.sorts earlier (all_listed m oids h) earlier-IsStrictWeak,
  rw (known, walk_backups-all_listed z stale frame pool m v fuel oids h [])
      (rw (flush-clean pool clean) refl),
)
