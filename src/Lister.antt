-- ===== src/Lister.antt =====
-- main/cdump.cc: the visitor that lists the backups of a pool, and the main program.
pub mod Order
pub mod Shown
use cdump.Prelude.{
  ℕ, zero, suc, ◌+◌, ◌-◌, ◌%◌, ◌^◌, Bool, false, Option, List, [], ◌∷◌, ◌++◌, Outcome, ok,
  undefined, ◌>>=◌, codes, length, ltb, if◌then◌else◌,
}
use cdump.Text.Digits.{digits}
use cdump.Oid.{Oid, to_hex}
use cdump.Chunk.{Zlib}
use cdump.Decoder.Properties.{PropertyMap}
use cdump.Decoder.Walk.{Visited, pruned, walk}
use cdump.Pool.{Pool, close}
use cdump.Pool.Files.{Dir}
use cdump.Pool.Open.{Parsed, open_pool, get_backups}

-- `Lister::Node`; the date is a 64-bit pattern.
pub record Node : Type 0 where
  pub self_oid : Oid
  pub date : ℕ
  pub props : PropertyMap

-- `Lister::backup`, on the nodes so far. `peek_oid` looks at the front of the stack.
unfoldable pub backup : List Oid → Oid → ℕ → PropertyMap → List Node → Outcome (Visited (List Node))
backup [] root date props nodes = undefined
backup (self ∷ oids) root date props nodes =
    ok (pruned (nodes ++ record { self_oid = self; date = date; props = props } ∷ []))

-- The comparison of `sort`, of signed dates.
unfoldable pub earlier : Node → Node → Bool
earlier a b = ltb ((a.date + 2 ^ 63) % 2 ^ 64) ((b.date + 2 ^ 63) % 2 ^ 64)

-- `<<` of an `int64_t`.
unfoldable pub put_signed : ℕ → List ℕ
unfolding digits
put_signed date =
    if ltb date (2 ^ 63) then digits 10 32 date else b'-' ∷ digits 10 32 (2 ^ 64 - date)

-- The inner loop of `show`.
unfoldable pub show_props : PropertyMap → List ℕ
show_props [] = []
show_props (kv ∷ props) = b' ' ∷ kv.0 ++ (b'=' ∷ kv.1 ++ show_props props)

unfoldable pub show_node : Node → List ℕ
unfolding put_signed show_props to_hex
show_node ent =
    to_hex ent.self_oid ++ (b' ' ∷ put_signed ent.date ++ (show_props ent.props ++ 10 ∷ []))

-- The outer loop of `show`, over sorted nodes.
unfoldable pub show_nodes : List Node → List ℕ
unfolding show_node
show_nodes [] = []
show_nodes (ent ∷ nodes) = show_node ent ++ show_nodes nodes

module _ (z : Zlib) (stale : List ℕ) where
  -- The loop of `main`. Each backup is walked with `fuel`; 1 is enough, since `backup` always prunes.
  unfoldable pub walk_backups :
      ℕ → List Oid → Pool → List Oid → List Node → Outcome (Pool × List Oid × List Node)
  walk_backups fuel [] pool oids nodes = ok (pool, oids, nodes)
  walk_backups fuel (oid ∷ backups) pool oids nodes = do
    (pool, oids, nodes) ← walk z stale backup fuel oid pool oids nodes
    walk_backups fuel backups pool oids nodes

-- `sort` is `std::sort`, which leaves open how entries of one date are ordered.
module _ (sort : (Node → Node → Bool) → List Node → List Node) where
  -- `show`
  unfoldable pub show : List Node → List ℕ
  unfolding show_nodes
  show nodes = show_nodes (sort earlier nodes)

  module _ (z : Zlib) (stale : List ℕ) where
    -- `main` once the pool is open: what it prints in all, and the pool that its destructor has flushed.
    unfoldable pub run : ℕ → Pool → Outcome (List ℕ × Pool)
    unfolding show walk_backups digits close
    run fuel pool = do
      backups ← get_backups pool.dir
      (pool, _, nodes) ← walk_backups z stale fuel backups pool [] []
      pool ← close pool
      ok (
        codes "Hello world\n"
            ++ (codes "There are "
                ++ (digits 10 32 (length backups) ++ (codes " backups\n" ++ show nodes))),
        pool,
      )

    -- `main`, in the directory `test-pool`. `parse`, `opened`, `fd` and `res` are those of `open_pool`.
    unfoldable pub main :
        (Option (List ℕ) → Outcome Parsed) → Bool → ℕ → ℕ → ℕ → Dir → Outcome (List ℕ × Pool)
    unfolding run
    main parse opened fd res fuel dir = do
      pool ← open_pool parse opened fd res dir false
      run fuel pool
