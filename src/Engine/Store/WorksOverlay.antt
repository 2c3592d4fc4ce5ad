-- ===== src/Engine/Store/WorksOverlay.antt =====
-- The works of the validators after `opoc_store_operations`.
use uomi_node.Prelude.{
  Bool, true, false, Option, none, some, ◌≡◌, refl, [], ◌∷◌, arith, ◌==◌, if◌then◌else◌,
}
use uomi_node.Prelude.Key.{nat_key, pair_key}
use uomi_node.Prelude.Lists.{Distinct}
use uomi_node.Prelude.Map.{Map, lookup, keys, put, remove, lookup-put, lookup-remove, contains-keys}
use uomi_node.Engine.{AccountId, RequestId, Storage}
use uomi_node.Engine.Selection.{works_or_empty}
use uomi_node.Engine.Store.{store_works, store_works_of}

-- The entry that a works operation leaves.
abbrev pub works_after : Option Bool → Option Bool → Option Bool
works_after none old = old
works_after (some true) old = some true
works_after (some false) old = none

-- The works maps of all validators have distinct keys.
abbrev pub WorksDistinct : Map AccountId (Map RequestId Bool) → Type 0
WorksDistinct [] = Unit
WorksDistinct ((a, works) ∷ m) = Distinct (keys works) × WorksDistinct m

lookup-store_works_of :
    (a : AccountId) (works : Map RequestId Bool) (s : Storage) (b : AccountId) (r : RequestId)
    → Distinct (keys works)
    → lookup (b, r) (store_works_of a works s).nodes_works ≡ (
        if a == b
        then works_after (lookup r works) (lookup (b, r) s.nodes_works)
        else lookup (b, r) s.nodes_works)
unfolding store_works_of lookup
lookup-store_works_of a [] s b r d = ground arith
lookup-store_works_of a ((q, true) ∷ works) s b r d = ground (
  arith,
  lookup-store_works_of a works (record s { nodes_works = put (a, q) true s.nodes_works }) b r d.1,
  lookup-put (a, q) (b, r) true s.nodes_works,
  contains-keys works q,
  d.0,
)
lookup-store_works_of a ((q, false) ∷ works) s b r d = ground (
  arith,
  lookup-store_works_of a works (record s { nodes_works = remove (a, q) s.nodes_works }) b r d.1,
  lookup-remove (a, q) (b, r) s.nodes_works,
  contains-keys works q,
  d.0,
)

pub lookup-store_works :
    (m : Map AccountId (Map RequestId Bool)) (s : Storage) (a : AccountId) (r : RequestId)
    → Distinct (keys m)
    → WorksDistinct m
    → lookup (a, r) (store_works m s).nodes_works
      ≡ works_after (lookup r (works_or_empty (lookup a m))) (lookup (a, r) s.nodes_works)
unfolding store_works lookup
lookup-store_works [] s a r d w = refl
lookup-store_works ((b, works) ∷ m) s a r d w = ground (
  arith,
  lookup-store_works m (store_works_of b works s) a r d.1 w.1,
  lookup-store_works_of b works s a r w.0,
  contains-keys m b,
  d.0,
)
