-- ===== src/Tests/Containers.antt =====
-- Trees and maps at work: numbers in a splay tree, names as keys of a map, a map with scopes.
use lean.Base.{
  if◌then◌else◌, List, [], none, refl, some, ℕ, ◌∷◌, ◌≡◌, IsWeakOrder, by_key-IsWeakOrder,
  compare-IsTotalOrder, compare, ==_iff, ◌==◌,
}
use lean.Util.Name.{Name, quick_cmp, is_eq}
use lean.Util.Name.Order.{quick_cmp-IsTotalOrder}
use lean.Util.SplayTree.{Tree, leaf, node, to_buffer}
use lean.Util.SplayTree.Elements.{elements}
use lean.Util.SplayTree.Sorted.{IsSorted}
use lean.Util.SplayTree.Runs.{Call, insert_call, erase_call, find_call, run, replay, run_refines}
use lean.Util.SplayMap.{entry_cmp, insert, find, erase}
use lean.Util.SplayMap.Update.{find-update}
use lean.Util.ScopedMap.{clear}
use lean.Util.ScopedMap.Runs as Scoped
use lean.Tests.Names.{name_ab, name_c1}

abbrev numbers : Tree ℕ
numbers = node (node leaf 2 leaf) 4 (node leaf 7 leaf)

abbrev changes : List (Call ℕ)
changes = insert_call 5 ∷ find_call 7 ∷ erase_call 4 ∷ find_call 4 ∷ []

compare-IsWeakOrder : IsWeakOrder compare
compare-IsWeakOrder = by_key-IsWeakOrder (λ n. n) compare compare-IsTotalOrder

numbers-IsSorted : IsSorted compare (to_buffer numbers [])
unfolding to_buffer
numbers-IsSorted = ((refl, (refl, tt)), ((refl, tt), (tt, tt)))

run_refines_example :
    ((run compare changes numbers).0 ≡ (replay compare changes (to_buffer numbers [])).0)
    × (to_buffer (run compare changes numbers).1 []
        ≡ (replay compare changes (to_buffer numbers [])).1)
    × IsSorted compare (to_buffer (run compare changes numbers).1 [])
run_refines_example = run_refines compare compare-IsWeakOrder changes numbers numbers-IsSorted

run-changes : (run compare changes numbers).0 ≡ some 7 ∷ none ∷ []
unfolding run
run-changes = refl

-- a.b to 1.
abbrev ages : Tree (Name × ℕ)
ages = node leaf (name_ab, 1) leaf

ages-IsSorted : IsSorted (entry_cmp quick_cmp) (elements ages)
unfolding elements
ages-IsSorted = (tt, tt)

find-update_example :
    ((find quick_cmp 0 (insert quick_cmp ages name_c1 5) name_ab).0
      ≡ (if is_eq (quick_cmp name_ab name_c1) then some 5 else (find quick_cmp 0 ages name_ab).0))
    × ((find quick_cmp 0 (erase quick_cmp 0 ages name_c1) name_ab).0
        ≡ (if is_eq (quick_cmp name_ab name_c1) then none else (find quick_cmp 0 ages name_ab).0))
find-update_example =
    find-update quick_cmp quick_cmp-IsTotalOrder ages name_c1 name_ab 5 0 ages-IsSorted

-- The second scope is closed, and the change of 1 in it is taken back.
abbrev scopes : List (Scoped.Call ℕ ℕ)
scopes =
    Scoped.insert_call 1 10
    ∷ Scoped.push_call
    ∷ Scoped.insert_call 2 20
    ∷ Scoped.push_call
    ∷ Scoped.insert_call 1 11
    ∷ Scoped.erase_call 2
    ∷ Scoped.find_call 1
    ∷ Scoped.pop_call 1
    ∷ Scoped.find_call 1
    ∷ Scoped.find_call 2
    ∷ []

run-clear_example : Scoped.run ◌==◌ scopes clear ≡ Scoped.replay ◌==◌ scopes (λ k. none) []
run-clear_example = Scoped.run-clear ◌==◌ ==_iff scopes
