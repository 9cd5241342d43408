-- ===== src/Tests/Maps.antt =====
-- A table that grows from no cells, with the handles of tasks as its keys.
use c_async_await.Base.{ℕ, ◌≡◌, ◌≤◌, refl, none, some, [], arith}
use c_async_await.HashMap.{HashNode, HashMap, NodeRef, insert, find, remove, expand}
use c_async_await.HashMap.Map.{Represents, ref, update, find-Represents, remove-Represents}
use c_async_await.HashMap.Expand.{expand-Represents}
use c_async_await.HashMap.Insert.{insert_new-Represents}
use c_async_await.GraphScheduler.{use_graph_scheduler, int_size}
use c_async_await.GraphScheduler.Invariant.{Table, use_graph_scheduler-IsSound, handle_keys}
use c_async_await.Tests.{value_or, landed}

abbrev map0 : HashMap ℕ ℕ
unfolding use_graph_scheduler
map0 = use_graph_scheduler.handle_to_node

map0-Represents : Represents handle_keys map0 (λ _. none)
unfolding map0 use_graph_scheduler
map0-Represents = use_graph_scheduler-IsSound.table

abbrev map1 : HashMap ℕ ℕ
unfolding insert
map1 = (value_or (map0, (0, 0)) (insert map0 1 int_size)).0

abbrev node1 : HashNode ℕ ℕ
node1 = record { key = 1; key_size = int_size; val = none; hash = 1 }

abbrev table1 : Table
table1 = update handle_keys (λ _. none) 1 (some node1)

insert_new-Represents_example :
    (h' : HashMap ℕ ℕ) × (rf : NodeRef) × (insert map0 1 int_size ≡ some (h', rf))
    × Represents handle_keys h' table1
    × (rf ≡ ref handle_keys h' 1)
    × (h'.cap ≤ 10)
    × (h'.node_max ≤ 1)
    × (map0.free ≡ [] → h'.free ≡ [])
unfolding map0
insert_new-Represents_example =
    insert_new-Represents handle_keys map0-Represents 1 (omega arith) (omega arith) refl
      (omega arith)

map1-Represents : Represents handle_keys map1 table1
unfolding insert map0
map1-Represents =
    let (h', rf, ins, rep, _, _, _, _) =
      insert_new-Represents handle_keys map0-Represents 1 (omega arith) (omega arith) refl
        (omega arith) in
    landed {o = insert map0 1 int_size} {a = (map1, (1, 0))}
      (λ r. Represents handle_keys r.0 table1) refl ((h', rf), ins, rep)

find-Represents_example : find map1 1 int_size ≡ some (some node1)
find-Represents_example = find-Represents handle_keys map1-Represents 1 (omega arith)

remove-Represents_example :
    (h' : HashMap ℕ ℕ) × (remove map1 1 int_size ≡ some (some node1, h'))
    × Represents handle_keys h' (update handle_keys table1 1 none)
    × (h'.free ≡ map1.free)
    × (h'.node_max ≡ map1.node_max)
    × (h'.cap ≡ map1.cap)
remove-Represents_example = remove-Represents handle_keys map1-Represents 1 (omega arith)

expand-Represents_example : Represents handle_keys (expand map1) table1 × ((expand map1).cap ≡ 30)
unfolding map1 map0
expand-Represents_example = expand-Represents handle_keys map1-Represents (omega arith)
