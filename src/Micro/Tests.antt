-- ===== src/Micro/Tests.antt =====
-- Runs of the operations, and the theorems at them.
use htmsql.Prelude.{◌≡◌, refl, true, some, arith}
use htmsql.Hle.Run.{Returns}
use htmsql.Hle.HashMap.{hash}
use htmsql.Hle.OneMap.{one_map, one_nodes, one_map-IsMap, hash_five}
use htmsql.Micro.HashMap.{
  Thread, insert, remove_from_map, InsertedIn, RemovedFrom, micro_insert-InsertedIn,
  micro_remove-RemovedFrom,
}

abbrev one_thread : Thread
one_thread = record { memory = one_map; depth = 0 }

micro_insert-InsertedIn_example :
    Returns (InsertedIn 2 5 one_nodes one_thread) (insert true 2 2 8 5 one_thread)
micro_insert-InsertedIn_example =
    micro_insert-InsertedIn one_thread 5 1 2 one_map-IsMap (omega arith) hash_five (omega arith) 8
      (omega arith) refl

hash_seven : hash 2 7 ≡ some 1
unfolding hash
hash_seven = refl

micro_remove-RemovedFrom_example :
    Returns (RemovedFrom 2 7 one_nodes one_thread) (remove_from_map true 2 2 7 one_thread)
micro_remove-RemovedFrom_example =
    micro_remove-RemovedFrom one_thread 7 1 2 one_map-IsMap (omega arith) hash_seven (omega arith)
