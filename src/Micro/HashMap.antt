-- ===== src/Micro/HashMap.antt =====
-- micro/hash_map/HashMap.cpp: the hash map of hle/hashmap in transactions that are not repeated. Its
-- items, buckets and hash are those of Hle/HashMap. An operation that its transaction does not commit
-- throws a LockException, here none, and leaves no trace.
use htmsql.Prelude.{
  ℕ, zero, suc, ◌+◌, ◌-◌, ◌<◌, ◌≡◌, ◌≢◌, refl, sym, Bool, true, false, inl, inr, Bool-cases, Option,
  none, some, arith, if◌then◌else◌, ◌==◌, length,
}
use htmsql.Hle.Run.{
  Ptr, null, Run, Cmd, ok, fault, exit, out_of_fuel, pure, ◌>>=◌, ◌>>◌, Returns, Returns-bind,
  returns, is_held,
}
use htmsql.Hle.Nodes.{Nodes, first_of, last_of, values, among}
use htmsql.Hle.Chain.{nil, cons}
use htmsql.Hle.Find.{find}
use htmsql.Hle.HashMap.{
  State, with_item, load, new_item, link_behind, hash, in_bucket, remove_loop, remove,
}
use htmsql.Hle.HashMap.Walk.{Chain, load-ok, not_null, is_item-∈}
use htmsql.Hle.HashMap.Buckets.{IsMap, link_behind-ok, last_of-item, hash-lt}
use htmsql.Hle.HashMap.Holds.{holds}
use htmsql.Hle.HashMap.Insert.{Holding, find-item, unchanged, added, is1}
use htmsql.Hle.HashMap.Remove.{Lacking, remove-Lacking}

-- The memory, and how many transactions the thread has begun and not ended.
pub record Thread : Type 0 where
  pub memory : State
  pub depth : ℕ

abbrev pub Action : Type 0 → Type 0
Action A = Cmd Thread A

abbrev pub in_thread : {A : Type 0} → Thread → Run State A → Run Thread A
in_thread t (ok a s) = ok a (record t { memory = s })
in_thread t fault = fault
in_thread t exit = exit
in_thread t out_of_fuel = out_of_fuel

-- A command on the memory alone.
abbrev pub on_memory : {A : Type 0} → Cmd State A → Action A
on_memory m t = in_thread t (m t.memory)

abbrev pub xbegin : Action (Unit {0})
xbegin t = ok tt (record t { depth = t.depth + 1 })

abbrev pub xend : Action (Unit {0})
xend t = ok tt (record t { depth = t.depth - 1 })

-- The search for the value, and the new item at the end; `last` is NULL at the bucket itself.
unfoldable pub insert_loop : (d : ℕ) → (fresh : Ptr) → (h k : ℕ) → (last p : Ptr) → Cmd State Ptr
insert_loop d fresh h zero last p = λ _. out_of_fuel
insert_loop d fresh h (suc k) last p =
    if p == null then (do item ← new_item fresh d; link_behind h last item; pure item) else do
      v ← load State.item_data p
      if v == d then pure p else do n ← load State.successor p; insert_loop d fresh h k p n

module _ (commits : Bool) (size fuel : ℕ) where
  unfoldable pub insert : (fresh : Ptr) → ℕ → Action (Option Ptr)
  insert fresh d =
      if commits
      then (do
        xbegin
        item ←
            on_memory
              (in_bucket (hash size d) λ h s. insert_loop d fresh h fuel null (s.bucket h) s)
        xend
        pure (some item))
      else pure none

  -- The writes at the bucket and of `delete` stand in the other order in this file. Where the value is
  -- not found, the call of _xend() is commented out.
  unfoldable pub remove_from_map : ℕ → Action (Option Bool)
  remove_from_map d =
      if commits
      then (do
        xbegin
        found ← on_memory (in_bucket (hash size d) λ h s. remove_loop d h fuel null (s.bucket h) s)
        if found then xend >> pure (some true) else pure (some false))
      else pure none

insert_loop-walk :
    {s : State} (d fresh h k : ℕ) {last : Ptr} {xs : Nodes}
    → Chain s null last xs
    → length xs < k
    → insert_loop d fresh h k last (first_of null xs) s
      ≡ (if among d (values xs)
            then pure (find d xs)
            else (new_item fresh d >>= λ item. link_behind h (last_of last xs) item >> pure item))
          s
unfolding insert_loop among find
insert_loop-walk d fresh h zero c fuel = absurd (omega arith)
insert_loop-walk d fresh h (suc k) nil fuel = refl
insert_loop-walk {s} d fresh h (suc k) (cons {p} {v} e out c) fuel = elim (Bool-cases (v == d)) [
  | inl y ↦ rw (not_null e, load-ok State.item_data s p e.live, e.item_data, y)
  | inr n ↦ rw (
    not_null e,
    load-ok State.item_data s p e.live,
    e.item_data,
    n,
    load-ok State.successor s p e.live,
    e.successor,
    insert_loop-walk d fresh h k c (omega arith),
  )
]

in_thread-Returns :
    {A : Type 0} {P : A → State → Type 0} (t : Thread) {r : Run State A}
    → Returns P r
    → Returns (λ a u. P a u.memory × (u.depth ≡ t.depth)) (in_thread t r)
in_thread-Returns t (returns p) = returns (p, refl)

-- The map holds `d` besides, and no transaction stays open.
abbrev pub InsertedIn : ℕ → ℕ → (ℕ → Nodes) → Thread → Option Ptr → Thread → Type 0
InsertedIn size d f t o u =
    (q : Ptr) × (o ≡ some q) × Holding size d f q u.memory × (u.depth ≡ t.depth)

-- The map lacks `d`; the transaction stays open exactly if the map did not hold `d`.
abbrev pub RemovedFrom : ℕ → ℕ → (ℕ → Nodes) → Thread → Option Bool → Thread → Type 0
RemovedFrom size d f t o u =
    (b : Bool) × (o ≡ some b)
    × Lacking size d f b u.memory
    × (u.depth ≡ (if holds size f d then t.depth else t.depth + 1))

module _ {size : ℕ} {f : ℕ → Nodes} (t : Thread) (d h k : ℕ) (is : IsMap size t.memory f)
    (pos : 0 < size) (at_h : hash size d ≡ some h) (fuel : length (f h) < k) where
  lt : h < size
  lt = hash-lt size d h pos at_h

  insert_loop-Holding :
      (p : Ptr)
      → p ≢ null
      → is_held p t.memory.live ≡ false
      → Returns (Holding size d f) (insert_loop d p h k null (first_of null (f h)) t.memory)
  unfolding new_item
  insert_loop-Holding p ne unused =
      rw (insert_loop-walk d p h k (is.chain h lt) fuel)
        (elim (Bool-cases (among d (values (f h)))) [
          | inl present ↦
              let (i, data_eq) = find-item d (is.chain h lt) present in
              rw present (
                returns (
                  f,
                  is,
                  unchanged d h p k is pos at_h ne unused fuel present,
                  (λ j. omega arith),
                  is_item-∈ _ (is.chain h lt) i,
                  data_eq,
                ))
          | inr absent ↦
              let is1 = is1 d h p k is pos at_h ne unused fuel in
              rw
                (
                  absent,
                  link_behind-ok (with_item t.memory p d) h (last_of null (f h)) p
                      (last_of-item (is1.chain h lt)),
                )
                (returns (added d h p k is pos at_h ne unused fuel absent))
        ])

  -- A committed insert of a value with a bucket, given a new address, adds the value to the map and
  -- returns its item, and the transaction is ended.
  pub micro_insert-InsertedIn :
      (p : Ptr)
      → p ≢ null
      → is_held p t.memory.live ≡ false
      → Returns (InsertedIn size d f t) (insert true size k p d t)
  unfolding insert in_bucket
  micro_insert-InsertedIn p ne unused =
      rw (at_h, is.bucket h lt)
        (Returns-bind
          (in_thread-Returns (record t { depth = t.depth + 1 }) (insert_loop-Holding p ne unused))
          λ q u (holding, same). returns (q, refl, holding, omega (arith, same)))

  -- A committed remove of a value with a bucket takes the value out of the map and says whether it was
  -- there; where it was not, the transaction is never ended.
  pub micro_remove-RemovedFrom : Returns (RemovedFrom size d f t) (remove_from_map true size k d t)
  unfolding remove_from_map remove
  micro_remove-RemovedFrom =
      Returns-bind
        (in_thread-Returns (record t { depth = t.depth + 1 })
          (remove-Lacking d h k is pos at_h fuel))
        λ b u (lacking, same). closed b u lacking same
    where
      closed :
          (b : Bool) (u : Thread)
          → Lacking size d f b u.memory
          → u.depth ≡ t.depth + 1
          → Returns
              (RemovedFrom size d f t)
              ((if b then xend >> pure (some true) else pure (some false)) u)
      closed true u (f', is', eq, shorter, was) same =
          returns (true, refl, (f', is', eq, shorter, was), rw (sym was) (omega (arith, same)))
      closed false u (f', is', eq, shorter, was) same =
          returns (false, refl, (f', is', eq, shorter, was), rw (sym was) same)
