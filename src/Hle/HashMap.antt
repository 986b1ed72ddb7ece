-- ===== src/Hle/HashMap.antt =====
-- hle/hashmap/HashMap.cpp: a hash map of int with chained buckets. An operation holds the lock of its
-- bucket from its first read of the bucket to its last write, so it is one step here. An int is its
-- bits as a number, so that the negative ones are those from 2 ^ 31 on. A loop runs on fuel.
pub mod Walk
pub mod Buckets
pub mod Holds
pub mod Insert
pub mod Remove
pub mod Refinement
pub mod Clear
use htmsql.Prelude.{
  ℕ, zero, suc, ◌+◌, ◌-◌, ◌%◌, ◌^◌, Bool, true, false, List, ◌∷◌, [], Option, none, some,
  if◌then◌else◌, ◌==◌, ltb, update,
}
use htmsql.Hle.Run.{
  Ptr, null, Cmd, ok, fault, out_of_fuel, pure, ◌>>=◌, ◌>>◌, is_held, dropped, is_item,
}

-- The fields of the `LinkedListItem`s, by address, the addresses in use, and the first item of each
-- bucket.
pub record State : Type 0 where
  pub live : List Ptr
  pub item_data : Ptr → ℕ
  pub successor : Ptr → Ptr
  pub bucket : ℕ → Ptr

abbrev pub Action : Type 0 → Type 0
Action A = Cmd State A

abbrev pub with_item : State → Ptr → ℕ → State
with_item s p d = record {
  live = p ∷ s.live;
  item_data = update s.item_data p d;
  successor = update s.successor p null;
  bucket = s.bucket;
}

-- The map that the constructor makes, with the memory that is in use.
unfoldable pub new_map : List Ptr → State
new_map live = record { live = live; item_data = λ p. 0; successor = λ p. null; bucket = λ h. null }

-- A read of a field faults at NULL and where there is no item.
unfoldable pub load : {A : Type 0} → (State → Ptr → A) → Ptr → Action A
load field p s = if is_item s.live p then ok (field s p) s else fault

unfoldable pub set_successor : Ptr → Ptr → Action (Unit {0})
set_successor p q s =
    if is_item s.live p then ok tt (record s { successor = update s.successor p q }) else fault

-- `new LinkedListItem(value)`, where `fresh` is the address that `new` returns
unfoldable pub new_item : (fresh : Ptr) → ℕ → Action Ptr
new_item fresh d s = ok fresh (with_item s fresh d)

unfoldable pub delete_item : Ptr → Action (Unit {0})
delete_item p s = if is_item s.live p then ok tt (record s { live = dropped p s.live }) else fault

-- `value % size`, where the remainder has the sign of `value`: none for a negative remainder, which is
-- no index.
unfoldable pub hash : (size : ℕ) → ℕ → Option ℕ
hash size v =
    if ltb v (2 ^ 31) then some (v % size) else if (2 ^ 32 - v) % size == 0 then some 0 else none

-- An operation on the bucket of a value; an index in front of the array is a fault.
unfoldable pub in_bucket : {A : Type 0} → Option ℕ → (ℕ → Action A) → Action A
in_bucket none f s = fault
in_bucket (some h) f s = f h s

-- The assignment of `item` to the successor of `prev`, or to the bucket where `prev` is NULL.
unfoldable pub link_behind : (h : ℕ) → (prev item : Ptr) → Action (Unit {0})
link_behind h prev item =
    if prev == null
    then (λ s. ok tt (record s { bucket = update s.bucket h item }))
    else set_successor prev item

unfoldable pub insert_loop : (d h : ℕ) → Ptr → ℕ → (prev p : Ptr) → Action Ptr
insert_loop d h item zero prev p = λ _. out_of_fuel
insert_loop d h item (suc k) prev p = if p == null then link_behind h prev item >> pure item else do
  v ← load State.item_data p
  if v == d
      then delete_item item >> pure p
      else do n ← load State.successor p; insert_loop d h item k p n

unfoldable pub remove_loop : (d h : ℕ) → ℕ → (prev p : Ptr) → Action Bool
remove_loop d h zero prev p = λ _. out_of_fuel
remove_loop d h (suc k) prev p = if p == null then pure false else do
  v ← load State.item_data p
  n ← load State.successor p
  if v == d then link_behind h prev n >> delete_item p >> pure true else remove_loop d h k p n

unfoldable pub contains_loop : ℕ → ℕ → Ptr → Action Bool
contains_loop d zero p = λ _. out_of_fuel
contains_loop d (suc k) p = if p == null then pure false else do
  v ← load State.item_data p
  if v == d then pure true else do n ← load State.successor p; contains_loop d k n

unfoldable pub count_loop : ℕ → ℕ → Ptr → Action ℕ
count_loop zero count p = λ _. out_of_fuel
count_loop (suc k) count p =
    if p == null then pure count else do n ← load State.successor p; count_loop k (count + 1) n

-- `n` buckets from bucket `h` on; every bucket's loop has the fuel `k`.
unfoldable pub count_buckets : ℕ → (n h count : ℕ) → Action ℕ
count_buckets k zero h count = pure count
count_buckets k (suc n) h count =
    λ s. (do c ← count_loop k count (s.bucket h); count_buckets k n (h + 1) c) s

unfoldable pub delete_loop : ℕ → Ptr → Action (Unit {0})
delete_loop zero p = λ _. out_of_fuel
delete_loop (suc k) p =
    if p == null then pure tt else do n ← load State.successor p; delete_item p; delete_loop k n

unfoldable pub set_bucket : (h : ℕ) → Ptr → Action (Unit {0})
set_bucket h p s = ok tt (record s { bucket = update s.bucket h p })

-- The destructor on `n` buckets from bucket `h` on; every bucket's loop has the fuel `k`.
unfoldable pub delete_buckets : ℕ → (n h : ℕ) → Action (Unit {0})
delete_buckets k zero h = pure tt
delete_buckets k (suc n) h =
    λ s. (do delete_loop k (s.bucket h); set_bucket h null; delete_buckets k n (h + 1)) s

-- `size` is the number of buckets, and the loop of one bucket takes `fuel`.
module _ (size fuel : ℕ) where
  unfoldable pub insert : (fresh : Ptr) → ℕ → Action Ptr
  insert fresh d = do
    item ← new_item fresh d
    in_bucket (hash size d) λ h s. insert_loop d h item fuel null (s.bucket h) s

  unfoldable pub remove : ℕ → Action Bool
  remove d = in_bucket (hash size d) λ h s. remove_loop d h fuel null (s.bucket h) s

  unfoldable pub contains : ℕ → Action Bool
  contains d = in_bucket (hash size d) λ h s. contains_loop d fuel (s.bucket h) s

  unfoldable pub count_elements : Action ℕ
  count_elements = count_buckets fuel size 0 0

  unfoldable pub destroy_map : Action (Unit {0})
  destroy_map = delete_buckets fuel size 0
