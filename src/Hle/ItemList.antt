-- ===== src/Hle/ItemList.antt =====
-- hle/list/List.cpp with DefaultAllocator.cpp and ListItem.cpp: a doubly linked list of int. An
-- item is its address; an int is a number that is only compared. The memory that `new` hands out
-- is never exhausted. A loop runs on fuel.
pub mod Chain
pub mod Links
pub mod Insert
pub mod Unlink
pub mod Search
pub mod PreAllocator
pub mod Remove
pub mod Clear
pub mod Refinement
use htmsql.Prelude.{ℕ, zero, suc, ◌+◌, Bool, not, List, ◌∷◌, if◌then◌else◌, ◌==◌, update}
use htmsql.Hle.Run.{
  Ptr, null, Cmd, ok, fault, out_of_fuel, pure, ◌>>=◌, ◌>>◌, is_held, dropped, is_item,
}

-- The fields of the `ListItem`s, by address, and the addresses in use.
pub record Heap : Type 0 where
  pub live : List Ptr
  pub item_data : Ptr → ℕ
  pub prev : Ptr → Ptr
  pub next : Ptr → Ptr

pub record ItemList : Type 0 where
  pub first : Ptr
  pub last : Ptr

abbrev pub Action : Type 0 → Type 0
Action A = Cmd Heap A

abbrev pub with_prev : Heap → Ptr → Ptr → Heap
with_prev h p q = record h { prev = update h.prev p q }

abbrev pub with_next : Heap → Ptr → Ptr → Heap
with_next h p q = record h { next = update h.next p q }

abbrev pub with_item : Heap → Ptr → ℕ → (prev next : Ptr) → Heap
with_item h p d prev next = record {
  live = p ∷ h.live;
  item_data = update h.item_data p d;
  prev = update h.prev p prev;
  next = update h.next p next;
}

-- A read of a field faults at NULL and where there is no item.
unfoldable pub load : {A : Type 0} → (Heap → Ptr → A) → Ptr → Action A
load field p h = if is_item h.live p then ok (field h p) h else fault

unfoldable pub set_prev : Ptr → Ptr → Action (Unit {0})
set_prev p q h = if is_item h.live p then ok tt (with_prev h p q) else fault

unfoldable pub set_next : Ptr → Ptr → Action (Unit {0})
set_next p q h = if is_item h.live p then ok tt (with_next h p q) else fault

-- `fresh` is the address that `new` returns.
unfoldable pub create_list_item : (fresh : Ptr) → ℕ → (prev next : Ptr) → Action Ptr
create_list_item fresh d prev next h = ok fresh (with_item h fresh d prev next)

-- `delete` of NULL does nothing.
unfoldable pub delete_list_item : Ptr → Action (Unit {0})
delete_list_item p h =
    if p == null
    then ok tt h
    else if is_held p h.live
    then ok tt (record h { live = dropped p h.live })
    else fault

unfoldable pub new_list : ItemList
new_list = record { first = null; last = null }

-- `p->next = q` and `p->prev = q` unless `p` is NULL.
unfoldable pub link_next : Ptr → Ptr → Action (Unit {0})
link_next p q = if p == null then pure tt else set_next p q

unfoldable pub link_prev : Ptr → Ptr → Action (Unit {0})
link_prev p q = if p == null then pure tt else set_prev p q

unfoldable pub insert_tail : ItemList → Ptr → Action ItemList
insert_tail l item = do
  set_prev item l.last
  link_next l.last item
  pure (record { first = if l.first == null then item else l.first; last = item })

unfoldable pub insert : (fresh : Ptr) → ItemList → ℕ → Action (Ptr × ItemList)
insert fresh l d = do
  item ← create_list_item fresh d null null
  l' ← insert_tail l item
  pure (item, l')

unfoldable pub remove_from_list : ItemList → Ptr → Action ItemList
remove_from_list l item = if item == null then pure l else do
  p ← load Heap.prev item
  n ← load Heap.next item
  link_prev n p
  link_next p n
  pure (record {
    first = if item == l.first then n else l.first;
    last = if item == l.last then p else l.last;
  })

unfoldable pub get_loop : ℕ → ℕ → Ptr → Action Ptr
get_loop d zero p = λ _. out_of_fuel
get_loop d (suc k) p = if p == null then pure null else do
  v ← load Heap.item_data p
  if v == d then pure p else do n ← load Heap.next p; get_loop d k n

-- Each operation with a loop takes the fuel of that loop.
module _ (fuel : ℕ) where
  unfoldable pub get : ItemList → ℕ → Action Ptr
  get l d = get_loop d fuel l.first

  unfoldable pub contains : ItemList → ℕ → Action Bool
  contains l d = do item ← get l d; pure (not (item == null))

  unfoldable pub find_and_remove_from_list : ItemList → ℕ → Action (Ptr × ItemList)
  find_and_remove_from_list l d = do item ← get l d; l' ← remove_from_list l item; pure (item, l')

  -- `List::remove(int)`
  unfoldable pub remove : ItemList → ℕ → Action ItemList
  remove l d = do (item, l') ← find_and_remove_from_list l d; delete_list_item item; pure l'

-- `List::remove(ListItem *)`
unfoldable pub remove_item : ItemList → Ptr → Action ItemList
remove_item l item =
    if item == null then pure l else do l' ← remove_from_list l item; delete_list_item item; pure l'

unfoldable pub delete_all : ℕ → Ptr → Action (Unit {0})
delete_all zero p = λ _. out_of_fuel
delete_all (suc k) p =
    if p == null then pure tt else do n ← load Heap.next p; delete_list_item p; delete_all k n

-- The loop of `List::size`.
unfoldable pub size_loop : ℕ → ℕ → Ptr → Action ℕ
size_loop zero count p = λ _. out_of_fuel
size_loop (suc k) count p =
    if p == null then pure count else do n ← load Heap.next p; size_loop k (count + 1) n

unfoldable pub size : ℕ → ItemList → Action ℕ
size fuel l = size_loop fuel 0 l.first

-- The destructor.
unfoldable pub destroy : ℕ → ItemList → Action ItemList
destroy fuel l = do delete_all fuel l.first; pure new_list
