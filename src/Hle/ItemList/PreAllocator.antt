-- ===== src/Hle/ItemList/PreAllocator.antt =====
-- hle/list/PreAllocator.cpp: items out of an array that is allocated once. An item is its slot; an
-- int is its bits as a number. The capacity is kept general: the source has 10000.
use htmsql.Prelude.{
  ℕ, zero, suc, ◌+◌, ◌-◌, ◌%◌, ◌^◌, ◌≤◌, ◌<◌, ◌≡◌, refl, ◌⊎◌, inl, inr, Bool, false, Bool-cases,
  Option, none, some, arith, if◌then◌else◌, ◌==◌, update,
}
use native.Mathlib.Nat.{mod-eq_of_lt, mod_self}
use htmsql.Hle.Run.{Ptr, Cmd, Run, ok, fault, exit, out_of_fuel}

-- `-1`, the mark of a free slot
abbrev pub free_mark : ℕ
free_mark = 2 ^ 32 - 1

-- `last_allocation_slot` is none at -1.
pub record PreAllocator : Type 0 where
  pub slot_data : ℕ → ℕ
  pub slot_prev : ℕ → Ptr
  pub slot_next : ℕ → Ptr
  pub last_allocation_slot : Option ℕ

unfoldable pub new_pre_allocator : PreAllocator
new_pre_allocator = record {
  slot_data = λ i. free_mark;
  slot_prev = λ i. 0;
  slot_next = λ i. 0;
  last_allocation_slot = none;
}

abbrev pub filled : PreAllocator → ℕ → ℕ → (prev next : Ptr) → PreAllocator
filled a slot d prev next = record {
  slot_data = update a.slot_data slot d;
  slot_prev = update a.slot_prev slot prev;
  slot_next = update a.slot_next slot next;
  last_allocation_slot = some slot;
}

abbrev pub is_slot : Option ℕ → ℕ → Bool
is_slot none i = false
is_slot (some b) i = i == b

-- `allocations_size` is the capacity.
module _ (allocations_size : ℕ) where
  unfoldable pub following : Option ℕ → ℕ
  following none = 0
  following (some i) = (i + 1) % allocations_size

  -- The do loop, with the slot `begin` at which it ends.
  unfoldable pub create_loop : ℕ → (begin : Option ℕ) → ℕ → (prev next : Ptr) → Cmd PreAllocator ℕ
  create_loop zero begin d prev next = λ _. out_of_fuel
  create_loop (suc k) begin d prev next = λ a.
      let slot = following a.last_allocation_slot in
      let rest = create_loop k begin d prev next (record a { last_allocation_slot = some slot }) in
      if a.slot_data slot == free_mark
      then ok slot (filled a slot d prev next)
      else if is_slot begin slot
      then exit
      else rest

  unfoldable pub pre_create_list_item : (fuel : ℕ) → ℕ → (prev next : Ptr) → Cmd PreAllocator ℕ
  pre_create_list_item fuel d prev next a = create_loop fuel a.last_allocation_slot d prev next a

-- NULL is none.
unfoldable pub pre_delete_list_item : Option ℕ → Cmd PreAllocator (Unit {0})
pre_delete_list_item none a = fault
pre_delete_list_item (some i) a = ok tt (record a { slot_data = update a.slot_data i free_mark })

following-wrapped : (size c : ℕ) → c + 1 ≡ size → following size (some c) ≡ 0
unfolding following
following-wrapped size c eq = rw eq (mod_self size)

following-lt : (size c : ℕ) → c + 1 < size → following size (some c) ≡ c + 1
unfolding following
following-lt size c lt = mod-eq_of_lt lt

module _ (size d : ℕ) (prev next : Ptr) (a : PreAllocator) where
  -- A free slot is taken and the others are kept, or no slot is free and the process exits.
  abbrev pub Created : Run PreAllocator ℕ → Type 0
  Created r =
      ((slot : ℕ) × (r ≡ ok slot (filled a slot d prev next))
        × (slot < size)
        × (a.slot_data slot ≡ free_mark))
      ⊎ ((r ≡ exit) × ((i : ℕ) → i < size → (a.slot_data i == free_mark) ≡ false))

  -- The loop with the slots up to `c` behind it.
  abbrev searched : ℕ → ℕ → ℕ → Run PreAllocator ℕ
  searched k b c =
      create_loop size k (some b) d prev next (record a { last_allocation_slot = some c })

  -- Behind the end of the array: the slots above `b` and up to `c` are in use.
  search_low :
      (k b c : ℕ)
      → c < b
      → b < size
      → b ≤ c + k
      → ((i : ℕ) → i < size → b < i → (a.slot_data i == free_mark) ≡ false)
      → ((i : ℕ) → i ≤ c → (a.slot_data i == free_mark) ≡ false)
      → Created (searched k b c)
  unfolding create_loop
  search_low zero b c lt in_size fuel above below = absurd (omega arith)
  search_low (suc k) b c lt in_size fuel above below =
      rw (following-lt size c (omega arith)) (elim (Bool-cases (a.slot_data (c + 1) == free_mark)) [
        | inl free ↦ inl (c + 1, rw free, omega arith, ground arith)
        | inr used ↦
            let below' : (i : ℕ) → i ≤ c + 1 → (a.slot_data i == free_mark) ≡ false =
              λ i le. ground (arith, below i) in
            elim (Bool-cases (c + 1 == b)) [
              | inl end ↦ inr (rw (used, end), λ i in_i. ground (arith, below' i, above i))
              | inr more ↦
                  rw (used, more)
                    (search_low k b (c + 1) (ground arith) in_size (omega arith) above below')
            ]
      ])

  -- Up to the end of the array: the slots between are in use.
  search_high :
      (k b c : ℕ)
      → b ≤ c
      → c < size
      → b + size ≤ c + k
      → ((i : ℕ) → i ≤ c → b < i → (a.slot_data i == free_mark) ≡ false)
      → Created (searched k b c)
  unfolding create_loop
  search_high zero b c le in_size fuel between = absurd (omega arith)
  search_high (suc k) b c le in_size fuel between = elim (Bool-cases (c + 1 == size)) [
    | inl last ↦
        rw (following-wrapped size c (ground arith))
          (elim (Bool-cases (a.slot_data 0 == free_mark)) [
            | inl free ↦ inl (0, rw free, omega arith, ground arith)
            | inr used ↦
                let above : (i : ℕ) → i < size → b < i → (a.slot_data i == free_mark) ≡ false =
                  λ i in_i lt. ground (arith, between i) in
                let first : (i : ℕ) → i ≤ 0 → (a.slot_data i == free_mark) ≡ false =
                  λ i zero_i. ground arith in
                elim (Bool-cases (0 == b)) [
                  | inl end ↦ inr (rw (used, end), λ i in_i. ground (arith, above i))
                  | inr more ↦
                      rw (used, more)
                        (search_low k b 0 (ground arith) (omega arith) (ground arith) above first)
                ]
          ])
    | inr inner ↦
        rw (following-lt size c (ground arith))
          (elim (Bool-cases (a.slot_data (c + 1) == free_mark)) [
            | inl free ↦ inl (c + 1, rw free, ground arith, ground arith)
            | inr used ↦
                let other : (c + 1 == b) ≡ false = ground arith in
                rw (used, other)
                  (search_high k b (c + 1) (omega arith) (ground arith) (omega arith)
                    λ i le_i lt. ground (arith, between i))
          ])
  ]

-- createListItem ends within one round: with the last slot in the array, it takes a slot that was free
-- and keeps all others, or no slot is free and the process exits.
pub pre_create_list_item-Created :
    (size b k d : ℕ) (prev next : Ptr) (a : PreAllocator)
    → a.last_allocation_slot ≡ some b
    → b < size
    → size ≤ k
    → Created size d prev next a (pre_create_list_item size k d prev next a)
unfolding pre_create_list_item
pre_create_list_item-Created size b k d prev next a at_b in_size fuel = rw at_b (
    search_high size d prev next a k b b (omega arith) in_size (omega arith)
      λ i le lt. absurd (omega arith))

-- A new allocator hands out slot 0.
pub pre_create_list_item-new :
    (size k d : ℕ) (prev next : Ptr)
    → pre_create_list_item size (suc k) d prev next new_pre_allocator
      ≡ ok 0 (filled new_pre_allocator 0 d prev next)
unfolding pre_create_list_item create_loop following new_pre_allocator
pre_create_list_item-new size k d prev next = refl
