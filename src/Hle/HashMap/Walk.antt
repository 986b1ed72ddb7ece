-- ===== src/Hle/HashMap/Walk.antt =====
-- The loops of the hash map on a chain of items.
use htmsql.Prelude.{
  ℕ, zero, suc, ◌+◌, ◌<◌, ◌≡◌, refl, ap, Bool, true, false, inl, inr, Bool-cases, [], ◌∷◌, ◌++◌,
  arith, if◌then◌else◌, ◌==◌, length,
}
use htmsql.Hle.Run.{Ptr, null, ok, pure, ◌>>◌, is_item, is_held}
use htmsql.Hle.Nodes.{Nodes, ◌∈◌, ◌∉◌, first_of, last_of, values, among}
use htmsql.Hle.Chain.{Linked, nil, cons, at_nodes}
use htmsql.Hle.Find.{find}
use htmsql.Hle.HashMap.{
  State, Action, load, link_behind, delete_item, insert_loop, remove_loop, contains_loop,
  count_loop,
}

-- The item at `p` has number `v` and is followed by `n`.
pub record Item (s : State) (p : Ptr) (v : ℕ) (b n : Ptr) : Type 0 where
  pub live : is_item s.live p ≡ true
  pub item_data : s.item_data p ≡ v
  pub successor : s.successor p ≡ n

-- The distinct items `xs` are linked, to `stop` in the end.
abbrev pub Chain : State → Ptr → Ptr → Nodes → Type 0
Chain s = Linked (Item s)

-- An item does not know the one before it.
pub rebase :
    {s : State} {stop b : Ptr} (b' : Ptr) {xs : Nodes} → Chain s stop b xs → Chain s stop b' xs
rebase b' nil = nil
rebase b' (cons e out c) =
    cons (record { live = e.live; item_data = e.item_data; successor = e.successor }) out c

pub load-ok :
    {A : Type 0} (field : State → Ptr → A) (s : State) (p : Ptr)
    → is_item s.live p ≡ true
    → load field p s ≡ ok (field s p) s
unfolding load
load-ok field s p e = rw e

-- What insert_loop does behind its walk over `xs`.
abbrev pub insert_end : (d h : ℕ) → (item prev : Ptr) → Nodes → Action Ptr
insert_end d h item prev xs =
    if among d (values xs)
    then delete_item item >> pure (find d xs)
    else link_behind h (last_of prev xs) item >> pure item

-- What remove_loop does behind its walk to the item at `p`.
abbrev pub remove_end : (h : ℕ) → (prev p n : Ptr) → Action Bool
remove_end h prev p n = link_behind h prev n >> delete_item p >> pure true

module _ {s : State} where
  pub is_item-∈ :
      (a : Ptr) {stop b : Ptr} {xs : Nodes} → Chain s stop b xs → a ∈ xs → is_item s.live a ≡ true
  is_item-∈ a c i = at_nodes {Q = λ p. is_item s.live p ≡ true} a (λ p v b n e. e.live) c i

  pub ∉-not_held :
      (a : Ptr) {stop b : Ptr} {xs : Nodes} → Chain s stop b xs → is_held a s.live ≡ false → a ∉ xs
  unfolding is_item
  ∉-not_held a {xs} c free = ground (arith, is_item-∈ a c)

  pub not-null-∈ : {stop b : Ptr} {xs : Nodes} → Chain s stop b xs → null ∉ xs
  unfolding is_item
  not-null-∈ {xs} c = ground (arith, is_item-∈ null c)

  pub not_null : {p v b n : Ptr} → Item s p v b n → (p == null) ≡ false
  unfolding is_item
  not_null e = ground (arith, e.live)

  module _ (d : ℕ) where
    pub insert_loop-walk :
        (h : ℕ) (item : Ptr) (k : ℕ) {prev : Ptr} {xs : Nodes}
        → Chain s null prev xs
        → length xs < k
        → insert_loop d h item k prev (first_of null xs) s ≡ insert_end d h item prev xs s
    unfolding insert_loop among find
    insert_loop-walk h item zero c fuel = absurd (omega arith)
    insert_loop-walk h item (suc k) nil fuel = refl
    insert_loop-walk h item (suc k) (cons {p} {v} e out c) fuel = elim (Bool-cases (v == d)) [
      | inl y ↦ rw (not_null e, load-ok State.item_data s p e.live, e.item_data, y)
      | inr n ↦ rw (
        not_null e,
        load-ok State.item_data s p e.live,
        e.item_data,
        n,
        load-ok State.successor s p e.live,
        e.successor,
        insert_loop-walk h item k c (omega arith),
      )
    ]

    pub contains_loop-among :
        (k : ℕ) {b : Ptr} {xs : Nodes}
        → Chain s null b xs
        → length xs < k
        → contains_loop d k (first_of null xs) s ≡ ok (among d (values xs)) s
    unfolding contains_loop among
    contains_loop-among zero c fuel = absurd (omega arith)
    contains_loop-among (suc k) nil fuel = refl
    contains_loop-among (suc k) (cons {p} {v} e out c) fuel = elim (Bool-cases (v == d)) [
      | inl y ↦ rw (not_null e, load-ok State.item_data s p e.live, e.item_data, y)
      | inr n ↦ rw (
        not_null e,
        load-ok State.item_data s p e.live,
        e.item_data,
        n,
        load-ok State.successor s p e.live,
        e.successor,
        contains_loop-among k c (omega arith),
      )
    ]

    pub remove_loop-missing :
        (h k : ℕ) {prev : Ptr} {xs : Nodes}
        → Chain s null prev xs
        → among d (values xs) ≡ false
        → length xs < k
        → remove_loop d h k prev (first_of null xs) s ≡ ok false s
    unfolding remove_loop among
    remove_loop-missing h zero c none fuel = absurd (omega arith)
    remove_loop-missing h (suc k) nil none fuel = refl
    remove_loop-missing h (suc k) (cons {p} {v} {xs} e out c) none fuel =
        let n : (v == d) ≡ false = ground arith in
        let none' : among d (values xs) ≡ false = ground arith in
        rw (
          not_null e,
          load-ok State.item_data s p e.live,
          e.item_data,
          load-ok State.successor s p e.live,
          e.successor,
          n,
          remove_loop-missing h k c none' (omega arith),
        )

    pub remove_loop-found :
        (h k p : ℕ) (ys zs : Nodes) {prev : Ptr}
        → Chain s null prev (ys ++ (p, d) ∷ zs)
        → among d (values ys) ≡ false
        → length (ys ++ (p, d) ∷ zs) < k
        → remove_loop d h k prev (first_of null (ys ++ (p, d) ∷ zs)) s
          ≡ remove_end h (last_of prev ys) p (first_of null zs) s
    unfolding remove_loop among
    remove_loop-found h zero p ys zs c none fuel = absurd (omega arith)
    remove_loop-found h (suc k) p [] zs (cons e out c) none fuel =
        let y : (d == d) ≡ true = ground arith in
        rw (
          not_null e,
          load-ok State.item_data s p e.live,
          e.item_data,
          load-ok State.successor s p e.live,
          e.successor,
          y,
        )
    remove_loop-found h (suc k) p ((q, w) ∷ ys) zs (cons e out c) none fuel =
        let n : (w == d) ≡ false = ground arith in
        let none' : among d (values ys) ≡ false = ground arith in
        rw (
          not_null e,
          load-ok State.item_data s q e.live,
          e.item_data,
          load-ok State.successor s q e.live,
          e.successor,
          n,
          remove_loop-found h k p ys zs c none' (omega arith),
        )

  pub count_loop-length :
      (k m : ℕ) {b : Ptr} {xs : Nodes}
      → Chain s null b xs
      → length xs < k
      → count_loop k m (first_of null xs) s ≡ ok (m + length xs) s
  unfolding count_loop
  count_loop-length zero m c fuel = absurd (omega arith)
  count_loop-length (suc k) m nil fuel = ground arith
  count_loop-length (suc k) m (cons {p} {v} {xs} e out c) fuel =
      rw
        (
          not_null e,
          load-ok State.successor s p e.live,
          e.successor,
          count_loop-length k (m + 1) c (omega arith),
        )
        (ap (λ m'. ok m' s) (omega arith))
