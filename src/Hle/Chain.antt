-- ===== src/Hle/Chain.antt =====
-- Chains of linked nodes: `I p v b n` says that the node at `p` has number `v`, behind the node at `b`
-- and before the node at `n`.
use htmsql.Prelude.{ℕ, ◌≡◌, sym, subst, false, [], ◌∷◌, ◌++◌, arith, ◌==◌, ℕ_discrete}
use htmsql.Hle.Run.{Ptr, null}
use htmsql.Hle.Nodes.{Nodes, ◌∈◌, ◌∉◌, Disjoint, first_of, last_of, is_in-append, first_of-append}

abbrev pub Node : Type 1
Node = Ptr → ℕ → Ptr → Ptr → Type 0

-- The distinct nodes `xs` are linked, between `b` and `stop`.
pub data Linked (I : Node) (stop : Ptr) : Ptr → Nodes → Type 0 where
  nil : {b : Ptr} → Linked I stop b []
  cons :
      {b p : Ptr} {v : ℕ} {xs : Nodes}
      → I p v b (first_of stop xs)
      → p ∉ xs
      → Linked I stop p xs
      → Linked I stop b ((p, v) ∷ xs)

module _ {I : Node} {stop : Ptr} where
  pub map_nodes :
      {J : Node} {b : Ptr} {xs : Nodes}
      → Linked I stop b xs
      → ((p v b n : Ptr) → p ∈ xs → I p v b n → J p v b n)
      → Linked J stop b xs
  map_nodes nil f = nil
  map_nodes (cons {b} {p} {v} {xs} e out c) f =
      cons (f p v b (first_of stop xs) (ground arith) e) out
        (map_nodes c λ a w b n i. f a w b n (ground arith))

  -- What every node satisfies holds at the addresses of the chain.
  pub at_nodes :
      {Q : Ptr → Type 0} (a : Ptr) {b : Ptr} {xs : Nodes}
      → ((p v b n : Ptr) → I p v b n → Q p)
      → Linked I stop b xs
      → a ∈ xs
      → Q a
  at_nodes a f nil i = cc
  at_nodes {Q} a f (cons {b} {p} {v} {xs} e out c) i = elim (ℕ_discrete a p) [
    | yes eq ↦ subst Q (sym eq) (f p v b _ e)
    | no ne ↦ at_nodes a f c (ground arith)
  ]

  pub append :
      {ys : Nodes} {b : Ptr} {xs : Nodes}
      → Linked I (first_of stop ys) b xs
      → Linked I stop (last_of b xs) ys
      → Disjoint xs ys
      → Linked I stop b (xs ++ ys)
  append nil d apart = d
  append {ys} (cons {p} {xs} e out c) d apart =
      cons (subst (I p _ _) (sym (first_of-append stop xs ys)) e)
        (rw (is_in-append, out) (apart p (ground arith))) (append c d λ a i. apart a (ground arith))

  pub take_front :
      {b : Ptr} (xs ys : Nodes) → Linked I stop b (xs ++ ys) → Linked I (first_of stop ys) b xs
  take_front [] ys c = nil
  take_front (x ∷ xs) ys (cons {p} e out c) =
      cons (subst (I p _ _) (first_of-append stop xs ys) e) (ground (arith, is_in-append p xs ys))
        (take_front xs ys c)

  pub take_back :
      {b : Ptr} (xs ys : Nodes) → Linked I stop b (xs ++ ys) → Linked I stop (last_of b xs) ys
  take_back [] ys c = c
  take_back (x ∷ xs) ys (cons e out c) = take_back xs ys c

  pub take-Disjoint : {b : Ptr} (xs ys : Nodes) → Linked I stop b (xs ++ ys) → Disjoint xs ys
  take-Disjoint [] ys c a i = cc
  take-Disjoint (x ∷ xs) ys (cons {p} e out c) a i =
      ground (arith, take-Disjoint xs ys c a, is_in-append p xs ys)

pub last_of-∈ : (b p : Ptr) (v : ℕ) (xs : Nodes) → last_of b ((p, v) ∷ xs) ∈ (p, v) ∷ xs
last_of-∈ b p v [] = ground arith
last_of-∈ b p v ((q, w) ∷ xs) = ground (arith, last_of-∈ p q w xs)

-- The last node is turned to `n`, and the others are kept.
pub turn_last :
    {I J : Node} {stop b : Ptr} (n : Ptr) {xs : Nodes}
    → Linked I stop b xs
    → ((p v b' m : Ptr) → (p == last_of b xs) ≡ false → I p v b' m → J p v b' m)
    → ((v b' m : Ptr) → I (last_of b xs) v b' m → J (last_of b xs) v b' n)
    → Linked J n b xs
turn_last n nil keeps turns = nil
turn_last n (cons {b} {p} {v} {xs = []} e out nil) keeps turns = cons (turns v b _ e) out nil
turn_last n (cons {b} {p} {v} {xs = (q, w) ∷ xs} e out c) keeps turns =
    cons (keeps p v b q (ground (arith, last_of-∈ p q w xs)) e) out (turn_last n c keeps turns)

-- An address that is not NULL and not in the chain is neither its first nor its last.
pub last_of-ne :
    (p : Ptr) (xs : Nodes) → (p == null) ≡ false → p ∉ xs → (p == last_of null xs) ≡ false
last_of-ne p [] ne out = ne
last_of-ne p ((q, w) ∷ xs) ne out = ground (arith, last_of-∈ null q w xs)

pub one-Disjoint : (p : Ptr) (d : ℕ) (xs : Nodes) → p ∉ xs → Disjoint xs ((p, d) ∷ [])
one-Disjoint p d xs out a i = ground arith

pub first_of-out : (ys zs : Nodes) → Disjoint ys zs → null ∉ ys → first_of null zs ∉ ys
first_of-out ys [] apart out = out
first_of-out ys ((q, w) ∷ zs) apart out = ground (arith, apart q)

pub last_of-out : (ys zs : Nodes) → Disjoint ys zs → null ∉ zs → last_of null ys ∉ zs
last_of-out [] zs apart out = out
last_of-out ((q, w) ∷ ys) zs apart out = apart _ (last_of-∈ null q w ys)
