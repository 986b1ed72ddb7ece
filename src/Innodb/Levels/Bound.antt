-- ===== src/Innodb/Levels/Bound.antt =====
-- What the checks of the latching order say of the levels that a thread holds.
use htmsql.Prelude.{
  ℕ, zero, suc, ◌+◌, ◌≤◌, ◌<◌, ◌≡◌, refl, subst, Bool, true, false, not, some, arith, inl, inr,
  Bool-cases, ◌&&◌, All, List, leb, ◌==◌, ◌∷◌, [],
}
use htmsql.Innodb.Levels.{
  SyncLevel, SyncArr, any_from, at_most, at_level, is_null, sync_thread_levels_g,
  sync_thread_levels_contain, order_ok, plain_levels, one_of,
}

-- The thread holds a latch of that level.
pub record Holds (array : SyncArr) (level : ℕ) : Type 0 where
  pub cell : ℕ
  pub latch : ℕ
  pub in_range : cell < array.n_elems
  pub at : (array.elems cell).latch ≡ some latch
  pub has : (array.elems cell).level ≡ level

pub any_from-true :
    (test : SyncLevel → Bool) (elems : ℕ → SyncLevel) (i n : ℕ)
    → any_from test elems i n ≡ true
    → (j : ℕ) × (i ≤ j) × (j < i + n) × (test (elems j) ≡ true)
unfolding any_from
any_from-true test elems i zero h = absurd (ground arith)
any_from-true test elems i (suc n) h = elim (Bool-cases (test (elems i))) [
  | inl e ↦ (i, omega arith, omega arith, e)
  | inr e ↦
      let (j, lo, hi, t) = any_from-true test elems (i + 1) n (rw e at h) in
      (j, omega arith, omega arith, t)
]

pub any_from-of :
    (test : SyncLevel → Bool) (elems : ℕ → SyncLevel) (i n j : ℕ)
    → i ≤ j
    → j < i + n
    → test (elems j) ≡ true
    → any_from test elems i n ≡ true
unfolding any_from
any_from-of test elems i zero j lo hi h = absurd (omega arith)
any_from-of test elems i (suc n) j lo hi h = elim (Bool-cases (test (elems i))) [
  | inl e ↦ rw e
  | inr e ↦ rw e (any_from-of test elems (i + 1) n j (above e) (omega arith) h)
]
  where
    above : test (elems i) ≡ false → i + 1 ≤ j
    above e = grind arith

pub held-parts :
    (b : Bool) (s : SyncLevel)
    → (not (is_null s.latch) && b) ≡ true
    → (l : ℕ) × (s.latch ≡ some l) × (b ≡ true)
held-parts b s h = ground arith

-- `sync_thread_levels_contain` is true exactly when the thread holds a latch of that level.
pub contain-Holds :
    (array : SyncArr) (level : ℕ)
    → (sync_thread_levels_contain array level ≡ true → Holds array level)
      × (Holds array level → sync_thread_levels_contain array level ≡ true)
unfolding sync_thread_levels_contain
contain-Holds array level = (
  (λ h.
      let (i, lo, hi, t) = any_from-true (at_level level) array.elems 0 array.n_elems h in
      let (l, e, same) = held-parts (_ == level) (array.elems i) t in
      record { cell = i; latch = l; in_range = omega arith; at = e; has = ground arith }),
  (λ h.
      any_from-of (at_level level) array.elems 0 array.n_elems h.cell (omega arith)
        (omega (arith, h.in_range)) (rw h.at (ground (arith, h.has)))),
)

g-below :
    (array : SyncArr) (limit level : ℕ)
    → sync_thread_levels_g array limit ≡ true
    → Holds array level
    → limit < level
unfolding sync_thread_levels_g
g-below array limit level h k = elim (Bool-cases (leb level limit)) [
  | inr above ↦ ground arith
  | inl low ↦
      let bad =
        any_from-of (at_most limit) array.elems 0 array.n_elems k.cell (omega arith)
          (omega (arith, k.in_range)) (rw (k.at, k.has) low) in
      absurd (cc (bad))
]

-- `sync_thread_levels_g` is true exactly when every level that the thread holds is above the limit.
pub g-Holds :
    (array : SyncArr) (limit : ℕ)
    → (sync_thread_levels_g array limit ≡ true → (level : ℕ) → Holds array level → limit < level)
      × (((level : ℕ) → Holds array level → limit < level)
          → sync_thread_levels_g array limit ≡ true)
unfolding sync_thread_levels_g
g-Holds array limit = (
  (λ h level k. g-below array limit level h k),
  (λ all. elim (Bool-cases (any_from (at_most limit) array.elems 0 array.n_elems)) [
    | inr none_low ↦ rw none_low
    | inl low ↦
        let (i, lo, hi, t) = any_from-true (at_most limit) array.elems 0 array.n_elems low in
        let (l, e, small) = held-parts (leb (array.elems i).level limit) (array.elems i) t in
        let above : limit < (array.elems i).level =
          all (array.elems i).level
            (record { cell = i; latch = l; in_range = omega arith; at = e; has = refl }) in
        absurd (ground arith)
  ]),
)

one_of-All : (P : ℕ → Type 0) (xs : List ℕ) (x : ℕ) → All P xs → one_of x xs ≡ true → P x
one_of-All P [] x h e = cc
one_of-All P (y ∷ ys) x h e = elim (Bool-cases (x == y)) [
  | inl same ↦ let same' : y ≡ x = ground arith in subst P same' h.0
  | inr other ↦ one_of-All P ys x h.1 (rw other at e)
]

-- At a plain level the check of `sync_thread_add_level` passes exactly when the level is below all
-- that the thread holds, whatever the server is doing.
pub order_ok-plain :
    (starting prints : Bool) (array : SyncArr) (level : ℕ)
    → one_of level plain_levels ≡ true
    → order_ok starting prints array level ≡ sync_thread_levels_g array level
order_ok-plain starting prints array level h =
    one_of-All (λ l. order_ok starting prints array l ≡ sync_thread_levels_g array l) plain_levels
      level each h
  where
    each : All (λ l. order_ok starting prints array l ≡ sync_thread_levels_g array l) plain_levels
    each =
        unfold order_ok in
        (
          refl,
          (
            refl,
            (
              refl,
              (
                refl,
                (
                  refl,
                  (
                    refl,
                    (
                      refl,
                      (
                        refl,
                        (
                          refl,
                          (
                            refl,
                            (
                              refl,
                              (
                                refl,
                                (
                                  refl,
                                  (
                                    refl,
                                    (
                                      refl,
                                      (
                                        refl,
                                        (
                                          refl,
                                          (
                                            refl,
                                            (
                                              refl,
                                              (
                                                refl,
                                                (
                                                  refl,
                                                  (
                                                    refl,
                                                    (
                                                      refl,
                                                      (
                                                        refl,
                                                        (
                                                          refl,
                                                          (
                                                            refl,
                                                            (
                                                            refl,
                                                            (refl, (refl, (refl, (refl, tt)))),
                                                            ),
                                                          ),
                                                        ),
                                                      ),
                                                    ),
                                                  ),
                                                ),
                                              ),
                                            ),
                                          ),
                                        ),
                                      ),
                                    ),
                                  ),
                                ),
                              ),
                            ),
                          ),
                        ),
                      ),
                    ),
                  ),
                ),
              ),
            ),
          ),
        )
