-- ===== src/BTree/Laws.antt =====
-- The laws of the map: look-up after a change, order, size, and what holds of every entry.
use open_shield.Base.{
  ℕ, suc, ◌+◌, ◌≤◌, ◌<◌, ◌≡◌, refl, Bool, none, some, is_some, List, [], ◌∷◌, arith, ltb, ◌==◌,
  if◌then◌else◌, length, All, count_if, inl, inr, Bool-cases,
}
use open_shield.BTree.{get, insert, remove, values, Ordered}

module _ {ℓ} {V : Type ℓ} where
  pub get-insert :
      (k j : ℕ) (v : V) (m : List (ℕ × V))
      → get j (insert k v m) ≡ (if k == j then some v else get j m)
  unfolding get insert
  get-insert k j v [] = ground arith
  get-insert k j v ((i, w) ∷ m) = ground (arith, get-insert k j v m)

  pub get_below : (lo k : ℕ) (m : List (ℕ × V)) → Ordered lo m → k < lo → get k m ≡ none
  unfolding get
  get_below lo k [] s h = refl
  get_below lo k ((i, w) ∷ m) s h = ground (arith, get_below (suc i) k m s.1)

  pub get-remove :
      (lo k j : ℕ) (m : List (ℕ × V))
      → Ordered lo m
      → get j (remove k m) ≡ (if k == j then none else get j m)
  unfolding get remove
  get-remove lo k j [] s = ground arith
  get-remove lo k j ((i, w) ∷ m) s =
      ground (arith, get-remove (suc i) k j m s.1, get_below (suc i) j m s.1)

  pub Ordered-mono : (lo hi : ℕ) (m : List (ℕ × V)) → lo ≤ hi → Ordered hi m → Ordered lo m
  Ordered-mono lo hi [] h s = tt
  Ordered-mono lo hi ((k, v) ∷ m) h s = (omega arith, s.1)

  pub Ordered-insert :
      (lo k : ℕ) (v : V) (m : List (ℕ × V)) → lo ≤ k → Ordered lo m → Ordered lo (insert k v m)
  unfolding insert
  Ordered-insert lo k v [] h s = (h, tt)
  Ordered-insert lo k v ((j, w) ∷ m) h s =
      ground (arith, Ordered-insert (suc j) k v m, Ordered-mono (suc j) (suc k) m)

  pub Ordered-remove : (lo k : ℕ) (m : List (ℕ × V)) → Ordered lo m → Ordered lo (remove k m)
  unfolding remove
  Ordered-remove lo k [] s = tt
  Ordered-remove lo k ((j, w) ∷ m) s =
      ground (arith, Ordered-remove (suc j) k m s.1, Ordered-mono lo (suc j) m)

  pub length-insert :
      (lo k : ℕ) (v : V) (m : List (ℕ × V))
      → Ordered lo m
      → length (insert k v m) ≡ (if is_some (get k m) then length m else suc (length m))
  unfolding insert get
  length-insert lo k v [] s = refl
  length-insert lo k v ((j, w) ∷ m) s =
      ground (arith, length-insert (suc j) k v m s.1, get_below (suc j) k m s.1)

  pub length-remove-le : (k : ℕ) (m : List (ℕ × V)) → length (remove k m) ≤ length m
  unfolding remove
  length-remove-le k [] = omega arith
  length-remove-le k ((j, w) ∷ m) = ground (arith, length-remove-le k m)

  pub length-remove :
      (k : ℕ) (m : List (ℕ × V)) (v : V) → get k m ≡ some v → suc (length (remove k m)) ≡ length m
  unfolding get remove
  length-remove k [] v h = cc
  length-remove k ((j, w) ∷ m) v h = ground (arith, length-remove k m v)

  -- Removing a key that was just inserted gives the map back.
  pub remove-insert :
      (lo k : ℕ) (v : V) (m : List (ℕ × V))
      → Ordered lo m
      → get k m ≡ none
      → remove k (insert k v m) ≡ m
  unfolding get insert remove
  remove-insert lo k v [] s h = ground arith
  remove-insert lo k v ((j, w) ∷ m) s h = ground (arith, remove-insert (suc j) k v m s.1)

  module _ {κ} (P : ℕ × V → Type κ) where
    pub All-insert : (k : ℕ) (v : V) (m : List (ℕ × V)) → P (k, v) → All P m → All P (insert k v m)
    unfolding insert
    All-insert k v [] p a = (p, tt)
    All-insert k v ((j, w) ∷ m) p a = elim (Bool-cases (ltb k j)) [
      | inl less ↦ rw less (p, a)
      | inr more ↦ elim (Bool-cases (k == j)) [
        | inl eq ↦ rw (more, eq) (p, a.1)
        | inr ne ↦ rw (more, ne) (a.0, All-insert k v m p a.1)
      ]
    ]

    pub All-remove : (k : ℕ) (m : List (ℕ × V)) → All P m → All P (remove k m)
    unfolding remove
    All-remove k [] a = tt
    All-remove k ((j, w) ∷ m) a = elim (Bool-cases (j == k)) [
      | inl eq ↦ rw eq a.1
      | inr ne ↦ rw ne (a.0, All-remove k m a.1)
    ]

    pub All-get : (k : ℕ) (m : List (ℕ × V)) (v : V) → get k m ≡ some v → All P m → P (k, v)
    unfolding get
    All-get k [] v h a = cc
    All-get k ((j, w) ∷ m) v h a = elim (Bool-cases (j == k)) [
      | inl eq ↦ let e : ◌≡◌ {A = ℕ × V} (j, w) (k, v) = ground arith in rw (← e) a.0
      | inr ne ↦ All-get k m v (ground arith) a.1
    ]

  -- A count over the values grows by the inserted value, if the key is new.
  pub count_if-insert :
      (p : V → Bool) (k : ℕ) (v : V) (lo : ℕ) (m : List (ℕ × V))
      → Ordered lo m
      → get k m ≡ none
      → count_if p (values (insert k v m)) ≡ (if p v then 1 else 0) + count_if p (values m)
  unfolding insert get
  count_if-insert p k v lo [] s h = refl
  count_if-insert p k v lo ((j, w) ∷ m) s h = ground (arith, count_if-insert p k v (suc j) m s.1)

  pub length-values : (m : List (ℕ × V)) → length (values m) ≡ length m
  length-values [] = refl
  length-values (e ∷ m) = omega (arith, length-values m)
