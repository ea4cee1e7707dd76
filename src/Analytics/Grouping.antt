-- ===== src/Analytics/Grouping.antt =====
-- GROUP BY: the rows of a query by a key, as the figures of django_app/apps/analytics need it.
use ecommerce.Prelude.{
  ◌≡◌, refl, ap, ◌∙◌, inl, inr, Bool, true, false, List, [], ◌∷◌, arith, if◌then◌else◌, filter_by,
  any, map, Bool-cases, All, All-map,
}
use ecommerce.Prelude.Int.{ℤ, pos, ◌+ℤ◌, total, int_laws, eq_of_parts}

module _ {A K : Type 0} (same : K → K → Bool) (key : A → K) where
  -- The different keys of the rows.
  abbrev pub keys_of : List A → List K
  keys_of [] = []
  keys_of (x ∷ xs) = let rest = keys_of xs in if any (same (key x)) rest then rest else key x ∷ rest

  abbrev pub with_key : List A → K → List A
  with_key xs k = filter_by (λ x. same (key x) k) xs

  -- One row for each key, from the rows with that key.
  unfoldable pub group : {R : Type 0} → (K → List A → R) → List A → List R
  group row xs = map (λ k. row k (with_key xs k)) (keys_of xs)

pub total-map :
    {A B : Type 0} (w : B → ℤ) (f : A → B) (xs : List A)
    → total w (map f xs) ≡ total (λ x. w (f x)) xs
unfolding total
total-map w f [] = refl
total-map w f (x ∷ xs) = ap (λ z. w (f x) +ℤ z) (total-map w f xs)

pub total_ext :
    {A : Type 0} (v w : A → ℤ) (xs : List A) → ((x : A) → v x ≡ w x) → total v xs ≡ total w xs
unfolding total
total_ext v w [] h = refl
total_ext v w (x ∷ xs) h = rw (h x, total_ext v w xs h) refl

total_zero : {A : Type 0} (xs : List A) → total (λ x. pos 0) xs ≡ pos 0
unfolding total
total_zero [] = refl
total_zero (x ∷ xs) = rw (total_zero xs) (eq_of_parts _ _ (omega int_laws))

module _ {A K : Type 0} (same : K → K → Bool) (key : A → K) where
  -- Each key is there once.
  abbrev pub Once : List K → Type 0
  Once [] = Unit
  Once (k ∷ ks) = (any (same k) ks ≡ false) × Once ks

  pub keys_of-Once : (xs : List A) → Once (keys_of same key xs)
  keys_of-Once [] = tt
  keys_of-Once (x ∷ xs) = ground (arith, keys_of-Once xs)

module _ {A K : Type 0} (same : K → K → Bool) (key : A → K)
    (sound : (k l : K) → same k l ≡ true → k ≡ l) (reflexive : (k : K) → same k k ≡ true) where
  -- A key that is not there adds nothing, and one that is there adds once.
  total-none :
      (k : K) (c : ℤ) (f : K → ℤ) (ks : List K)
      → any (same k) ks ≡ false
      → total (λ l. (if same k l then c else pos 0) +ℤ f l) ks ≡ total f ks
  unfolding total
  total-none k c f [] h = refl
  total-none k c f (l ∷ ks) h = grind (int_laws, total-none k c f ks)

  total-Once :
      (k : K) (c : ℤ) (f : K → ℤ) (ks : List K)
      → Once same key ks
      → any (same k) ks ≡ true
      → total (λ l. (if same k l then c else pos 0) +ℤ f l) ks ≡ c +ℤ total f ks
  unfolding total
  total-Once k c f [] o h = cc
  total-Once k c f (l ∷ ks) o h = elim (Bool-cases (same k l)) [
    | inl e ↦
        let q : k ≡ l = sound k l e in
        let absent : any (same k) ks ≡ false = rw q o.0 in
        rw (e, total-none k c f ks absent) (eq_of_parts _ _ (omega int_laws))
    | inr e ↦ grind (int_laws, total-Once k c f ks o.1)
  ]

  key-any : (x : A) (xs : List A) → any (same (key x)) (keys_of same key (x ∷ xs)) ≡ true
  key-any x xs = elim (Bool-cases (any (same (key x)) (keys_of same key xs))) [
    | inl e ↦ rw (e, e) refl
    | inr e ↦ rw (e, reflexive (key x)) refl
  ]

  keys_of-grows :
      (x : A) (k : K) (xs : List A)
      → any (same k) (keys_of same key xs) ≡ true
      → any (same k) (keys_of same key (x ∷ xs)) ≡ true
  keys_of-grows x k xs h = ground arith

  pub keys_of-any : (xs : List A) → All (λ x. any (same (key x)) (keys_of same key xs) ≡ true) xs
  keys_of-any [] = tt
  keys_of-any (x ∷ xs) =
      (key-any x xs, All-map _ _ (λ y h. keys_of-grows x (key y) xs h) xs (keys_of-any xs))

  pub keys_of-there :
      (k : K) (xs : List A)
      → any (λ x. same (key x) k) xs ≡ true
      → any (same k) (keys_of same key xs) ≡ true
  keys_of-there k [] h = cc
  keys_of-there k (x ∷ xs) h = elim (Bool-cases (same (key x) k)) [
    | inl e ↦ let q : key x ≡ k = sound (key x) k e in rw⁻¹ q (key-any x xs)
    | inr e ↦ keys_of-grows x k xs (keys_of-there k xs (ground arith))
  ]

  with_key-cons :
      (w : A → ℤ) (x : A) (xs : List A) (k : K)
      → total w (with_key same key (x ∷ xs) k)
        ≡ (if same (key x) k then w x else pos 0) +ℤ total w (with_key same key xs k)
  unfolding total
  with_key-cons w x xs k = elim (Bool-cases (same (key x) k)) [
    | inl e ↦ rw e refl
    | inr e ↦ rw e (eq_of_parts _ _ (omega int_laws))
  ]

  total-with_key :
      (w : A → ℤ) (xs : List A) (ks : List K)
      → Once same key ks
      → All (λ x. any (same (key x)) ks ≡ true) xs
      → total (λ k. total w (with_key same key xs k)) ks ≡ total w xs
  unfolding total
  total-with_key w [] ks o h = total_zero ks
  total-with_key w (x ∷ xs) ks o h =
      total_ext _ (λ k. (if same (key x) k then w x else pos 0) +ℤ total w (with_key same key xs k))
        ks (with_key-cons w x xs)
      ∙ total-Once (key x) (w x) (λ k. total w (with_key same key xs k)) ks o h.0
      ∙ ap (λ z. w x +ℤ z) (total-with_key w xs ks o h.1)

  -- The groups share out the rows: what is summed up by group sums up to the whole.
  pub total-group :
      {R : Type 0} (row : K → List A → R) (v : R → ℤ) (w : A → ℤ)
      → ((k : K) (ys : List A) → v (row k ys) ≡ total w ys)
      → (xs : List A) → total v (group same key row xs) ≡ total w xs
  unfolding group
  total-group row v w h xs =
      total-map v (λ k. row k (with_key same key xs k)) (keys_of same key xs)
      ∙ total_ext _ _ (keys_of same key xs) (λ k. h k (with_key same key xs k))
      ∙ total-with_key w xs (keys_of same key xs) (keys_of-Once same key xs) (keys_of-any xs)
