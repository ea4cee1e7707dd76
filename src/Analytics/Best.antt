-- ===== src/Analytics/Best.antt =====
-- The products that sell best: `top_products` of django_app/apps/analytics/services.py.
use ecommerce.Prelude.{
  ℕ, zero, suc, ◌≤◌, ◌≡◌, refl, sym, ap, ◌∙◌, inl, inr, Bool, true, false, Option, List, [], ◌∷◌,
  arith, any, map, take, length, Bool-cases, All, All-map, All-map_list,
}
use ecommerce.Prelude.Int.{ℤ, ◌≤ℤ◌, total, int_laws, parts_of_eq}
use ecommerce.Core.Models.Sorting.{order_by, insert_by, order_by-All, IsSorted, order_by-IsSorted}
use ecommerce.Catalog.{ProductVariant}
use ecommerce.Orders.{Order, OrderItem}
use ecommerce.Analytics.Grouping.{keys_of, keys_of-there, with_key, group}
use ecommerce.Analytics.{
  ProductRow, product_of, same_product, quantity_of, product_row, more_sold, sold_items,
  top_products,
}

pub take-All : {A : Type 0} (P : A → Type 0) (n : ℕ) (xs : List A) → All P xs → All P (take n xs)
take-All P zero xs h = tt
take-All P (suc n) [] h = tt
take-All P (suc n) (x ∷ xs) h = (h.0, take-All P n xs h.1)

take-IsSorted :
    {A : Type 0} (R : A → A → Type 0) (n : ℕ) (xs : List A) → IsSorted R xs → IsSorted R (take n xs)
take-IsSorted R zero xs h = tt
take-IsSorted R (suc n) [] h = tt
take-IsSorted R (suc n) (x ∷ xs) h = (take-All (R x) n xs h.0, take-IsSorted R n xs h.1)

length-take-le : {A : Type 0} (n : ℕ) (xs : List A) → length (take n xs) ≤ n
length-take-le zero xs = omega arith
length-take-le (suc n) [] = omega arith
length-take-le (suc n) (x ∷ xs) = omega (arith, length-take-le n xs)

module _ (q : ProductRow → Bool) (c : ℤ) where
  found-le :
      (x : ProductRow) (xs : List ProductRow)
      → any q xs ≡ true
      → All (λ y. q y ≡ true → y.qty ≡ c) xs
      → All (λ y. y.qty ≤ℤ x.qty) xs
      → c ≤ℤ x.qty
  found-le x [] there all le = cc
  found-le x (y ∷ xs) there all le = elim (Bool-cases (q y)) [
    | inl e ↦ let k : y.qty ≡ c = all.0 e in omega (int_laws, parts_of_eq k, le.0)
    | inr e ↦ found-le x xs (ground arith) all.1 le.1
  ]

  -- A row that is cut off sells no more than those before it, which are as many as may be.
  cut_off :
      (n : ℕ) (xs : List ProductRow)
      → IsSorted (λ a b. b.qty ≤ℤ a.qty) xs
      → any q xs ≡ true
      → any q (take n xs) ≡ false
      → All (λ y. q y ≡ true → y.qty ≡ c) xs
      → All (λ y. c ≤ℤ y.qty) (take n xs) × (length (take n xs) ≡ n)
  cut_off zero xs s there cut all = (tt, refl)
  cut_off (suc n) [] s there cut all = cc
  cut_off (suc n) (x ∷ xs) s there cut all =
      let no : q x ≡ false = ground arith in
      let later : any q xs ≡ true = ground arith in
      let (le, size) = cut_off n xs s.1 later (ground arith) all.1 in
      ((found-le x xs later all.1 s.0, le), omega (arith, size))

any-insert_by :
    (q : ProductRow → Bool) (r : ProductRow) (rs : List ProductRow)
    → any q (r ∷ rs) ≡ true
    → any q (insert_by more_sold r rs) ≡ true
unfolding insert_by
any-insert_by q r [] h = h
any-insert_by q r (s ∷ rs) h = ground (arith, any-insert_by q r rs)

any-order_by :
    (q : ProductRow → Bool) (rs : List ProductRow)
    → any q rs ≡ true
    → any q (order_by more_sold rs) ≡ true
unfolding order_by
any-order_by q [] h = h
any-order_by q (r ∷ rs) h =
    any-insert_by q r (order_by more_sold rs) (ground (arith, any-order_by q rs))

same_product_sound : (k l : Option ℕ) → same_product k l ≡ true → k ≡ l
same_product_sound k l h = ground arith

same_product_refl : (k : Option ℕ) → same_product k k ≡ true
same_product_refl k = ground arith

any-map :
    (k : Option ℕ) (f : Option ℕ → ProductRow) (ks : List (Option ℕ))
    → ((l : Option ℕ) → (f l).product ≡ l)
    → any (same_product k) ks ≡ true
    → any (λ r. same_product k r.product) (map f ks) ≡ true
any-map k f [] h e = cc
any-map k f (l ∷ ks) h e = ground (arith, h l, any-map k f ks h)

module _ (limit now days : ℕ) (variants : List ProductVariant) (orders : List Order)
    (items : List OrderItem) where
  -- The items of a product that the figures are about.
  abbrev pub sold_of : Option ℕ → List OrderItem
  sold_of k = with_key same_product (product_of variants) (sold_items now days orders items) k

  keys : List (Option ℕ)
  keys = keys_of same_product (product_of variants) (sold_items now days orders items)

  rows : List ProductRow
  rows = group same_product (product_of variants) product_row (sold_items now days orders items)

  every : {A : Type 0} (P : A → Type 0) (xs : List A) → ((x : A) → P x) → All P xs
  every P [] h = tt
  every P (x ∷ xs) h = (h x, every P xs h)

  rows-All : All (λ r. r ≡ product_row r.product (sold_of r.product)) rows
  unfolding rows group keys
  rows-All =
      All-map_list (λ r. r ≡ product_row r.product (sold_of r.product))
        (λ k. product_row k (sold_of k)) keys (every _ keys (λ k. refl))

  rows-IsSorted : IsSorted (λ a b. b.qty ≤ℤ a.qty) (order_by more_sold rows)
  rows-IsSorted =
      order_by-IsSorted (λ a b. Unit) (λ a b. b.qty ≤ℤ a.qty) more_sold (λ a b d e. ground arith)
        (λ a b d e. ground arith) (λ a b c h k. omega (int_laws, h, k)) rows (all_pairs rows)
    where
      all_pairs : (xs : List ProductRow) → IsSorted (λ a b. Unit) xs
      all_pairs [] = tt
      all_pairs (x ∷ xs) = (every (λ b. Unit) xs (λ b. tt), all_pairs xs)

  in_rows :
      (k : Option ℕ)
      → any (same_product k) keys ≡ true
      → any (λ r. same_product k r.product) rows ≡ true
  unfolding rows group keys
  in_rows k h = any-map k (λ l. product_row l (sold_of l)) keys (λ l. refl) h

  -- The listed products are at most as many as asked for, each with what was sold of it, and in the
  -- order of the quantities. A product of which items were sold and that is not listed sold no more
  -- than each of the listed ones, and then the list is full.
  pub top_products_lem :
      let out = top_products limit now days variants orders items in
      (length out ≤ limit)
      × All (λ r. r ≡ product_row r.product (sold_of r.product)) out
      × IsSorted (λ a b. b.qty ≤ℤ a.qty) out
      × ((k : Option ℕ)
          → any (λ i. same_product (product_of variants i) k) (sold_items now days orders items)
            ≡ true
          → any (λ r. same_product k r.product) out ≡ false
          → All (λ r. total quantity_of (sold_of k) ≤ℤ r.qty) out × (length out ≡ limit))
  unfolding top_products rows keys
  top_products_lem =
      let sorted : List ProductRow = order_by more_sold rows in
      let says =
        order_by-All (λ r. r ≡ product_row r.product (sold_of r.product)) more_sold rows rows-All in
      (
        length-take-le limit sorted,
        take-All _ limit sorted says,
        take-IsSorted _ limit sorted rows-IsSorted,
        λ k sold absent.
            cut_off (λ r. same_product k r.product) (total quantity_of (sold_of k)) limit sorted
              rows-IsSorted (listed k sold) absent
              (All-map (λ r. r ≡ product_row r.product (sold_of r.product))
                (λ r. same_product k r.product ≡ true → r.qty ≡ total quantity_of (sold_of k))
                (qty_of k) sorted says),
      )
    where
      qty_of :
          (k : Option ℕ) (r : ProductRow)
          → r ≡ product_row r.product (sold_of r.product)
          → same_product k r.product ≡ true
          → r.qty ≡ total quantity_of (sold_of k)
      qty_of k r e s =
          let q : k ≡ r.product = same_product_sound k r.product s in
          ap (λ (x : ProductRow). x.qty) e ∙ ap (λ l. total quantity_of (sold_of l)) (sym q)

      listed :
          (k : Option ℕ)
          → any (λ i. same_product (product_of variants i) k) (sold_items now days orders items)
            ≡ true
          → any (λ r. same_product k r.product) (order_by more_sold rows) ≡ true
      listed k sold =
          any-order_by (λ r. same_product k r.product) rows
            (in_rows k (
              keys_of-there same_product (product_of variants) same_product_sound same_product_refl
                k (sold_items now days orders items) sold))
