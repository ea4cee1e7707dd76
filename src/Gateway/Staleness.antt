-- ===== src/Gateway/Staleness.antt =====
-- How old the answers of fastapi_app/api/v1/catalog.py may be that come from the cache.
use ecommerce.Prelude.{
  ℕ, ◌+◌, ◌≡◌, refl, sym, ◌≤◌, ◌<◌, ◌⊎◌, inl, inr, Bool, Option, none, some, String, List, [], ◌∷◌,
  arith, Bool-cases,
}
use ecommerce.Gateway.Details.{
  Shop, ProductDetail, Entry, Brand, cache_get, cache_set, unless_empty, detail_at, Times, found,
  served, product_detail, active_brands, served_brands, list_brands,
}

-- A value in the cache was right at a time that is past, and is forgotten `ttl` seconds later.
abbrev pub IsRecent : {A : Type 0} → ℕ → (ℕ → A → Type 0) → ℕ → Entry A → Type 0
IsRecent {A} ttl Right now entry =
    (value : A) (expires : ℕ)
    → entry ≡ some (value, expires)
    → (s : ℕ) × (s ≤ now) × (expires ≡ s + ttl) × Right s value

-- An answer that was right less than `ttl` seconds ago.
abbrev pub WasRight : {A : Type 0} → ℕ → (ℕ → A → Type 0) → ℕ → A → Type 0
WasRight ttl Right now out = (s : ℕ) × (s ≤ now) × (now < s + ttl) × Right s out

module _ {A : Type 0} (ttl : ℕ) (Right : ℕ → A → Type 0) where
  cache_get-WasRight :
      (now : ℕ) (entry : Entry A) (value : A)
      → IsRecent ttl Right now entry
      → cache_get now entry ≡ some value
      → WasRight ttl Right now value
  cache_get-WasRight now none value recent e = absurd (ground arith)
  cache_get-WasRight now (some (v, expires)) value recent e =
      let (s, past, ends, right) = recent v expires refl in
      let early : (now < expires) × (v ≡ value) = ground arith in
      (s, past, omega arith, rw early.1 at right)

  cache_set-IsRecent :
      (dumps : A → Bool) (now : ℕ) (out : A) (entry : Entry A)
      → Right now out
      → IsRecent ttl Right now entry
      → IsRecent ttl Right now (cache_set dumps (now + ttl) out entry)
  cache_set-IsRecent dumps now out entry right recent value expires =
      elim (Bool-cases (dumps out)) [
        | inl e ↦ rw e (λ same.
            let parts : (out ≡ value) × (now + ttl ≡ expires) = ground arith in
            (now, omega arith, sym parts.1, rw parts.0 at right))
        | inr e ↦ rw e (λ same. recent value expires same)
      ]

abbrev pub AreInOrder : Times → Type 0
AreInOrder t =
    (t.start ≤ t.product)
    × (t.product ≤ t.variants)
    × (t.variants ≤ t.images)
    × (t.images ≤ t.written)

module _ (precedes : String → String → Bool) (shop : ℕ → Shop) (span : ℕ) where
  -- What the three queries, one after another, give in the `span` seconds before a time.
  abbrev pub Answers : String → ℕ → Option ProductDetail → Type 0
  Answers slug s out =
      (a : ℕ) × (b : ℕ) × (c : ℕ) × (s ≤ a + span)
      × (a ≤ b)
      × (b ≤ c)
      × (c ≤ s)
      × (out ≡ detail_at precedes slug (shop a) (shop b) (shop c))

  abbrev pub Details : String → ℕ → ProductDetail → Type 0
  Details slug s d = Answers slug s (some d)

  -- The tables and the cache may change at any time. A request takes at most `span` seconds from its
  -- first query to its write, and the same held of what is cached for the slug when it was written, 30
  -- seconds before it is forgotten, both when the request reads the cache and when it writes. Then the
  -- answer is what its own queries give, or what those of an earlier request gave that has written it
  -- less than 30 seconds before this one reads the cache. The same holds of what is cached afterwards,
  -- whether or not the answer can be written to the cache.
  pub product_detail_lem :
      (dumps : ProductDetail → Bool) (times : Times) (slug : String)
      (entry later : Entry ProductDetail)
      → AreInOrder times
      → times.written ≤ times.product + span
      → IsRecent 30 (Details slug) times.start entry
      → IsRecent 30 (Details slug) times.written later
      → let (out, entry') = product_detail precedes dumps shop times slug entry later in
        (Answers slug times.written out ⊎ WasRight 30 (Answers slug) times.start out)
        × IsRecent 30 (Details slug) times.written entry'
  unfolding product_detail
  product_detail_lem dumps times slug entry later (i, j, k, l) quick before meanwhile =
      by_get (cache_get times.start entry) refl
    where
      by_query :
          (q : Option ProductDetail)
          → q
            ≡ detail_at precedes slug (shop times.product) (shop times.variants) (shop times.images)
          → let (out, entry') = found precedes dumps times later q in
            (Answers slug times.written out ⊎ WasRight 30 (Answers slug) times.start out)
            × IsRecent 30 (Details slug) times.written entry'
      by_query none e =
          (inl (times.product, times.variants, times.images, quick, j, k, l, e), meanwhile)
      by_query (some d) e =
          let right : Answers slug times.written (some d) =
            (times.product, times.variants, times.images, quick, j, k, l, e) in
          (inl right, cache_set-IsRecent 30 _ dumps times.written d later right meanwhile)

      by_get :
          (c : Option ProductDetail)
          → cache_get times.start entry ≡ c
          → let (out, entry') = served precedes dumps shop times slug later c in
            (Answers slug times.written out ⊎ WasRight 30 (Answers slug) times.start out)
            × IsRecent 30 (Details slug) times.written entry'
      by_get (some d) e =
          let (s, past, soon, right) = cache_get-WasRight 30 _ times.start entry d before e in
          (inr (s, past, soon, right), meanwhile)
      by_get none e =
          by_query
            (detail_at precedes slug (shop times.product) (shop times.variants) (shop times.images))
            refl

  -- The same of the brands, which one query gives.
  abbrev pub Listed : ℕ → List Brand → Type 0
  Listed s bs = (a : ℕ) × (s ≤ a + span) × (a ≤ s) × (bs ≡ active_brands precedes (shop a))

  -- The brands are kept for 300 seconds; a list of no brands is not taken from the cache.
  pub list_brands_lem :
      (dumps : List Brand → Bool) (start read written : ℕ) (entry later : Entry (List Brand))
      → read ≤ written
      → written ≤ read + span
      → IsRecent 300 Listed start entry
      → IsRecent 300 Listed written later
      → let (out, entry') = list_brands precedes dumps shop start read written entry later in
        (Listed written out ⊎ WasRight 300 Listed start out) × IsRecent 300 Listed written entry'
  unfolding list_brands
  list_brands_lem dumps start read written entry later le quick before meanwhile =
      by_get (cache_get start entry) refl
    where
      queried :
          let (out, entry') = served_brands precedes dumps shop read written later none in
          (Listed written out ⊎ WasRight 300 Listed start out) × IsRecent 300 Listed written entry'
      queried =
          let right : Listed written (active_brands precedes (shop read)) =
            (read, quick, le, refl) in
          (inl right, cache_set-IsRecent 300 _ dumps written _ later right meanwhile)

      by_get :
          (c : Option (List Brand))
          → cache_get start entry ≡ c
          → let (out, entry') =
              served_brands precedes dumps shop read written later (unless_empty c) in
            (Listed written out ⊎ WasRight 300 Listed start out)
            × IsRecent 300 Listed written entry'
      by_get none e = queried
      by_get (some []) e = queried
      by_get (some (b ∷ bs)) e =
          (inr (cache_get-WasRight 300 _ start entry (b ∷ bs) before e), meanwhile)
