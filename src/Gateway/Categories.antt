-- ===== src/Gateway/Categories.antt =====
-- `list_categories` of fastapi_app/api/v1/catalog.py and its cache in Redis. Of a cache key only the
-- part after `catalog:categories:` varies. A cache that fails counts as one without the key. The
-- collation of names is a parameter.
use text.Mathlib.Text.{◌==◌ as str_eq}
use text.Mathlib.TextEquality.{eq_iff}
use ecommerce.Prelude.{
  ℕ, ◌+◌, ◌<◌, ◌≡◌, refl, sym, ap, ◌∙◌, inl, inr, Bool, true, false, ◌&&◌, ◌||◌, Option, none, some,
  String, List, [], ◌∷◌, arith, ◌==◌, ltb, any, filter_by, if◌then◌else◌, Bool-cases,
}
use ecommerce.Core.Models.Sorting.{order_by}

pub record Category : Type 0 where
  pub id : ℕ
  pub name : String
  pub slug : String
  pub parent : Option ℕ
  pub is_active : Bool
  pub sort_order : ℕ

-- A value and the time at which Redis forgets it.
abbrev pub Cache : Type 0
Cache = String → Option (List Category × ℕ)

abbrev pub cache_ttl_long : ℕ
cache_ttl_long = 300

-- `parent_slug or 'root'`
abbrev pub cache_key : Option String → String
cache_key none = "root"
cache_key (some s) = if str_eq s "" then "root" else s

abbrev pub remember : String → List Category → ℕ → Cache → Cache
remember k value expires cache j = if str_eq j k then some (value, expires) else cache j

abbrev is_root : Option ℕ → Bool
is_root none = true
is_root (some p) = false

abbrev is_child_of : List Category → String → Option ℕ → Bool
is_child_of t slug none = false
is_child_of t slug (some p) = any (λ k. k.id == p && str_eq k.slug slug) t

-- What is found in the cache: nothing, once it is forgotten, and an empty list counts as nothing.
abbrev pub hit : ℕ → Option (List Category × ℕ) → Option (List Category)
hit now none = none
hit now (some ([], expires)) = none
hit now (some (a ∷ value, expires)) = if ltb now expires then some (a ∷ value) else none

module _ (precedes : String → String → Bool) where
  abbrev in_order : Category → Category → Bool
  in_order a b =
      ltb a.sort_order b.sort_order || (a.sort_order == b.sort_order && precedes a.name b.name)

  -- The two queries, by the key.
  unfoldable pub roots : List Category → List Category
  roots t = order_by in_order (filter_by (λ k. k.is_active && is_root k.parent) t)

  unfoldable pub children : String → List Category → List Category
  children slug t =
      order_by in_order (filter_by (λ k. k.is_active && is_child_of t slug k.parent) t)

  abbrev pub query : Option String → List Category → List Category
  query none t = roots t
  query (some s) t = if str_eq s "" then roots t else children s t

  abbrev answer :
      ℕ → Option String → List Category → Cache → Option (List Category) → List Category × Cache
  answer now parent_slug t cache (some value) = (value, cache)
  answer now parent_slug t cache none =
      let out = query parent_slug t in
      (out, remember (cache_key parent_slug) out (now + cache_ttl_long) cache)

  unfoldable pub list_categories : ℕ → Option String → List Category → Cache → List Category × Cache
  list_categories now parent_slug t cache =
      answer now parent_slug t cache (hit now (cache (cache_key parent_slug)))

  -- The query whose answer belongs under a key.
  abbrev pub query_of : String → List Category → List Category
  query_of k t = if str_eq k "root" then roots t else query (some k) t

  -- Every value in the cache is the answer of the query of its key.
  abbrev pub IsAccurate : List Category → Cache → Type 0
  IsAccurate t cache =
      (k : String) (value : List Category) (expires : ℕ)
      → cache k ≡ some (value, expires)
      → value ≡ query_of k t

  hit_sound :
      (now : ℕ) (e : Option (List Category × ℕ)) (value : List Category)
      → hit now e ≡ some value
      → (expires : ℕ) × (e ≡ some (value, expires))
  hit_sound now none value h = absurd (ground arith)
  hit_sound now (some ([], expires)) value h = absurd (ground arith)
  hit_sound now (some (a ∷ v, expires)) value h = (expires, ground arith)

  -- A parent whose slug is the text that the key of the roots has.
  abbrev pub names_root : Option String → Bool
  names_root none = false
  names_root (some s) = str_eq s "root"

  query_of-cache_key :
      (t : List Category) (parent_slug : Option String)
      → names_root parent_slug ≡ false
      → query_of (cache_key parent_slug) t ≡ query parent_slug t
  query_of-cache_key t none h = refl
  query_of-cache_key t (some s) h = elim (Bool-cases (str_eq s "")) [
    | inl e ↦ rw e refl
    | inr e ↦ rw (e, h, e) refl
  ]

  remember-IsAccurate :
      (t : List Category) (cache : Cache) (k : String) (value : List Category) (expires : ℕ)
      → IsAccurate t cache
      → value ≡ query_of k t
      → IsAccurate t (remember k value expires cache)
  remember-IsAccurate t cache k value expires accurate fits j value' expires' =
      elim (Bool-cases (str_eq j k)) [
        | inl e ↦ rw e (λ stored.
            let same : value ≡ value' = ground arith in
            sym same ∙ fits ∙ ap (λ x. query_of x t) (sym ((eq_iff j k).0 e)))
        | inr e ↦ rw e (λ stored. accurate j value' expires' stored)
      ]

  -- While the categories do not change and the cache is accurate for them: a request that does not
  -- name a parent with the slug `root` is answered with what its query gives, whether the answer comes
  -- from the cache or not, and the cache stays accurate.
  pub list_categories_lem :
      (now : ℕ) (parent_slug : Option String) (t : List Category) (cache : Cache)
      → IsAccurate t cache
      → names_root parent_slug ≡ false
      → let (out, cache') = list_categories now parent_slug t cache in
        (out ≡ query parent_slug t) × IsAccurate t cache'
  unfolding list_categories
  list_categories_lem now parent_slug t cache accurate clear =
      by_hit (hit now (cache (cache_key parent_slug))) refl
    where
      fits : query_of (cache_key parent_slug) t ≡ query parent_slug t
      fits = query_of-cache_key t parent_slug clear

      by_hit :
          (h : Option (List Category))
          → hit now (cache (cache_key parent_slug)) ≡ h
          → let (out, cache') = answer now parent_slug t cache h in
            (out ≡ query parent_slug t) × IsAccurate t cache'
      by_hit (some value) e =
          let (expires, stored) = hit_sound now (cache (cache_key parent_slug)) value e in
          (accurate (cache_key parent_slug) value expires stored ∙ fits, accurate)
      by_hit none e = (
        refl,
        remember-IsAccurate t cache (cache_key parent_slug) (query parent_slug t)
            (now + cache_ttl_long) accurate (sym fits),
      )

  -- There are root categories and none are cached; they are listed. A request for the children of a
  -- category with the slug `root`, before the cached list is forgotten, is then answered with the
  -- root categories.
  pub list_categories-root :
      (now later : ℕ) (t : List Category) (cache : Cache) (a : Category) (rest : List Category)
      → roots t ≡ a ∷ rest
      → hit now (cache "root") ≡ none
      → later < now + 300
      → let (out, cache') = list_categories now none t cache in
        (out ≡ roots t) × ((list_categories later (some "root") t cache').0 ≡ roots t)
  unfolding list_categories
  list_categories-root now later t cache a rest some_roots missing soon =
      let early : ltb later (now + 300) ≡ true = ground arith in
      rw (missing, some_roots, early) (refl, refl)
