-- ===== src/Core/Models.antt =====
-- django_app/apps/core/models.py: UUID keys and soft deletion. A table is the list of its physical
-- rows, deleted ones included. Keys are numbers, since the code only compares them. Creation and
-- update stamps are not modelled, except where a query reads them.
pub mod Rows
pub mod SoftDelete
pub mod Sorting
pub mod Filtering
pub mod Updating
use ecommerce.Prelude.{
  ℕ, ◌≡◌, Bool, true, false, not, ◌&&◌, Option, none, some, List, [], ◌∷◌, ◌==◌, if◌then◌else◌,
  filter_by,
}

-- What `TimeStampedUUIDModel` gives to each row type: a key, and a stamp that hides the row.
pub record Model (A : Type 0) : Type 0 where
  pub pk : A → ℕ
  pub deleted_at : A → Option ℕ
  pub set_deleted_at : Option ℕ → A → A
  pub pk-set : (d : Option ℕ) (a : A) → pk (set_deleted_at d a) ≡ pk a
  pub deleted_at-set : (d : Option ℕ) (a : A) → deleted_at (set_deleted_at d a) ≡ d
  pub set-set :
      (d e : Option ℕ) (a : A) → set_deleted_at d (set_deleted_at e a) ≡ set_deleted_at d a
  pub set_self : (a : A) → set_deleted_at (deleted_at a) a ≡ a

abbrev pub is_null : Option ℕ → Bool
is_null none = true
is_null (some t) = false

module _ {A : Type 0} ⦃m : Model A⦄ where
  -- `deleted_at__isnull=True`
  abbrev pub is_alive : A → Bool
  is_alive a = is_null (m.deleted_at a)

  -- `SoftDeleteQuerySet.alive`, and the default manager's `get_queryset`
  unfoldable pub alive : List A → List A
  alive = filter_by is_alive

  unfoldable pub dead : List A → List A
  dead = filter_by (λ a. not (is_alive a))

  -- The queryset's `delete` over the rows of the default manager that satisfy `p`.
  unfoldable pub delete_where : ℕ → (A → Bool) → List A → List A
  delete_where now p [] = []
  delete_where now p (a ∷ t) =
      (if is_alive a && p a then m.set_deleted_at (some now) a else a) ∷ delete_where now p t

  -- The queryset's `update`, over the rows of the default manager that satisfy `p`.
  unfoldable pub update_where : (A → Bool) → (A → A) → List A → List A
  update_where p f [] = []
  update_where p f (a ∷ t) = (if is_alive a && p a then f a else a) ∷ update_where p f t

  unfoldable pub hard_delete_where : (A → Bool) → List A → List A
  hard_delete_where p = filter_by (λ a. not (p a))

  -- UPDATE … WHERE pk = …
  unfoldable pub save : A → List A → List A
  save r [] = []
  save r (a ∷ t) = (if m.pk a == m.pk r then r else a) ∷ save r t

  -- A save of some columns only: the other columns keep what is stored.
  unfoldable pub update_fields : ℕ → (A → A) → List A → List A
  update_fields k f [] = []
  update_fields k f (a ∷ t) = (if m.pk a == k then f a else a) ∷ update_fields k f t

  -- The physical row with a key.
  unfoldable pub lookup : ℕ → List A → Option A
  lookup k [] = none
  lookup k (a ∷ t) = if m.pk a == k then some a else lookup k t

  -- The instance methods `delete` and `restore`: the stamp is set and the row is saved.
  unfoldable pub delete_instance : ℕ → A → List A → List A
  delete_instance now a t = save (m.set_deleted_at (some now) a) t

  unfoldable pub restore_instance : A → List A → List A
  restore_instance a t = save (m.set_deleted_at none a) t

  -- No key is used twice.
  abbrev pub Distinct : List A → Type 0
  Distinct [] = Unit
  Distinct (a ∷ t) = (lookup (m.pk a) t ≡ none) × Distinct t

  -- The row stands in the table as it was read.
  abbrev pub IsStored : List A → A → Type 0
  IsStored t a = lookup (m.pk a) t ≡ some a
