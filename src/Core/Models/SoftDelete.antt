-- ===== src/Core/Models/SoftDelete.antt =====
-- What soft deletion promises: django_app/apps/core/models.py.
use ecommerce.Prelude.{
  ℕ, ◌+◌, ◌≡◌, refl, sym, ap, ◌∙◌, Bool, false, not, none, some, List, [], ◌∷◌, arith, filter_by,
  length,
}
use ecommerce.Core.Models.{
  Model, is_null, is_alive, alive, dead, delete_where, save, lookup, delete_instance,
  restore_instance,
}
use ecommerce.Core.Models.Rows.{lookup-save_self}

module _ {A : Type 0} ⦃m : Model A⦄ where
  -- A queryset's delete hides exactly the living rows that it selects, and removes no row.
  pub alive-delete_where :
      (now : ℕ) (p : A → Bool) (t : List A)
      → (alive (delete_where now p t) ≡ filter_by (λ a. not (p a)) (alive t))
        × (length (delete_where now p t) ≡ length t)
  unfolding alive delete_where
  alive-delete_where now p [] = (refl, refl)
  alive-delete_where now p (a ∷ t) =
      ground (arith, m.deleted_at-set (some now) a, alive-delete_where now p t)

  -- The rows of a table are split between `alive` and `dead`.
  pub length-alive-dead : (t : List A) → length (alive t) + length (dead t) ≡ length t
  unfolding alive dead
  length-alive-dead [] = omega arith
  length-alive-dead (a ∷ t) = ground (arith, length-alive-dead t)

  -- For a living row `a` that is in the table: once it is deleted, its stored copy is hidden from
  -- the default manager, and restoring that copy puts `a` back.
  pub restore-delete :
      (now : ℕ) (a : A) (t : List A)
      → m.deleted_at a ≡ none
      → lookup (m.pk a) t ≡ some a
      → let gone = m.set_deleted_at (some now) a in
        (is_alive gone ≡ false)
        × (lookup (m.pk a) (delete_instance now a t) ≡ some gone)
        × (lookup (m.pk a) (restore_instance gone (delete_instance now a t)) ≡ some a)
  unfolding delete_instance restore_instance
  restore-delete now a t living stored =
      let gone : A = m.set_deleted_at (some now) a in
      let back : A = m.set_deleted_at none gone in
      let e : m.pk gone ≡ m.pk a = m.pk-set (some now) a in
      let q : back ≡ a =
        m.set-set none (some now) a ∙ ap (λ d. m.set_deleted_at d a) (sym living) ∙ m.set_self a in
      let there : lookup (m.pk a) (save gone t) ≡ some gone =
        rw e at (lookup-save_self gone a t (rw e stored)) in
      (
        ap is_null (m.deleted_at-set (some now) a),
        there,
        rw q (lookup-save_self a gone (save gone t) there),
      )
