-- ===== src/Users/Addresses.antt =====
-- The address book: `Address` of django_app/apps/users/models.py and `AddressViewSet` of
-- django_app/apps/users/views.py. The columns that are only shown are one text.
use ecommerce.Prelude.{
  ℕ, refl, Bool, true, false, not, ◌&&◌, ◌||◌, Option, none, String, List, [], ◌∷◌, ◌++◌, ◌==◌, leb,
  if◌then◌else◌, filter_by,
}
use ecommerce.Exec.{Result, ok, err}
use ecommerce.Core.Models.{Model, alive, update_where, update_fields, delete_instance}
use ecommerce.Core.Models.Sorting.{order_by}
use ecommerce.Database.{get_one}

pub data AddressKind : Type 0 where
  shipping billing both : AddressKind

abbrev pub kind_eq : AddressKind → AddressKind → Bool
kind_eq shipping shipping = true
kind_eq billing billing = true
kind_eq both both = true
kind_eq _ _ = false

pub record Address : Type 0 where
  pub id : ℕ
  pub user : ℕ
  pub kind : AddressKind
  pub label : String
  pub text : String
  pub is_default : Bool
  pub created_at : ℕ
  pub deleted_at : Option ℕ

instance abbrev pub address_model : Model Address
address_model = record {
  pk = λ a. a.id;
  deleted_at = λ a. a.deleted_at;
  set_deleted_at = λ d a. record a { deleted_at = d };
  pk-set = λ d a. refl;
  deleted_at-set = λ d a. refl;
  set-set = λ d e a. refl;
  set_self = λ a. refl;
}

-- The fields that a request may write.
pub record AddressInput : Type 0 where
  pub kind : AddressKind
  pub label : String
  pub text : String
  pub is_default : Bool

abbrev pub is_kind_of : ℕ → AddressKind → Address → Bool
is_kind_of user kind a = a.user == user && kind_eq a.kind kind

abbrev pub no_default : Address → Address
no_default a = record a { is_default = false }

abbrev pub as_default : Address → Address
as_default a = record a { is_default = true }

-- `-is_default, -created_at`
abbrev default_first : Address → Address → Bool
default_first a b =
    (a.is_default && not b.is_default)
    || ((a.is_default || not b.is_default) && leb b.created_at a.created_at)

-- `AddressViewSet.get_queryset`, what a user sees
unfoldable pub addresses_of : ℕ → List Address → List Address
addresses_of user t = order_by default_first (filter_by (λ a. a.user == user) (alive t))

-- `serializer.save(user=request.user)`
abbrev pub new_address : ℕ → ℕ → ℕ → AddressInput → Address
new_address now id user input = record {
  id = id;
  user = user;
  kind = input.kind;
  label = input.label;
  text = input.text;
  is_default = input.is_default;
  created_at = now;
  deleted_at = none;
}

-- `AddressViewSet.perform_create`
unfoldable pub perform_create : ℕ → ℕ → ℕ → AddressInput → List Address → List Address
perform_create now id user input t =
    let t' = t ++ new_address now id user input ∷ [] in
    if input.is_default
    then update_where (λ a. is_kind_of user input.kind a && not (a.id == id)) no_default t'
    else t'

-- `get_object`: an address of the user, or 404
abbrev pub own_address : ℕ → ℕ → List Address → Result Address
own_address user id t = get_one (λ a. a.user == user && a.id == id) t

abbrev pub after_get : (Address → List Address) → List Address → Result Address → List Address
after_get f t (ok a) = f a
after_get f t (err e) = t

-- `AddressViewSet.make_default`, on an address that was found
unfoldable pub set_default : ℕ → Address → List Address → List Address
set_default user a t =
    update_fields a.id as_default (update_where (is_kind_of user a.kind) no_default t)

unfoldable pub make_default : ℕ → ℕ → List Address → List Address
unfolding set_default
make_default user id t = after_get (λ a. set_default user a t) t (own_address user id t)

-- The inherited `partial_update`: the row is saved with the fields of the request.
abbrev pub with_input : AddressInput → Address → Address
with_input input a = record a {
  kind = input.kind;
  label = input.label;
  text = input.text;
  is_default = input.is_default;
}

unfoldable pub update : ℕ → ℕ → AddressInput → List Address → List Address
update user id input t =
    after_get (λ a. update_fields a.id (with_input input) t) t (own_address user id t)

-- The inherited `destroy`: the address is only hidden.
unfoldable pub destroy : ℕ → ℕ → ℕ → List Address → List Address
destroy now user id t = after_get (λ a. delete_instance now a t) t (own_address user id t)
