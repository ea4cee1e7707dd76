-- ===== src/Reviews.antt =====
-- django_app/apps/reviews: the model, the serializer and `ReviewViewSet`. A rating that is no number
-- and a PATCH that leaves fields out are not read. The order of a review is not checked against its
-- user, as in the code.
pub mod Moderation
use ecommerce.Prelude.{
  ℕ, refl, Bool, true, false, not, ◌&&◌, ◌||◌, Option, none, some, String, List, [], ◌∷◌, ◌++◌,
  ◌==◌, leb, any, filter_by, if◌then◌else◌,
}
use ecommerce.Prelude.Int.{ℤ, pos, leb_ℤ}
use ecommerce.Exec.{Result, ok, err, does_not_exist, integrity_error}
use ecommerce.Core.Models.{Model, alive, save, delete_instance}
use ecommerce.Core.Models.Sorting.{order_by}
use ecommerce.Core.Permissions.{User, signed_in}
use ecommerce.Catalog.{Product, product_model}
use ecommerce.Orders.{Order, order_model}
use ecommerce.Database.{Db, get_one}
use ecommerce.Api.{Answer, raises, http404, invalid, not_authenticated, service, reply}

pub data ReviewStatus : Type 0 where
  pending approved rejected : ReviewStatus

pub record Review : Type 0 where
  pub id : ℕ
  pub product : ℕ
  pub user : ℕ
  pub order : Option ℕ
  pub rating : ℤ
  pub title : String
  pub body : String
  pub status : ReviewStatus
  pub helpful_count : ℕ
  pub created_at : ℕ
  pub deleted_at : Option ℕ

instance abbrev pub review_model : Model Review
review_model = record {
  pk = λ r. r.id;
  deleted_at = λ r. r.deleted_at;
  set_deleted_at = λ d r. record r { deleted_at = d };
  pk-set = λ d r. refl;
  deleted_at-set = λ d r. refl;
  set-set = λ d e r. refl;
  set_self = λ r. refl;
}

abbrev pub is_approved : Review → Bool
is_approved r = elim r.status [ approved ↦ true | _ ↦ false ]

-- What a request may write; the other fields of `ReviewSerializer` are read-only.
pub record ReviewInput : Type 0 where
  pub product : ℕ
  pub order : Option ℕ
  pub rating : ℤ
  pub title : String
  pub body : String

abbrev is_order : List Order → Option ℕ → Bool
is_order orders none = true
is_order orders (some k) = any (λ o. o.id == k) (alive orders)

-- `validate_rating`
abbrev pub valid_rating : ℤ → Bool
valid_rating val = leb_ℤ (pos 1) val && leb_ℤ val (pos 5)

abbrev pub is_valid : Db → ReviewInput → Bool
is_valid db input =
    valid_rating input.rating
    && any (λ p. p.id == input.product) (alive db.products)
    && is_order db.orders input.order

-- The rows that the unique pair (product, user) is about, the row itself left out.
abbrev pub same_pair : Review → Review → Bool
same_pair a r = not (r.id == a.id) && r.product == a.product && r.user == a.user

-- `serializer.save(user=self.request.user, status=Review.Status.PENDING)`
abbrev pub new_review : ℕ → ℕ → ℕ → ReviewInput → Review
new_review now id user input = record {
  id = id;
  product = input.product;
  user = user;
  order = input.order;
  rating = input.rating;
  title = input.title;
  body = input.body;
  status = pending;
  helpful_count = 0;
  created_at = now;
  deleted_at = none;
}

abbrev pub with_review : ReviewInput → Review → Review
with_review input r = record r {
  product = input.product;
  order = input.order;
  rating = input.rating;
  title = input.title;
  body = input.body;
}

abbrev pub newest_first : Review → Review → Bool
newest_first a b = leb b.created_at a.created_at

-- `get_queryset` for `list` and `retrieve`
unfoldable pub shown : List Review → List Review
shown t = order_by newest_first (filter_by is_approved (alive t))

abbrev retrieved : Result Review → Answer Review
retrieved (ok r) = reply 200 r
retrieved (err does_not_exist) = raises http404
retrieved (err e) = raises (service e)

unfoldable pub retrieve : ℕ → List Review → Answer Review
retrieve pk t = retrieved (get_one (λ r. is_approved r && r.id == pk) t)

abbrev pub insert_review : Review → List Review → Answer Review × List Review
insert_review r t =
    if any (same_pair r) t
    then (raises (service integrity_error), t)
    else (reply 201 r, t ++ r ∷ [])

abbrev pub created_for :
    ℕ → ℕ → Db → ReviewInput → Option ℕ → List Review → Answer Review × List Review
created_for now id db input none t = (raises not_authenticated, t)
created_for now id db input (some user) t =
    if is_valid db input
    then insert_review (new_review now id user input) t
    else (raises invalid, t)

unfoldable pub create_review :
    ℕ → ℕ → Db → Option User → ReviewInput → List Review → Answer Review × List Review
create_review now id db user input t = created_for now id db input (signed_in user) t

-- The row is saved whole.
abbrev pub saved : Db → ReviewInput → Review → List Review → Answer Review × List Review
saved db input r t =
    if not (is_valid db input)
    then (raises invalid, t)
    else if any (same_pair (with_review input r)) t
    then (raises (service integrity_error), t)
    else (reply 200 (with_review input r), save (with_review input r) t)

abbrev pub updated : Db → ReviewInput → List Review → Result Review → Answer Review × List Review
updated db input t (ok r) = saved db input r t
updated db input t (err does_not_exist) = (raises http404, t)
updated db input t (err e) = (raises (service e), t)

abbrev pub update_for : Db → ℕ → ReviewInput → Option ℕ → List Review → Answer Review × List Review
update_for db pk input none t = (raises not_authenticated, t)
update_for db pk input (some user) t = updated db input t (get_one (λ r. r.id == pk) t)

-- The inherited `update`, of any review, by any user.
unfoldable pub update_review :
    Db → Option User → ℕ → ReviewInput → List Review → Answer Review × List Review
update_review db user pk input t = update_for db pk input (signed_in user) t

abbrev pub destroyed : ℕ → List Review → Result Review → Answer (Unit {0}) × List Review
destroyed now t (ok r) = (reply 204 tt, delete_instance now r t)
destroyed now t (err does_not_exist) = (raises http404, t)
destroyed now t (err e) = (raises (service e), t)

abbrev pub destroy_for : ℕ → ℕ → Option ℕ → List Review → Answer (Unit {0}) × List Review
destroy_for now pk none t = (raises not_authenticated, t)
destroy_for now pk (some user) t = destroyed now t (get_one (λ r. r.id == pk) t)

-- The inherited `destroy`, of any review, by any user.
unfoldable pub destroy_review : ℕ → Option User → ℕ → List Review → Answer (Unit {0}) × List Review
destroy_review now user pk t = destroy_for now pk (signed_in user) t
