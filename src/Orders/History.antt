-- ===== src/Orders/History.antt =====
-- Sequences of status transitions, for django_app/apps/orders/services.py and the table in
-- django_app/apps/orders/models.py: which statuses an order can pass through, and how often.
use ecommerce.Prelude.{
  ℕ, ◌+◌, ◌≤◌, ◌<◌, ◌≡◌, refl, ap, ◌∙◌, inl, inr, true, ◌&&◌, Option, none, some, String, List, [],
  ◌∷◌, arith, ◌==◌, if◌then◌else◌, Bool-cases,
}
use ecommerce.Exec.{Result, is_ok, Outcome-ok}
use ecommerce.Core.Models.{Distinct, lookup}
use ecommerce.Core.Models.Rows.{save-Distinct}
use ecommerce.Orders.{
  Status, pending, paid, packed, shipped, delivered, cancelled, refunded, status_eq, Order,
  order_model, can_transition_to,
}
use ecommerce.Orders.Services.{moved_to, transition_status}
use ecommerce.Orders.Lifecycle.{
  status-moved_to, transition_status-Outcome, transition_status-failed,
}
use ecommerce.Database.{Db}

-- How far along an order is.
abbrev pub rank : Status → ℕ
rank pending = 0
rank paid = 1
rank packed = 2
rank shipped = 3
rank delivered = 4
rank cancelled = 5
rank refunded = 5

can_transition-rank :
    (o : Order) (new : Status) → can_transition_to o new ≡ true → rank o.status < rank new
unfolding can_transition_to
can_transition-rank o new h = ground arith

-- One call of the service.
pub record Request : Type 0 where
  pub now : ℕ
  pub order : ℕ
  pub new : Status
  pub actor : Option ℕ
  pub message : String

abbrev pub serve : Request → Db → Result Order × Db
serve r db = transition_status r.now r.order r.new r.actor r.message db

abbrev pub serve_all : List Request → Db → Db
serve_all [] db = db
serve_all (r ∷ requests) db = serve_all requests (serve r db).1

-- How many of the requests move the order `k` to the status `s`.
abbrev pub entries : ℕ → Status → List Request → Db → ℕ
entries k s [] db = 0
entries k s (r ∷ requests) db =
    (if is_ok (serve r db).0 && (r.order == k && status_eq r.new s) then 1 else 0)
    + entries k s requests (serve r db).1

status_eq_sound : (a b : Status) → status_eq a b ≡ true → a ≡ b
status_eq_sound a b h = ground arith

abbrev rank_at : Option Order → ℕ
rank_at none = 0
rank_at (some o) = rank o.status

-- What one request does to the rank of the order `k`.
record Advances (k : ℕ) (r : Request) (db db' : Db) : Type 0 where
  distinct : Distinct db'.orders
  not_back : rank_at (lookup k db.orders) ≤ rank_at (lookup k db'.orders)
  entered :
      is_ok (serve r db).0 ≡ true
      → r.order ≡ k
      → (rank_at (lookup k db.orders) < rank r.new) × (rank_at (lookup k db'.orders) ≡ rank r.new)

serve-Advances :
    (k : ℕ) (r : Request) (db : Db) → Distinct db.orders → Advances k r db (serve r db).1
serve-Advances k r db distinct = elim (Bool-cases (is_ok (serve r db).0)) [
  | inl done ↦
      let (o, there, allowed, now_there, others, same) =
        Outcome-ok db _ (serve r db)
          (transition_status-Outcome r.now r.order r.new r.actor r.message db distinct) done in
      let moved = moved_to r.now r.new o in
      let up : rank o.status < rank r.new = can_transition-rank o r.new allowed in
      let e : moved.status ≡ r.new = status-moved_to r.now r.new o in
      let at_new : rank_at (lookup r.order (serve r db).1.orders) ≡ rank r.new =
        ap rank_at now_there ∙ ap rank e in
      record {
        distinct = rw same (save-Distinct moved db.orders distinct);
        not_back = elim (Bool-cases (k == r.order)) [
          | inl is_k ↦ ground (arith, ap rank_at there, at_new, up)
          | inr not_k ↦ ground (arith, ap rank_at (others k (ground arith)))
        ];
        entered = λ _ is_k. ground (arith, ap rank_at there, at_new, up);
      }
  | inr failed ↦
      let same = transition_status-failed r.now r.order r.new r.actor r.message db failed in
      record {
        distinct = rw same distinct;
        not_back = rw same (omega arith);
        entered = λ done is_k. absurd (ground arith);
      }
]

-- An order that has reached the rank of `s` does not enter `s` again.
entries_past :
    (k : ℕ) (s : Status) (requests : List Request) (db : Db)
    → Distinct db.orders
    → rank s ≤ rank_at (lookup k db.orders)
    → entries k s requests db ≡ 0
entries_past k s [] db distinct past = refl
entries_past k s (r ∷ requests) db distinct past =
    let a = serve-Advances k r db distinct in
    let rest : entries k s requests (serve r db).1 ≡ 0 =
      entries_past k s requests (serve r db).1 a.distinct (omega (arith, a.not_back)) in
    ground (arith, a.entered, rest, status_eq_sound r.new s)

-- Where no order's key is used twice: whatever transitions are requested, of whatever orders and in
-- whatever sequence, and whether they succeed or not, an order enters each status at most once.
pub entries-le-one :
    (k : ℕ) (s : Status) (requests : List Request) (db : Db)
    → Distinct db.orders
    → entries k s requests db ≤ 1
entries-le-one k s [] db distinct = omega arith
entries-le-one k s (r ∷ requests) db distinct =
    let a = serve-Advances k r db distinct in
    ground (
      arith,
      a.entered,
      entries-le-one k s requests (serve r db).1 a.distinct,
      entries_past k s requests (serve r db).1 a.distinct,
      status_eq_sound r.new s,
    )
