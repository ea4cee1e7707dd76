-- ===== src/Inventory.antt =====
-- django_app/apps/inventory: warehouses, stock rows, their movements, and the service layer.
-- Quantities are Python ints, so they are signed. A movement's key is drawn at random and read by
-- nothing, so it is left out; a movement's reference is an order's key, or nothing. A warehouse's
-- code is only compared, so it is a number.
pub mod Allocation
pub mod Rules
pub mod Effects
pub mod Reserve
pub mod Invariant
pub mod Commit
pub mod Sequences
pub mod Audit
pub mod Adjust
use ecommerce.Prelude.{
  ℕ, zero, ◌+◌, ◌≡◌, refl, Bool, true, false, ◌&&◌, Option, none, some, String, List, [], ◌∷◌, ◌++◌,
  leb, ◌==◌, if◌then◌else◌, filter_by, any, head?,
}
use ecommerce.Prelude.Int.{ℤ, pos, ◌+ℤ◌, ◌-ℤ◌, ltb_ℤ, leb_ℤ, min_ℤ, max_ℤ, total}
use ecommerce.Exec.{
  Exec, ok, err, integrity_error, value_error, does_not_exist, out_of_stock, pure, gets, modify,
  raise_if, or_raise, ◌>>=◌, ◌>>◌, atomic,
}
use ecommerce.Core.Models.{Model, alive, is_alive, save, lookup}
use ecommerce.Core.Models.Sorting.{order_by}

pub record Warehouse : Type 0 where
  pub id : ℕ
  pub code : ℕ
  pub is_active : Bool
  pub priority : ℕ
  pub deleted_at : Option ℕ

pub record Stock : Type 0 where
  pub id : ℕ
  pub variant : ℕ
  pub warehouse : ℕ
  pub on_hand : ℤ
  pub reserved : ℤ
  pub safety_buffer : ℕ
  pub low_stock_threshold : ℕ
  pub deleted_at : Option ℕ

instance abbrev pub warehouse_model : Model Warehouse
warehouse_model = record {
  pk = λ w. w.id;
  deleted_at = λ w. w.deleted_at;
  set_deleted_at = λ d w. record w { deleted_at = d };
  pk-set = λ d w. refl;
  deleted_at-set = λ d w. refl;
  set-set = λ d e w. refl;
  set_self = λ w. refl;
}

instance abbrev pub stock_model : Model Stock
stock_model = record {
  pk = λ s. s.id;
  deleted_at = λ s. s.deleted_at;
  set_deleted_at = λ d s. record s { deleted_at = d };
  pk-set = λ d s. refl;
  deleted_at-set = λ d s. refl;
  set-set = λ d e s. refl;
  set_self = λ s. refl;
}

unfoldable pub available : Stock → ℤ
available s = max_ℤ (s.on_hand -ℤ s.reserved -ℤ pos s.safety_buffer) (pos 0)

unfoldable pub is_low : Stock → Bool
unfolding available
is_low s = leb_ℤ (available s) (pos s.low_stock_threshold)

-- `StockMovement.Reason`
pub data Reason : Type 0 where
  purchase sale return adjustment transfer_in transfer_out reservation reservation_release : Reason

pub record StockMovement : Type 0 where
  pub stock : ℕ
  pub quantity : ℤ
  pub reason : Reason
  pub reference : Option ℕ
  pub note : String

pub record StockSnapshot : Type 0 where
  pub variant_id : ℕ
  pub available : ℤ
  pub on_hand : ℤ
  pub reserved : ℤ

-- The tables of the app.
pub record Inventory : Type 0 where
  pub warehouses : List Warehouse
  pub stocks : List Stock
  pub movements : List StockMovement

-- `sum(s.available for s in qs)` over the rows of a variant
unfoldable pub get_available : ℕ → Inventory → ℤ
get_available variant_id inv =
    total available (filter_by (λ s. s.variant == variant_id) (alive inv.stocks))

-- `warehouse__is_active`: the join does not look at the warehouse's own deletion stamp.
abbrev pub in_active_warehouse : List Warehouse → Stock → Bool
in_active_warehouse ws s = elim (lookup s.warehouse ws) [ none ↦ false | some w ↦ w.is_active ]

abbrev priority_of : List Warehouse → Stock → ℕ
priority_of ws s = elim (lookup s.warehouse ws) [ none ↦ zero | some w ↦ w.priority ]

-- The rows that `reserve_stock` locks.
unfoldable pub reservable : ℕ → Inventory → List Stock
reservable variant_id inv =
    order_by (λ a b. leb (priority_of inv.warehouses a) (priority_of inv.warehouses b))
      (filter_by (λ s. s.variant == variant_id && in_active_warehouse inv.warehouses s)
        (alive inv.stocks))

-- The rows that `release_reservation` and `commit_sale` lock.
unfoldable pub reserved_rows : ℕ → Inventory → List Stock
reserved_rows variant_id inv =
    order_by (λ a b. leb_ℤ b.reserved a.reserved)
      (filter_by (λ s. s.variant == variant_id && ltb_ℤ (pos 0) s.reserved) (alive inv.stocks))

-- `stock.save` and `StockMovement.objects.create`, which every loop body does together.
unfoldable pub write : Stock → ℤ → Reason → Option ℕ → String → Inventory → Inventory
write s quantity reason reference note inv = record inv {
  stocks = save s inv.stocks;
  movements =
      inv.movements
      ++ record {
        stock = s.id;
        quantity = quantity;
        reason = reason;
        reference = reference;
        note = note;
      }
        ∷ [];
}

-- What the loop of `reserve_stock` carries.
pub record Reserving : Type 0 where
  pub remaining : ℤ
  pub snapshot_on_hand : ℤ
  pub snapshot_reserved : ℤ

-- One round, on a row as it was read: the snapshot counts it, and it gives what it can.
unfoldable pub reserve_row : Option ℕ → Stock → Reserving → Inventory → Reserving × Inventory
reserve_row reference stock acc inv =
    let seen = record acc {
      snapshot_on_hand = acc.snapshot_on_hand +ℤ stock.on_hand;
      snapshot_reserved = acc.snapshot_reserved +ℤ stock.reserved;
    } in
    let take = min_ℤ (available stock) acc.remaining in
    let stock' = record stock { reserved = stock.reserved +ℤ take } in
    if leb_ℤ acc.remaining (pos 0)
    then (seen, inv)
    else if ltb_ℤ (pos 0) take
    then (
      record seen {
        remaining = acc.remaining -ℤ take;
        snapshot_reserved = acc.snapshot_reserved +ℤ stock'.reserved;
      },
      write stock' (pos 0 -ℤ take) reservation reference "" inv,
    )
    else (seen, inv)

unfoldable pub reserve_loop : Option ℕ → List Stock → Reserving → Inventory → Reserving × Inventory
unfolding reserve_row
reserve_loop reference [] acc inv = (acc, inv)
reserve_loop reference (stock ∷ rows) acc inv =
    let (acc', inv') = reserve_row reference stock acc inv in reserve_loop reference rows acc' inv'

unfoldable pub reserve_all : ℕ → ℤ → Option ℕ → Exec Inventory Reserving
unfolding reserve_loop
reserve_all variant_id quantity reference inv =
    let (acc, inv') =
      reserve_loop reference (reservable variant_id inv)
        (record { remaining = quantity; snapshot_on_hand = pos 0; snapshot_reserved = pos 0 })
        inv in
    (ok acc, inv')

unfoldable pub reserve_stock : ℕ → ℤ → Option ℕ → Exec Inventory StockSnapshot
unfolding reserve_all
reserve_stock variant_id quantity reference = atomic do
  raise_if (leb_ℤ quantity (pos 0)) value_error
  acc ← reserve_all variant_id quantity reference
  raise_if (ltb_ℤ (pos 0) acc.remaining) out_of_stock
  pure (record {
    variant_id = variant_id;
    available = acc.snapshot_on_hand -ℤ acc.snapshot_reserved;
    on_hand = acc.snapshot_on_hand;
    reserved = acc.snapshot_reserved;
  })

-- The loop of `release_reservation`. Returns what could not be given back.
unfoldable pub release_loop : Option ℕ → List Stock → ℤ → Inventory → ℤ × Inventory
release_loop reference [] remaining inv = (remaining, inv)
release_loop reference (stock ∷ rows) remaining inv = elim (leb_ℤ remaining (pos 0)) [
  | true ↦ (remaining, inv)
  | false ↦
      let give_back = min_ℤ stock.reserved remaining in
      elim (leb_ℤ give_back (pos 0) && leb_ℤ (pos 0) give_back) [
        | true ↦ release_loop reference rows remaining inv
        | false ↦ release_loop reference rows (remaining -ℤ give_back) (
            write (record stock { reserved = stock.reserved -ℤ give_back }) give_back
              reservation_release reference "" inv)
      ]
]

unfoldable pub release_reservation : ℕ → ℤ → Option ℕ → Exec Inventory (Unit {0})
unfolding release_loop
release_reservation variant_id quantity reference =
    atomic (modify λ inv. (release_loop reference (reserved_rows variant_id inv) quantity inv).1)

-- The loop of `commit_sale`. Returns what could not be committed.
unfoldable pub commit_loop : Option ℕ → List Stock → ℤ → Inventory → ℤ × Inventory
commit_loop reference [] remaining inv = (remaining, inv)
commit_loop reference (stock ∷ rows) remaining inv = elim (leb_ℤ remaining (pos 0)) [
  | true ↦ (remaining, inv)
  | false ↦
      let take = min_ℤ (min_ℤ stock.reserved stock.on_hand) remaining in
      elim (leb_ℤ take (pos 0) && leb_ℤ (pos 0) take) [
        | true ↦ commit_loop reference rows remaining inv
        | false ↦ commit_loop reference rows (remaining -ℤ take) (
            write
              (record stock { reserved = stock.reserved -ℤ take; on_hand = stock.on_hand -ℤ take })
              (pos 0 -ℤ take) sale reference "" inv)
      ]
]

unfoldable pub commit_all : ℕ → ℤ → Option ℕ → Exec Inventory ℤ
unfolding commit_loop
commit_all variant_id quantity reference inv =
    let (remaining, inv') = commit_loop reference (reserved_rows variant_id inv) quantity inv in
    (ok remaining, inv')

unfoldable pub commit_sale : ℕ → ℤ → Option ℕ → Exec Inventory (Unit {0})
unfolding commit_all
commit_sale variant_id quantity reference = atomic do
  remaining ← commit_all variant_id quantity reference
  raise_if (ltb_ℤ (pos 0) remaining) out_of_stock

-- `get_or_create` over the default manager: a living row is returned; else a row is inserted, and
-- the unique pair (variant, warehouse) also counts the rows that are only hidden.
unfoldable pub get_or_create_stock : ℕ → ℕ → ℕ → Exec Inventory Stock
get_or_create_stock fresh variant_id warehouse inv =
    let here = λ (s : Stock). s.variant == variant_id && s.warehouse == warehouse in
    let new : Stock = record {
      id = fresh;
      variant = variant_id;
      warehouse = warehouse;
      on_hand = pos 0;
      reserved = pos 0;
      safety_buffer = 0;
      low_stock_threshold = 5;
      deleted_at = none;
    } in
    elim (head? (filter_by here (alive inv.stocks))) [
      | some s ↦ (ok s, inv)
      | none ↦
          if any here inv.stocks
          then (err integrity_error, inv)
          else (ok new, record inv { stocks = inv.stocks ++ new ∷ [] })
    ]

unfoldable pub adjust_stock : ℕ → ℕ → ℕ → ℤ → String → Exec Inventory Stock
unfolding get_or_create_stock
adjust_stock fresh variant_id warehouse_code delta note = atomic do
  found ← gets (λ inv. head? (filter_by (λ w. w.code == warehouse_code) (alive inv.warehouses)))
  warehouse ← or_raise found does_not_exist
  stock ← get_or_create_stock fresh variant_id warehouse.id
  let stock' = record stock { on_hand = max_ℤ (stock.on_hand +ℤ delta) (pos 0) }
  modify (write stock' delta adjustment none note)
  pure stock'
