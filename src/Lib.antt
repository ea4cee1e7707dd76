-- ===== src/Lib.antt =====
-- NovaCommerce Core: the services of the shop's backend under django_app/apps, and the channels of
-- its gateway under fastapi_app.
--
-- The parts and their files
--   core        django_app/apps/core/models.py (Core/Models): every row has a key and a stamp that
--               hides it. A table is the list of its rows, hidden ones included. Proofs on rows are in
--               Core/Models/Rows, on soft deletion in Core/Models/SoftDelete, on `order_by` in
--               Core/Models/Sorting, on filters and updates in Filtering and
--               Updating. Core/Permissions is core/permissions.py.
--   inventory   inventory/models.py and inventory/services.py (Inventory): `reserve_stock`,
--               `release_reservation`, `commit_sale`, `adjust_stock`. The three loops are instances of
--               one allocation (Inventory/Allocation, Inventory/Rules); its totals are in
--               Inventory/Effects, and the services in Reserve, Audit, Commit, Invariant, Sequences,
--               Adjust.
--   coupons     coupons/models.py (Coupons): validity, discount and the rounding of `Decimal`.
--   catalog     catalog/models.py (Catalog): the fields of products and variants that others read.
--   cart        cart/models.py (Cart) and cart/services.py (Cart/Services): additions (Units, Adding),
--               a removed variant (Readding), clearing (Emptying), the merge of a guest's cart (Owning,
--               Rounds, Merging).
--   orders      orders/models.py (Orders) and orders/services.py (Orders/Services): the checkout takes
--               a cart, a coupon and the stock to an order (Orders/Pricing, Placement, Checkout); a
--               transition moves an order along its statuses (Lifecycle, History, Stamps) and commits
--               or releases its stock (Demand, Fulfilment, Release, Effects); Journey joins the two.
--   payments    payments/models.py (Payments), payments/services.py and payments/tasks.py
--               (Payments/Services), payments/providers (Payments/Providers), `_jsonable`
--               (Payments/Json). Charging is a new payment. A webhook moves the order by `transition_status` (Webhooks,
--               Redelivery, Expiry).
--   realtime    fastapi_app/realtime/manager.py (Realtime): channels, their sockets and tasks, with the
--               deliveries, with other steps between the sends (Realtime/Fanout), and the tasks over any
--               sequence of steps (Realtime/Consumers). It reads none of the tables.
--   streams     realtime/consumers.py (Streams): which groups a socket may join, over any sequence of
--               calls (Streams/Membership). It reads the orders. orders/signals.py sends the events of
--               an order to its groups (Streams/Broadcasting).
--   reviews     django_app/apps/reviews (Reviews), with every sequence of requests in
--               Reviews/Moderation. It reads the products and the orders.
--   users       users/models.py, serializers.py, signals.py (Users): the making of users (Creating,
--               Registering) and the roles that the seeding writes (Seeding, Reseeding); the address
--               book of users/views.py (Addresses, Defaults, Book, Updating); the access token, which
--               the gateway reads (Tokens).
--   analytics   analytics/services.py (Analytics), with GROUP BY in Analytics/Grouping, and
--               analytics/tasks.py (Analytics/Rollup). It reads the tables of orders, carts, variants
--               and stock, and Revenue and Abandoned join it with the services that write them.
--   api         the views of carts, orders and payments, cart/views.py, orders/views.py and
--               payments/views.py with their serializers (Api/Carts, Selling), and core/exceptions.py
--               (Api, Errors). What a request makes of the tables is in Adding and Owners.
--   gateway     fastapi_app/api/v1/catalog.py: `list_products` (Gateway, with its pages in
--               Gateway/Pages) and `list_categories` with its cache (Gateway/Categories), which read the catalogue's tables; `list_brands`,
--               `product_detail` and `variant_by_sku` (Gateway/Details), with the age of what the cache
--               gives in Gateway/Staleness and the variants in Gateway/Skus;
--               fastapi_app/core/security.py (Gateway/Security), the user of a request.
--
-- Services and the database
--   The tables are the record `Db` (Database). A service is a function from the tables to a result and
--   the new tables (Exec); `@transaction.atomic` is `atomic`, which puts the old tables back when the
--   block raises. A row lock (`select_for_update`) makes calls one after another, so a run of the
--   system is a list of calls. `objects` is the default manager, which reads living rows; a foreign
--   key reaches its row, hidden or not. Unique constraints count hidden rows.
--
-- Numbers
--   Money is in cents, and quantities are Python's integers; both are signed and have no bound, as in
--   the code, so nothing wraps around. Keys are natural numbers instead of UUIDs, since the code only
--   compares them. All loops run over lists of rows and are structural recursion, so no fuel is used.
--
-- Parameters
--   The time, the keys of new rows and the random number of an order are arguments. `code__iexact` is
--   a comparison of texts that is given. The gateways' replies are given by a `Provider`; MD5, text
--   conversion and the decoding of a body are given where a provider uses them; so are the JWT library,
--   the values that orjson can write, and what the gateway's database driver makes of a text that is
--   bound to a time stamp.
--
-- Not modelled
--   The views of the catalogue, of stock and of coupons, admin pages and settings; throttling and
--   the lengths of texts; e-mails, audit rows and logs; the rest of the FastAPI gateway; the payload
--   of an event row and the time stamps that no query reads.
pub mod Prelude
pub mod Exec
pub mod Core
pub mod Inventory
pub mod Catalog
pub mod Coupons
pub mod Cart
pub mod Orders
pub mod Payments
pub mod Database
pub mod Realtime
pub mod Gateway
pub mod Streams
pub mod Users
pub mod Analytics
pub mod Api
pub mod Reviews
pub mod Tests
