-- ===== src/Tests/Rows.antt =====
-- The theorems on rows and carts, at concrete inputs.
use ecommerce.Prelude.{◌+◌, ◌≡◌, refl, [], ◌∷◌, length}
use ecommerce.Prelude.Int.{pos}
use ecommerce.Exec.{Returns}
use ecommerce.Core.Models.{alive, dead, lookup}
use ecommerce.Core.Models.SoftDelete.{length-alive-dead}
use ecommerce.Cart.{cart_item_model}
use ecommerce.Cart.Services.{add_item}
use ecommerce.Cart.Adding.{Adds, add_item-Returns}
use ecommerce.Database.{Db}
use ecommerce.Tests.{db, cart, line}

length-alive-dead_example :
    length (alive (line ∷ [])) + length (dead (line ∷ [])) ≡ length (line ∷ [])
length-alive-dead_example = length-alive-dead (line ∷ [])

abbrev elsewhere : Db
elsewhere = record db { cart_items = [] }

add_item-Returns_example :
    Returns elsewhere (Adds cart 7 (pos 3) elsewhere) (add_item 52 cart 7 (pos 3) elsewhere)
unfolding lookup
add_item-Returns_example = add_item-Returns 52 cart 7 (pos 3) elsewhere tt refl
