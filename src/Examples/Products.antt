-- ===== src/Examples/Products.antt =====
-- The client of the order service with one product that has one stock.
use redis_rest.Base.{true, List, [], ◌∷◌, none, Text, codes, erase_all}
use redis_rest.Base.Outcome.{Action}
use redis_rest.Orderbot.{Bot}
use redis_rest.Examples.Trees.{Tree, leaf, child, trees}
use redis_rest.Examples.Data.{told}

abbrev with_field : Text → Text → Tree → Tree
with_field name value item = child item name (leaf value)

abbrev stock : Tree
stock = with_field (codes "inventory_quantity") (codes "2.5") (
    with_field (codes "distribution_center_name") (codes "East")
      (with_field (codes "distribution_center_id") (codes "4") (leaf [])))

abbrev product : Tree
product =
    child
      (with_field (codes "sku") (codes "R-1") (
        with_field (codes "product_name") (codes "Ring") (
          with_field (codes "product_id") (codes "9") (
            with_field (codes "product_group") (codes "Gold") (
              with_field (codes "product_group_id") (codes "3") (
                with_field (codes "product_category") (codes "Rings")
                  (with_field (codes "product_category_id") (codes "1") (leaf []))))))))
      (codes "inventory_quantities") (child (leaf []) [] stock)

abbrev products : Tree
products = child (leaf []) [] product

abbrev printed : List (List Text × List (List Text))
printed =
    (
      codes "1"
          ∷ codes "Rings"
          ∷ codes "3"
          ∷ codes "Gold"
          ∷ codes "9"
          ∷ codes "Ring"
          ∷ codes "R-1"
          ∷ [],
      (codes "4" ∷ codes "East" ∷ codes "2.5" ∷ []) ∷ [],
    )
    ∷ []

abbrev fresh_bot : Bot (Text → Action (List Text) Unit)
fresh_bot = record {
  url = codes "http://localhost";
  body = [];
  opt_resource = [];
  data_parse_callback = none;
}

abbrev content : Text
content = erase_all b'\n' (told (trees.write_json true products))
