-- ===== src/Orderbot/Products.antt =====
-- The callback of `register_callback` in src/orderbot.hpp, which prints the products of m_data. What
-- `cout` prints of a get<int> and a get<double> are parameters, and so are Boost's trees. A line that
-- the logger writes is left out.
pub mod Printed
use redis_rest.Base.{List, [], ◌∷◌, ◌++◌, Option, none, some, Text, codes, text_eq, if◌then◌else◌}
use redis_rest.Base.Outcome.{Outcome, ok, Action, pure, lift, try_catch, ◌>>=◌, ◌>>◌}
use redis_rest.Ptree.{PtreeLibrary}
use redis_rest.Orderbot.{Resource, Bot, copy_opt}

-- get<int>, get<string>, get<double>
pub data Kind : Type 0 where
  int_field string_field double_field : Kind

abbrev pub product_fields : List (Kind × Text)
product_fields =
    (int_field, codes "product_category_id")
    ∷ (string_field, codes "product_category")
    ∷ (int_field, codes "product_group_id")
    ∷ (string_field, codes "product_group")
    ∷ (int_field, codes "product_id")
    ∷ (string_field, codes "product_name")
    ∷ (string_field, codes "sku")
    ∷ []

abbrev pub quantity_fields : List (Kind × Text)
quantity_fields =
    (int_field, codes "distribution_center_id")
    ∷ (string_field, codes "distribution_center_name")
    ∷ (double_field, codes "inventory_quantity")
    ∷ []

abbrev pub products_pattern : Text
products_pattern = codes "^/admin/products.json/[[:graph:]]+$"

abbrev pub rule_line : Text
rule_line = codes "--------------------------"

abbrev pub end_line : Text
end_line = codes "#####################################################"

-- cout << line << endl
unfoldable pub print_line : Text → Action (List Text) Unit
print_line line out = (ok tt, out ++ line ∷ [])

module _ (json : PtreeLibrary) (get_int get_double : Text → json.Ptree → Outcome Text) where
  open json use {Ptree, children, get_child, get_string, read_json}

  abbrev pub get_kind : Kind → Text → Ptree → Outcome Text
  get_kind int_field = get_int
  get_kind string_field = get_string
  get_kind double_field = get_double

  unfoldable pub print_fields : List (Kind × Text) → Ptree → Action (List Text) Unit
  print_fields [] item = pure tt
  print_fields ((kind, name) ∷ rest) item = do
    line ← lift (get_kind kind name item)
    print_line line
    print_fields rest item

  -- for (auto it = pChild.begin(); …)
  unfoldable pub print_quantities : List (Text × Ptree) → Action (List Text) Unit
  print_quantities [] = pure tt
  print_quantities ((name, item) ∷ rest) = do
    print_line rule_line
    print_fields quantity_fields item
    print_quantities rest

  -- for (auto p = pt.begin(); …)
  unfoldable pub print_products : List (Text × Ptree) → Action (List Text) Unit
  print_products [] = pure tt
  print_products ((name, item) ∷ rest) = do
    print_fields product_fields item
    quantities ← lift (get_child (codes "inventory_quantities") item)
    print_quantities (children quantities)
    print_line end_line
    print_products rest

  -- The callback, on m_data.
  unfoldable pub parse_products : Text → Action (List Text) Unit
  parse_products body =
      try_catch (do pt ← lift (read_json body); print_products (children pt)) print_line print_line

  -- m_resource[…]["GET"], and the copy by method.
  unfoldable pub register_callback :
      Bot (Text → Action (List Text) Unit) → Bot (Text → Action (List Text) Unit)
  register_callback bot = record bot {
    opt_resource = copy_opt ((products_pattern, (codes "GET", parse_products) ∷ []) ∷ []);
  }

-- cout << __LINE__ << endl
abbrev pub line_150 : Text
line_150 = codes "150"

-- process_content, which runs when a socket of the client closes.
unfoldable pub process_content : Bot (Text → Action (List Text) Unit) → Action (List Text) Unit
process_content bot = elim bot.data_parse_callback [
  | none ↦ pure tt
  | some callback ↦ print_line line_150 >> callback bot.body
]
