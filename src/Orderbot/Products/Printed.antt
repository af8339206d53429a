-- ===== src/Orderbot/Products/Printed.antt =====
-- What the product callback prints.
use redis_rest.Base.{
  List, [], ◌∷◌, ◌++◌, append_assoc, append-nil, some, ◌≡◌, refl, ap, ◌∙◌, Text, codes,
}
use redis_rest.Base.Outcome.{Outcome, ok, Action, bind_step, lift_step, pure_lem, try_catch_lem}
use redis_rest.Ptree.{PtreeLibrary}
use redis_rest.Orderbot.{Bot}
use redis_rest.Orderbot.Products.{
  Kind, product_fields, quantity_fields, rule_line, end_line, line_150, print_line, get_kind,
  print_fields, print_quantities, print_products, parse_products, process_content,
}

print_line_lem : (line : Text) (out : List Text) → print_line line out ≡ (ok tt, out ++ line ∷ [])
unfolding print_line
print_line_lem line out = refl

module _ (json : PtreeLibrary) (get_int get_double : Text → json.Ptree → Outcome Text) where
  open json use {Ptree, children, get_child}

  -- The item has the fields, and these lines are what is printed of them.
  abbrev pub Shows : List (Kind × Text) → Ptree → List Text → Type 0
  Shows [] item lines = lines ≡ []
  Shows ((kind, name) ∷ rest) item [] = ⊥
  Shows ((kind, name) ∷ rest) item (line ∷ lines) =
      (get_kind json get_int get_double kind name item ≡ ok line) × Shows rest item lines

  -- A stock of a product, and a product with its stocks, each with the lines of its fields.
  abbrev pub quantity_lines : List (List Text) → List Text
  quantity_lines [] = []
  quantity_lines (lines ∷ rest) = rule_line ∷ lines ++ quantity_lines rest

  abbrev pub ShowsAll : List (Text × Ptree) → List (List Text) → Type 0
  ShowsAll [] stocks = stocks ≡ []
  ShowsAll (item ∷ rest) [] = ⊥
  ShowsAll (item ∷ rest) (lines ∷ stocks) =
      Shows quantity_fields item.1 lines × ShowsAll rest stocks

  abbrev pub product_lines : List (List Text × List (List Text)) → List Text
  product_lines [] = []
  product_lines ((lines, stocks) ∷ rest) =
      lines ++ (quantity_lines stocks ++ end_line ∷ product_lines rest)

  pub record ShowsProduct (item : Ptree) (lines : List Text) (stocks : List (List Text))
      : Type 0 where
    pub shows : Shows product_fields item lines
    pub quantities : Ptree
    pub has : get_child (codes "inventory_quantities") item ≡ ok quantities
    pub shows_stocks : ShowsAll (children quantities) stocks

  abbrev pub ShowsProducts : List (Text × Ptree) → List (List Text × List (List Text)) → Type 0
  ShowsProducts [] products = products ≡ []
  ShowsProducts (item ∷ rest) [] = ⊥
  ShowsProducts (item ∷ rest) ((lines, stocks) ∷ products) =
      ShowsProduct item.1 lines stocks × ShowsProducts rest products

  print_fields_lem :
      (fields : List (Kind × Text)) (item : Ptree) (lines out : List Text)
      → Shows fields item lines
      → print_fields json get_int get_double fields item out ≡ (ok tt, out ++ lines)
  unfolding print_fields
  print_fields_lem [] item lines out h = rw (h, append-nil) (pure_lem tt out)
  print_fields_lem ((kind, name) ∷ rest) item [] out h = absurd h
  print_fields_lem ((kind, name) ∷ rest) item (line ∷ lines) out (got, h) =
      lift_step _ _ _ got
      ∙ bind_step _ _ _ (print_line_lem line out)
      ∙ print_fields_lem rest item lines (out ++ line ∷ []) h
      ∙ ap (λ l. (ok tt, l)) (append_assoc out (line ∷ []) lines)

  print_quantities_lem :
      (items : List (Text × Ptree)) (stocks : List (List Text)) (out : List Text)
      → ShowsAll items stocks
      → print_quantities json get_int get_double items out ≡ (ok tt, out ++ quantity_lines stocks)
  unfolding print_quantities
  print_quantities_lem [] stocks out h = rw (h, append-nil) (pure_lem tt out)
  print_quantities_lem (item ∷ rest) [] out h = absurd h
  print_quantities_lem (item ∷ rest) (lines ∷ stocks) out (now, later) =
      bind_step _ _ _ (print_line_lem rule_line out)
      ∙ bind_step _ _ _ (print_fields_lem quantity_fields item.1 lines (out ++ rule_line ∷ []) now)
      ∙ print_quantities_lem rest stocks ((out ++ rule_line ∷ []) ++ lines) later
      ∙ ap (λ l. (ok tt, l)) (simp append_assoc)

  print_products_lem :
      (items : List (Text × Ptree)) (products : List (List Text × List (List Text)))
      (out : List Text)
      → ShowsProducts items products
      → print_products json get_int get_double items out ≡ (ok tt, out ++ product_lines products)
  unfolding print_products
  print_products_lem [] products out h = rw (h, append-nil) (pure_lem tt out)
  print_products_lem (item ∷ rest) [] out h = absurd h
  print_products_lem (item ∷ rest) ((lines, stocks) ∷ products) out (now, later) =
      bind_step _ _ _ (print_fields_lem product_fields item.1 lines out now.shows)
      ∙ lift_step _ _ _ now.has
      ∙ bind_step _ _ _
          (print_quantities_lem (children now.quantities) stocks (out ++ lines) now.shows_stocks)
      ∙ bind_step _ _ _ (print_line_lem end_line ((out ++ lines) ++ quantity_lines stocks))
      ∙ print_products_lem rest products
          (((out ++ lines) ++ quantity_lines stocks) ++ end_line ∷ []) later
      ∙ ap (λ l. (ok tt, l)) (simp append_assoc)

  -- If m_data is JSON whose products have all their fields, then closing the socket prints, after
  -- what was printed before, the number 150 of a source line and the lines of every product in order: its fields, its stocks each behind a
  -- rule, and the line that ends it.
  pub process_content-prints :
      (bot : Bot (Text → Action (List Text) Unit)) (pt : Ptree)
      (products : List (List Text × List (List Text))) (out : List Text)
      → bot.data_parse_callback ≡ some (parse_products json get_int get_double)
      → json.read_json bot.body ≡ ok pt
      → ShowsProducts (children pt) products
      → process_content bot out ≡ (ok tt, out ++ line_150 ∷ product_lines products)
  unfolding process_content parse_products
  process_content-prints bot pt products out set parses shows = rw set (
      bind_step _ _ _ (print_line_lem line_150 out)
      ∙ try_catch_lem _ _ _ (out ++ line_150 ∷ []) (
          lift_step _ _ _ parses
          ∙ print_products_lem (children pt) products (out ++ line_150 ∷ []) shows)
      ∙ ap (λ l. (ok tt, l)) (append_assoc out (line_150 ∷ []) (product_lines products)))
