-- ===== src/Api/Routes/Products/Created.antt =====
-- A product that is created (apps/api/src/routes/products.ts) is stored as asked, and read back.
use stellar_journey.Base.{
  ℕ, String, ◌≡◌, ◌∙◌, refl, sym, ap, subst, true, not, find_where, some, List, ◌∷◌, arith, eq_refl,
  ==_refl, not-false,
}
use stellar_journey.Base.Effect.{returned, ◌>>=◌}
use stellar_journey.Base.Effect.Inversion.{or_throw_inv, throw_if_inv, and_then_inv}
use stellar_journey.Shared.Money.{
  base_units_to_decimal_string, decimal_to_base_units, decimal_to_positive_base_units,
}
use stellar_journey.Shared.Money.RoundTrip.{decimal_to_base_units-base_units_to_decimal_string}
use stellar_journey.Store.{
  Product, ProductAmount, fixed_amount, max_per_charge, Merchant, World, api_error,
}
use stellar_journey.Api.Routes.{positive_amount, validation_error}
use stellar_journey.Api.Routes.Products.{
  AmountInput, fixed, variable, CreateProduct, ProductResponse, ProductDeps, to_product_response,
  show_amount, matches_schema, parse_amount, product_row, store_product, with_period,
  create_product, get_product,
}

-- The amount of a product, as it was asked for.
pub data Asked (decimals : ℕ) : AmountInput → ProductAmount → Type 0 where
  fixed_asked :
      (decimal : List ℕ) (amount : ℕ)
      → decimal_to_positive_base_units decimal decimals ≡ some amount
      → Asked decimals (fixed decimal) (fixed_amount amount)
  variable_asked :
      (decimal : List ℕ) (amount : ℕ)
      → decimal_to_positive_base_units decimal decimals ≡ some amount
      → Asked decimals (variable decimal) (max_per_charge amount)

parse_amount_inv :
    (input : AmountInput) (decimals : ℕ) (w w' : World) (amount : ProductAmount)
    → parse_amount input decimals w ≡ (returned amount, w')
    → Asked decimals input amount × (w' ≡ w)
parse_amount_inv (fixed decimal) decimals w w' amount h =
    let (n, parsed, end) =
      or_throw_inv (λ n v. (returned (fixed_amount n), v))
        (decimal_to_positive_base_units decimal decimals) (api_error 400 "INVALID_AMOUNT") w h in
    (subst (Asked decimals (fixed decimal)) (cc end) (fixed_asked decimal n parsed), cc end)
parse_amount_inv (variable decimal) decimals w w' amount h =
    let (n, parsed, end) =
      or_throw_inv (λ n v. (returned (max_per_charge n), v))
        (decimal_to_positive_base_units decimal decimals) (api_error 400 "INVALID_AMOUNT") w h in
    (subst (Asked decimals (variable decimal)) (cc end) (variable_asked decimal n parsed), cc end)

pub print_parse :
    (amount decimals : ℕ)
    → decimal_to_base_units (base_units_to_decimal_string amount decimals) decimals ≡ some amount
print_parse amount decimals =
    decimal_to_base_units-base_units_to_decimal_string amount decimals decimals (omega arith)
    ∙ rw (==_refl decimals) refl

-- An amount that shows another: of the same kind, and a decimal of the same value.
pub data Shows (decimals : ℕ) : AmountInput → AmountInput → Type 0 where
  fixed_shown :
      (asked shown : List ℕ)
      → decimal_to_base_units shown decimals ≡ decimal_to_positive_base_units asked decimals
      → Shows decimals (fixed asked) (fixed shown)
  variable_shown :
      (asked shown : List ℕ)
      → decimal_to_base_units shown decimals ≡ decimal_to_positive_base_units asked decimals
      → Shows decimals (variable asked) (variable shown)

Asked-Shows :
    (decimals : ℕ) (input : AmountInput) (amount : ProductAmount)
    → Asked decimals input amount
    → Shows decimals input (show_amount amount decimals)
unfolding show_amount
Asked-Shows decimals _ _ (fixed_asked decimal amount parsed) =
    fixed_shown decimal (base_units_to_decimal_string amount decimals)
      (print_parse amount decimals ∙ sym parsed)
Asked-Shows decimals _ _ (variable_asked decimal amount parsed) =
    variable_shown decimal (base_units_to_decimal_string amount decimals)
      (print_parse amount decimals ∙ sym parsed)

-- The fields of an answer that repeat the request, with the amounts as decimals of the same value.
pub record AsAsked (input : CreateProduct) (response : ProductResponse) : Type 0 where
  pub name : response.name ≡ input.name
  pub description : response.description ≡ input.description
  pub asset_address : response.asset_address ≡ input.asset_address
  pub asset_decimals : response.asset_decimals ≡ input.asset_decimals
  pub amount : Shows input.asset_decimals input.amount response.amount
  pub max_per_period :
      decimal_to_base_units response.max_per_period input.asset_decimals
      ≡ decimal_to_positive_base_units input.max_per_period input.asset_decimals
  pub period_seconds : response.period_seconds ≡ input.period_seconds
  pub min_interval_seconds : response.min_interval_seconds ≡ input.min_interval_seconds
  pub max_successful_charges : response.max_successful_charges ≡ input.max_successful_charges
  pub default_duration_seconds : response.default_duration_seconds ≡ input.default_duration_seconds
  pub active : response.active ≡ true

module _ (merchant : Merchant) (deps : ProductDeps) where
  pub record IsCreated (input : CreateProduct) (w w' : World) (response : ProductResponse)
      : Type 0 where
    pub valid : matches_schema deps.is_contract input ≡ true
    pub max_per_period : ℕ
    pub parsed :
        decimal_to_positive_base_units input.max_per_period input.asset_decimals
        ≡ some max_per_period
    pub amount : ProductAmount
    pub asked : Asked input.asset_decimals input.amount amount
    pub product : Product
    pub as_asked :
        product ≡ product_row merchant deps (deps.uuid w.uuids) input max_per_period amount w.clock
    pub stored : w'.products ≡ product ∷ w.products
    pub sessions : w'.sessions ≡ w.sessions
    pub payments : w'.payments ≡ w.payments
    pub refunds : w'.refund_requests ≡ w.refund_requests
    pub answered : response ≡ to_product_response product
    pub reads_back :
        decimal_to_base_units response.max_per_period input.asset_decimals ≡ some max_per_period

  store_product_inv :
      (input : CreateProduct) (period : ℕ) (amount : ProductAmount) (w w' : World)
      (response : ProductResponse)
      → store_product merchant deps input period amount w ≡ (returned response, w')
      → let product = product_row merchant deps (deps.uuid w.uuids) input period amount w.clock in
        (w'.products ≡ product ∷ w.products)
        × (response ≡ to_product_response product)
        × (w'.sessions ≡ w.sessions)
        × (w'.payments ≡ w.payments)
        × (w'.refund_requests ≡ w.refund_requests)
  store_product_inv input period amount w w' response h = (cc h, cc h, cc h, cc h, cc h)

  shown_period :
      (product : Product)
      → decimal_to_base_units (to_product_response product).max_per_period product.asset_decimals
        ≡ some product.max_per_period
  unfolding to_product_response
  shown_period product = print_parse product.max_per_period product.asset_decimals

  -- A creation that answers has stored the product that was asked for, and shows it.
  pub create_product-IsCreated :
      (input : CreateProduct) (w w' : World) (response : ProductResponse)
      → create_product merchant deps input w ≡ (returned response, w')
      → IsCreated input w w' response
  unfolding create_product
  create_product-IsCreated input w w' response h =
      let (valid, h1) =
        throw_if_inv
          (λ _.
            positive_amount input.max_per_period input.asset_decimals
            >>= with_period merchant deps input)
          (not (matches_schema deps.is_contract input)) validation_error w h in
      let (period, parsed, h2) =
        or_throw_inv (with_period merchant deps input)
          (decimal_to_positive_base_units input.max_per_period input.asset_decimals)
          (api_error 400 "INVALID_AMOUNT") w h1 in
      let (amount, v, asking, h3) =
        and_then_inv (store_product merchant deps input period)
          (parse_amount input.amount input.asset_decimals w) h2 in
      let (asked, same) = parse_amount_inv input.amount input.asset_decimals w v amount asking in
      let (stored, answered, sessions, payments, refunds) =
        store_product_inv input period amount w w' response
          (ap (store_product merchant deps input period amount) (sym same) ∙ h3) in
      let product = product_row merchant deps (deps.uuid w.uuids) input period amount w.clock in
      record {
        valid = not-false _ valid;
        max_per_period = period;
        parsed = parsed;
        amount = amount;
        asked = asked;
        product = product;
        as_asked = refl;
        stored = stored;
        sessions = sessions;
        payments = payments;
        refunds = refunds;
        answered = answered;
        reads_back =
            ap (λ r. decimal_to_base_units r.max_per_period input.asset_decimals) answered
            ∙ shown_period product;
      }

  get_head :
      (product : Product) (rest : List Product) (w : World)
      → product.merchant_id ≡ merchant.id
      → w.products ≡ product ∷ rest
      → get_product merchant product.id w ≡ (returned (to_product_response product), w)
  unfolding get_product find_where
  get_head product rest w own stored =
      rw (stored, eq_refl product.id, own, eq_refl merchant.id) refl

  row-AsAsked :
      (id : String) (input : CreateProduct) (max_per_period clock : ℕ) (amount : ProductAmount)
      → decimal_to_positive_base_units input.max_per_period input.asset_decimals
        ≡ some max_per_period
      → Asked input.asset_decimals input.amount amount
      → AsAsked input
          (to_product_response (product_row merchant deps id input max_per_period amount clock))
  unfolding to_product_response
  row-AsAsked id input max_per_period clock amount parsed asked = record {
    name = refl;
    description = refl;
    asset_address = refl;
    asset_decimals = refl;
    amount = Asked-Shows input.asset_decimals input.amount amount asked;
    max_per_period = print_parse max_per_period input.asset_decimals ∙ sym parsed;
    period_seconds = refl;
    min_interval_seconds = refl;
    max_successful_charges = refl;
    default_duration_seconds = refl;
    active = refl;
  }

  read_created :
      (input : CreateProduct) (w w' : World) (response : ProductResponse)
      → create_product merchant deps input w ≡ (returned response, w')
      → get_product merchant response.id w' ≡ (returned response, w')
  unfolding to_product_response
  read_created input w w' response h =
      let c = create_product-IsCreated input w w' response h in
      ap (λ r. get_product merchant r.id w') c.answered
      ∙ get_head c.product w.products w' (ap (λ p. p.merchant_id) c.as_asked) c.stored
      ∙ ap (λ r. (returned r, w')) (sym c.answered)

  -- A product that is created is read back as the answer to its creation showed it, and that
  -- answer shows what was asked for: the same texts, asset, periods, interval, count and
  -- duration, an amount of the same kind, both amounts as decimals of the value that was asked
  -- for, and the product active.
  pub get_created :
      (input : CreateProduct) (w w' : World) (response : ProductResponse)
      → create_product merchant deps input w ≡ (returned response, w')
      → (get_product merchant response.id w' ≡ (returned response, w')) × AsAsked input response
  get_created input w w' response h =
      let c = create_product-IsCreated input w w' response h in
      (
        read_created input w w' response h,
        subst (AsAsked input) (sym (c.answered ∙ ap to_product_response c.as_asked)) (
            row-AsAsked (deps.uuid w.uuids) input c.max_per_period w.clock c.amount c.parsed
              c.asked),
      )
