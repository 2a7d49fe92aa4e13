-- ===== src/Api/Routes/Checkout/Linking.antt =====
-- What links a mandate to a checkout session (apps/api/src/routes/checkout-sessions.ts).
use stellar_journey.Base.{
  ◌≡◌, ◌⊎◌, ◌∙◌, inl, inr, refl, ap, subst, String, true, not, ◌&&◌, Option, none, some, List,
  arith, str_eq, eq_iff, eq_refl, if◌then◌else◌, find_where, find_where-update, update_where,
  not-false, Bool-cases,
}
use stellar_journey.Base.Effect.{returned, thrown, gets, or_throw, ◌>>=◌}
use stellar_journey.Base.Effect.Inversion.{or_throw_inv, throw_if_inv}
use stellar_journey.Client.Mandate.{Mandate}
use stellar_journey.Shared.HexId.{is_hex_id32}
use stellar_journey.Store.{
  CheckoutSession, is_product, is_merchant, World, Merchant, Product, read_mandate, log_call,
}
use stellar_journey.Api.Routes.{mandate_found, validation_error}
use stellar_journey.Api.Routes.Inversion.{mandate_or_inv}
use stellar_journey.Api.Routes.Mandates.{upsert_mandate}
use stellar_journey.Api.Routes.Checkout.{
  include, included_of, already_linked, LinkMandate, CheckoutDeps, Included, find_included,
  is_session, is_open, link_session, link_not_found, session_not_pending, session_not_found,
  store_link, check_link, link_open, link_at, link_found, link_read, link_mandate,
}

module _ (deps : CheckoutDeps) (input : LinkMandate) where
  -- A session that was open and is now linked to a mandate of its merchant, asset and payer.
  pub record IsLinked (found : Included) (w w' : World) (session : CheckoutSession) : Type 0 where
    pub unlinked : found.session.mandate_id ≡ none
    pub was_open : is_open found.session w.clock ≡ true
    pub mandate : Mandate
    pub read : deps.reader.get_mandate input.mandate_id ≡ mandate_found mandate
    pub same_merchant : mandate.merchant ≡ found.merchant.wallet_address
    pub same_asset : mandate.asset ≡ found.product.asset_address
    pub same_payer : mandate.payer ≡ input.payer_address
    pub answered : session ≡ link_session input found.session
    pub stored :
        w'.sessions ≡ update_where (is_session found.session.id) (link_session input) w.sessions
    pub products : w'.products ≡ w.products
    pub merchants : w'.merchants ≡ w.merchants
    pub payments : w'.payments ≡ w.payments
    pub refunds : w'.refund_requests ≡ w.refund_requests

  store_link_inv :
      (found : Included) (mandate : Mandate) (w w' : World) (session : CheckoutSession)
      → store_link deps input found mandate w ≡ (returned session, w')
      → (session ≡ link_session input found.session)
        × (w'.sessions ≡ update_where (is_session found.session.id) (link_session input) w.sessions)
        × (w'.products ≡ w.products)
        × (w'.merchants ≡ w.merchants)
        × (w'.payments ≡ w.payments)
        × (w'.refund_requests ≡ w.refund_requests)
  unfolding store_link upsert_mandate
  store_link_inv found mandate w w' session h = (cc h, cc h, cc h, cc h, cc h, cc h)

  check_link_inv :
      (found : Included) (mandate : Mandate) (w w' : World) (session : CheckoutSession)
      → check_link deps input found mandate w ≡ (returned session, w')
      → (mandate.merchant ≡ found.merchant.wallet_address)
        × (mandate.asset ≡ found.product.asset_address)
        × (mandate.payer ≡ input.payer_address)
        × (store_link deps input found mandate w ≡ (returned session, w'))
  unfolding check_link
  check_link_inv found mandate w w' session h = ground (
    arith,
    eq_iff mandate.merchant found.merchant.wallet_address,
    eq_iff mandate.asset found.product.asset_address,
    eq_iff mandate.payer input.payer_address,
  )

  link_at_inv :
      (found : Included) (w w' : World) (session : CheckoutSession)
      → found.session.mandate_id ≡ none
      → link_at deps input found w.clock w ≡ (returned session, w')
      → IsLinked found w w' session
  link_at_inv found w w' session unlinked h =
      let (was_open, h1) =
        throw_if_inv (λ _. link_open deps input found) (not (is_open found.session w.clock))
          session_not_pending w h in
      let w1 = log_call (read_mandate input.mandate_id) w in
      let (mandate, read, h2) =
        mandate_or_inv link_not_found (check_link deps input found)
          (deps.reader.get_mandate input.mandate_id) w1 w' session h1 in
      let (same_merchant, same_asset, same_payer, h3) =
        check_link_inv found mandate w1 w' session h2 in
      let (answered, stored, products, merchants, payments, refunds) =
        store_link_inv found mandate w1 w' session h3 in
      record {
        unlinked = unlinked;
        was_open = not-false _ was_open;
        mandate = mandate;
        read = read;
        same_merchant = same_merchant;
        same_asset = same_asset;
        same_payer = same_payer;
        answered = answered;
        stored = stored;
        products = products;
        merchants = merchants;
        payments = payments;
        refunds = refunds;
      }

  -- A session that was linked to this mandate before, which nothing is written for.
  abbrev pub WasLinked : Included → World → World → CheckoutSession → Type 0
  WasLinked found w w' session =
      (found.session.mandate_id ≡ some input.mandate_id) × (session ≡ found.session) × (w' ≡ w)

  link_found_inv :
      (found : Included) (o : Option String) (w w' : World) (session : CheckoutSession)
      → found.session.mandate_id ≡ o
      → link_found deps input found o w ≡ (returned session, w')
      → WasLinked found w w' session ⊎ IsLinked found w w' session
  link_found_inv found none w w' session e h = inr (link_at_inv found w w' session e h)
  link_found_inv found (some id) w w' session e h = inl (ground (arith, eq_iff id input.mandate_id))

  -- A link that answers has found the session. Either it was linked to this mandate before and
  -- nothing is written, or it was open and not linked, the chain holds the mandate with the
  -- session's merchant, the product's asset and the given payer, and the session is stored as
  -- completed with that mandate and payer.
  pub link_mandate_lem :
      (id : String) (w w' : World) (session : CheckoutSession)
      → link_mandate deps input id w ≡ (returned session, w')
      → (found : Included) × (find_included id w ≡ some found)
        × (WasLinked found w w' session ⊎ IsLinked found w w' session)
  unfolding link_mandate
  link_mandate_lem id w w' session h =
      let (valid, h1) =
        throw_if_inv
          (λ _. gets (find_included id) >>= λ included.
            or_throw included session_not_found >>= link_read deps input)
          (not (is_hex_id32 input.mandate_id && deps.is_account_address input.payer_address))
          validation_error w h in
      let (found, is, h2) =
        or_throw_inv (link_read deps input) (find_included id w) session_not_found w h1 in
      (found, is, link_found_inv found found.session.mandate_id w w' session refl h2)

  again_of :
      (other : LinkMandate) (id : String) (w : World) (found : Included)
      → (is_hex_id32 other.mandate_id && deps.is_account_address other.payer_address) ≡ true
      → find_included id w ≡ some found
      → found.session.mandate_id ≡ some input.mandate_id
      → link_mandate deps other id w ≡ (
          if str_eq input.mandate_id other.mandate_id
          then (returned found.session, w)
          else (thrown already_linked, w))
  unfolding link_mandate
  again_of other id w found valid is linked =
      rw (valid, is, linked)
        (elim (Bool-cases (str_eq input.mandate_id other.mandate_id)) [
          | inl same ↦ rw same refl
          | inr apart ↦ rw apart refl
        ])

  include_link :
      (s : CheckoutSession) (p : Option Product) (m : Option Merchant) (found : Included)
      → include s p m ≡ some found
      → (s ≡ found.session)
        × (include (link_session input s) p m
            ≡ some (record found { session = link_session input s }))
  include_link s none m found e = absurd cc
  include_link s (some p) none found e = absurd cc
  include_link s (some p) (some m) found e = (cc e, cc e)

  included_of_link :
      (ps : List Product) (ms : List Merchant) (o : Option CheckoutSession) (found : Included)
      → included_of ps ms o ≡ some found
      → (o ≡ some found.session)
        × (included_of ps ms (some (link_session input found.session))
            ≡ some (record found { session = link_session input found.session }))
  included_of_link ps ms none found e = absurd cc
  included_of_link ps ms (some s) found e =
      let (same, after) =
        include_link s (find_where (is_product s.product_id) ps)
          (find_where (is_merchant s.merchant_id) ms) found e in
      (
        ap some same,
        subst
            (λ x.
              included_of ps ms (some (link_session input x))
              ≡ some (record found { session = link_session input x }))
            same after,
      )

  included_after :
      (id : String) (w w' : World) (found : Included) (session : CheckoutSession)
      → find_included id w ≡ some found
      → IsLinked found w w' session
      → find_included id w' ≡ some (record found { session = link_session input found.session })
  included_after id w w' found session is linked =
      let (there, after) =
        included_of_link w.products w.merchants (find_where (is_session id) w.sessions) found is in
      let updated =
        find_where-update (is_session found.session.id) (is_session id) (link_session input)
          (λ x. refl) w.sessions found.session there in
      let here : find_where (is_session id) w'.sessions ≡ some (link_session input found.session) =
        ap (find_where (is_session id)) linked.stored
        ∙ updated
        ∙ rw (eq_refl found.session.id) refl in
      rw (linked.products, linked.merchants, here) after

  again_after :
      (other : LinkMandate) (id : String) (w w' : World) (found : Included)
      (session : CheckoutSession)
      → (is_hex_id32 other.mandate_id && deps.is_account_address other.payer_address) ≡ true
      → find_included id w ≡ some found
      → WasLinked found w w' session ⊎ IsLinked found w w' session
      → link_mandate deps other id w' ≡ (
          if str_eq input.mandate_id other.mandate_id
          then (returned session, w')
          else (thrown already_linked, w'))
  again_after other id w w' found session valid is (inl (linked, answered, same)) =
      rw (same, answered) (again_of other id w found valid is linked)
  again_after other id w w' found session valid is (inr linked) = rw (linked.answered) (
      again_of other id w' (record found { session = link_session input found.session }) valid
        (included_after id w w' found session is linked) refl)

  -- After a link that answers, a well-formed request to link the same session again is answered
  -- with the same session if it names the same mandate, and refused as already linked if it names
  -- another; in either case nothing is written.
  pub linked_again :
      (other : LinkMandate) (id : String) (w w' : World) (session : CheckoutSession)
      → (is_hex_id32 other.mandate_id && deps.is_account_address other.payer_address) ≡ true
      → link_mandate deps input id w ≡ (returned session, w')
      → link_mandate deps other id w' ≡ (
          if str_eq input.mandate_id other.mandate_id
          then (returned session, w')
          else (thrown already_linked, w'))
  linked_again other id w w' session valid h =
      let (found, is, how) = link_mandate_lem id w w' session h in
      again_after other id w w' found session valid is how
