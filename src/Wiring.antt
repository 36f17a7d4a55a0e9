-- ===== src/Wiring.antt =====
-- The wallet service behind the interface that the trading service calls: the endpoints
-- `internal/wallet/deduct` and `internal/wallet/credit` (apps/wallet-service/src/modules/wallet/
-- internal-wallet.controller.ts) with the validation of their amount (dto/internal-wallet.dto.ts) and
-- the status of each error.
pub mod Orders
pub mod Members
pub mod Tests
use eurisko_final_proejct.Base.{
  ℕ, String, ◌≡◌, ◌⊎◌, refl, sym, ◌∙◌, ap, none, some, true, false, inl, inr, Option, Option-cases,
  Bool-cases, Result, ok, err, arith, if◌then◌else◌, Bool,
}
use eurisko_final_proejct.Base.Int.{ℤ, pos, ◌-ℤ◌, ◌+ℤ◌, ◌≤ℤ◌, ltb_ℤ}
use eurisko_final_proejct.Base.Store.{Store, lookup, adjust, lookup-adjust_self}
use eurisko_final_proejct.Wallet.Data.{
  Wallet, Db, Error, wallet_not_found, insufficient_balance, transaction_not_found, duplicate_key,
  wallet_locked, Call, Config,
}
use eurisko_final_proejct.Wallet.Transactions.{has_key}
use eurisko_final_proejct.Wallet.Service.{debited}
use eurisko_final_proejct.Wallet.Internal.{deduct, deduct_key, credit, credit_key, credited}
use eurisko_final_proejct.Wallet.Outcomes.Endpoints.{deduct-cases, credit-cases}
use eurisko_final_proejct.Wallet.Ledger.{balance_of}
use eurisko_final_proejct.Trading.Data.{nan, num, Number, Failure, WalletApi}
use eurisko_final_proejct.Trading.Order.Exchange.{WalletLaws}

-- The status of the exception that each error is.
abbrev pub status_of : Error → ℕ
status_of wallet_not_found = 404
status_of transaction_not_found = 404
status_of duplicate_key = 409
status_of wallet_locked = 503
status_of _ = 400

-- `@IsNumber() @IsPositive()`
abbrev pub is_positive : ℤ → Bool
is_positive a = ltb_ℤ (pos 0) a

-- What becomes of one HTTP call within the client's 10 seconds: it is answered, it does not reach the
-- wallet service, or it is carried out and its answer does not come back in time.
pub data Delivery : Type 0 where
  answered unreached answer_lost : Delivery

-- An axios error without a response.
abbrev pub no_response : Failure
no_response = record { status = none; message = none }

abbrev pub over_network : Delivery → (Db → Result Failure ℤ × Db) → Db → Result Failure ℤ × Db
over_network answered endpoint w = endpoint w
over_network unreached endpoint w = (err no_response, w)
over_network answer_lost endpoint w = (err no_response, (endpoint w).1)

module _ (cfg : Config) (calls : ℕ → Call) (order_text : ℕ → String) (text : Error → String)
    (invalid : String) (network : ℕ → Delivery) where
  -- The answer of the endpoint; the text of the errors comes from the exception filter.
  abbrev pub response : Result Error ℤ → Result Failure ℤ
  response (ok b) = ok b
  response (err e) = err (record { status = some (status_of e); message = some (text e) })

  abbrev pub bad_request : Result Failure ℤ
  bad_request = err (record { status = some 400; message = some invalid })

  unfoldable pub deduct_endpoint : ℕ → Number → ℕ → Db → Result Failure ℤ × Db
  deduct_endpoint member nan order w = (bad_request, w)
  deduct_endpoint member (num a) order w =
      let (r, w') = deduct cfg (calls order) member a (order_text order) w in
      if is_positive a then (response r, w') else (bad_request, w)

  unfoldable pub credit_endpoint : ℕ → Number → ℕ → Db → Result Failure ℤ × Db
  credit_endpoint member nan order w = (bad_request, w)
  credit_endpoint member (num a) order w =
      let (r, w') = credit cfg (calls order) member a (order_text order) w in
      if is_positive a then (response r, w') else (bad_request, w)

  abbrev pub wallet_api : WalletApi Db
  wallet_api = record {
    deduct =
        λ member amount order. over_network (network order) (deduct_endpoint member amount order);
    credit =
        λ member amount order. over_network (network order) (credit_endpoint member amount order);
  }

  -- Neither endpoint has been called for the order.
  abbrev pub Fresh : ℕ → Db → Type 0
  Fresh order w =
      (has_key (deduct_key (order_text order)) w.transactions ≡ false)
      × (has_key (credit_key (order_text order)) w.transactions ≡ false)

  balance-adjust :
      (user : ℕ) (f : Wallet → Wallet) (v : Wallet) (w w' : Store Wallet)
      → lookup user w ≡ some v
      → w' ≡ adjust user f w
      → (balance_of user w ≡ v.balance) × (balance_of user w' ≡ (f v).balance)
  unfolding balance_of
  balance-adjust user f v w w' held e =
      (ground (arith, held), ground (arith, e, lookup-adjust_self user f w held))

  deduct_endpoint-valid :
      (member : ℕ) (a : ℤ) (order : ℕ) (w : Db)
      → is_positive a ≡ true
      → deduct_endpoint member (num a) order w ≡ (
        response (deduct cfg (calls order) member a (order_text order) w).0,
        (deduct cfg (calls order) member a (order_text order) w).1,
      )
  unfolding deduct_endpoint
  deduct_endpoint-valid member a order w positive = rw (positive, deduct_endpoint) refl

  deduct_endpoint-invalid :
      (member : ℕ) (a : ℤ) (order : ℕ) (w : Db)
      → is_positive a ≡ false
      → deduct_endpoint member (num a) order w ≡ (bad_request, w)
  unfolding deduct_endpoint
  deduct_endpoint-invalid member a order w bad = rw (bad, deduct_endpoint) refl

  -- All ends of a first call: an error and an unchanged balance, or the amount moved.
  deduct_endpoint-cases :
      (member : ℕ) (a : ℤ) (order : ℕ) (w : Db)
      → Fresh order w
      → let (r, w') = deduct_endpoint member (num a) order w in
        ((f : Failure) × (r ≡ err f) × (balance_of member w'.wallets ≡ balance_of member w.wallets))
        ⊎ ((b : ℤ) × (r ≡ ok b)
            × (a ≤ℤ balance_of member w.wallets)
            × (balance_of member w'.wallets ≡ balance_of member w.wallets -ℤ a))
  deduct_endpoint-cases member a order w unseen = elim (Bool-cases (is_positive a)) [
    | inr bad ↦ inl (rw (deduct_endpoint-invalid member a order w bad) (_, refl, refl))
    | inl positive ↦
        let after = deduct cfg (calls order) member a (order_text order) w in
        rw (deduct_endpoint-valid member a order w positive)
          (elim (deduct-cases cfg (calls order) member a (order_text order) w unseen.0) [
            | inl (e, refused, same) ↦
                inl (_, ap (λ x. response x) refused, ap (λ ws. balance_of member ws) same)
            | inr (v, held, enough, (e, less)) ↦
                let (was, is) =
                  balance-adjust member (debited a) v w.wallets after.1.wallets held less in
                inr (_, ap (λ x. response x) e, rw was enough, is ∙ ap (λ x. x -ℤ a) (sym was))
          ])
  ]

  credit_endpoint-valid :
      (member : ℕ) (a : ℤ) (order : ℕ) (w : Db)
      → is_positive a ≡ true
      → credit_endpoint member (num a) order w ≡ (
        response (credit cfg (calls order) member a (order_text order) w).0,
        (credit cfg (calls order) member a (order_text order) w).1,
      )
  unfolding credit_endpoint
  credit_endpoint-valid member a order w positive = rw (positive, credit_endpoint) refl

  credit_endpoint-invalid :
      (member : ℕ) (a : ℤ) (order : ℕ) (w : Db)
      → is_positive a ≡ false
      → credit_endpoint member (num a) order w ≡ (bad_request, w)
  unfolding credit_endpoint
  credit_endpoint-invalid member a order w bad = rw (bad, credit_endpoint) refl

  -- All ends of a first call: an error and an unchanged balance, or the amount moved.
  credit_endpoint-cases :
      (member : ℕ) (a : ℤ) (order : ℕ) (w : Db)
      → Fresh order w
      → let (r, w') = credit_endpoint member (num a) order w in
        ((f : Failure) × (r ≡ err f) × (balance_of member w'.wallets ≡ balance_of member w.wallets))
        ⊎ ((b : ℤ) × (r ≡ ok b) × (balance_of member w'.wallets ≡ balance_of member w.wallets +ℤ a))
  credit_endpoint-cases member a order w unseen = elim (Bool-cases (is_positive a)) [
    | inr bad ↦ inl (rw (credit_endpoint-invalid member a order w bad) (_, refl, refl))
    | inl positive ↦
        let after = credit cfg (calls order) member a (order_text order) w in
        rw (credit_endpoint-valid member a order w positive)
          (elim (credit-cases cfg (calls order) member a (order_text order) w unseen.1) [
            | inl (e, refused, same) ↦
                inl (_, ap (λ x. response x) refused, ap (λ ws. balance_of member ws) same)
            | inr (v, held, (e, less)) ↦
                let (was, is) =
                  balance-adjust member (credited a) v w.wallets after.1.wallets held less in
                inr (_, ap (λ x. response x) e, is ∙ ap (λ x. x +ℤ a) (sym was))
          ])
  ]

  balance_after :
      (member : ℕ) {r : Result Failure ℤ} {x : Result Failure ℤ × Db} {w' : Db}
      → x ≡ (r, w')
      → balance_of member w'.wallets ≡ balance_of member x.1.wallets
  balance_after member e = ap (λ x. balance_of member x.1.wallets) (sym e)

  answer_of : {r : Result Failure ℤ} {x : Result Failure ℤ × Db} {w' : Db} → x ≡ (r, w') → r ≡ x.0
  answer_of e = ap (λ x. x.0) (sym e)

  status_from : Result Failure ℤ → Option ℕ
  status_from (ok b) = none
  status_from (err f) = f.status

  answers_differ : {b : ℤ} {f : Failure} → ok b ≡ err f → ⊥
  answers_differ e = ground (arith, e)

  -- What the endpoints do over the network.
  deduct_over-cases :
      (d : Delivery) (member : ℕ) (a : ℤ) (order : ℕ) (w : Db) {f : Failure} {w' : Db}
      → Fresh order w
      → over_network d (deduct_endpoint member (num a) order) w ≡ (err f, w')
      → (balance_of member w'.wallets ≡ balance_of member w.wallets)
        ⊎ ((d ≡ answer_lost)
            × (f.status ≡ none)
            × (a ≤ℤ balance_of member w.wallets)
            × (balance_of member w'.wallets ≡ balance_of member w.wallets -ℤ a))
  unfolding status_from
  deduct_over-cases answered member a order w unseen e =
      elim (deduct_endpoint-cases member a order w unseen) [
        | inl (_, _, same) ↦ inl (balance_after member e ∙ same)
        | inr (_, paid, _, _) ↦ absurd (answers_differ (sym (answer_of e ∙ paid)))
      ]
  deduct_over-cases unreached member a order w unseen e = inl (balance_after member e)
  deduct_over-cases answer_lost member a order w unseen e =
      let silent = ap (λ r. status_from r) (answer_of e) in
      elim (deduct_endpoint-cases member a order w unseen) [
        | inl (_, _, same) ↦ inl (balance_after member e ∙ same)
        | inr (_, _, enough, less) ↦ inr (refl, silent, enough, balance_after member e ∙ less)
      ]

  credit_over-cases :
      (d : Delivery) (member : ℕ) (a : ℤ) (order : ℕ) (w : Db) {f : Failure} {w' : Db}
      → Fresh order w
      → over_network d (credit_endpoint member (num a) order) w ≡ (err f, w')
      → (balance_of member w'.wallets ≡ balance_of member w.wallets)
        ⊎ ((d ≡ answer_lost) × (balance_of member w'.wallets ≡ balance_of member w.wallets +ℤ a))
  credit_over-cases answered member a order w unseen e =
      elim (credit_endpoint-cases member a order w unseen) [
        | inl (_, _, same) ↦ inl (balance_after member e ∙ same)
        | inr (_, paid, _) ↦ absurd (answers_differ (sym (answer_of e ∙ paid)))
      ]
  credit_over-cases unreached member a order w unseen e = inl (balance_after member e)
  credit_over-cases answer_lost member a order w unseen e =
      elim (credit_endpoint-cases member a order w unseen) [
        | inl (_, _, same) ↦ inl (balance_after member e ∙ same)
        | inr (_, _, more) ↦ inr (refl, balance_after member e ∙ more)
      ]

  over_network-ok :
      (d : Delivery) (endpoint : Db → Result Failure ℤ × Db) (w : Db) {b : ℤ} {w' : Db}
      → over_network d endpoint w ≡ (ok b, w')
      → endpoint w ≡ (ok b, w')
  over_network-ok answered endpoint w e = e
  over_network-ok unreached endpoint w e = absurd (answers_differ (answer_of e))
  over_network-ok answer_lost endpoint w e = absurd (answers_differ (answer_of e))

  refused_nan :
      (d : Delivery) (member order : ℕ) (w : Db)
      → (f : Failure) × (over_network d (deduct_endpoint member nan order) w ≡ (err f, w))
  unfolding deduct_endpoint
  refused_nan answered member order w = (_, refl)
  refused_nan unreached member order w = (_, refl)
  refused_nan answer_lost member order w = (_, refl)

  -- The wallet service keeps the contract that the trading service needs; an order is fresh as long as
  -- neither of its keys is in the records.
  pub wallet_laws : WalletLaws wallet_api
  unfolding deduct_endpoint
  wallet_laws = record {
    funds = λ w user. balance_of user w.wallets;
    fresh = Fresh;
    lost = λ order. network order ≡ answer_lost;
    nan_refused = λ member order w. refused_nan (network order) member order w;
    deducted = λ member a order w unseen e.
        let e' = over_network-ok (network order) (deduct_endpoint member (num a) order) w e in
        elim (deduct_endpoint-cases member a order w unseen) [
          | inl (f, refused, _) ↦ absurd (answers_differ (answer_of e' ∙ refused))
          | inr (_, _, enough, less) ↦ (enough, balance_after member e' ∙ less)
        ];
    not_deducted =
        λ member a order w unseen e. deduct_over-cases (network order) member a order w unseen e;
    credited = λ member a order w unseen e.
        let e' = over_network-ok (network order) (credit_endpoint member (num a) order) w e in
        elim (credit_endpoint-cases member a order w unseen) [
          | inl (f, refused, _) ↦ absurd (answers_differ (answer_of e' ∙ refused))
          | inr (_, _, more) ↦ balance_after member e' ∙ more
        ];
    not_credited =
        λ member a order w unseen e. credit_over-cases (network order) member a order w unseen e;
  }
