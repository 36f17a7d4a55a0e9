-- ===== src/Trading/MemberEvents/Effects.antt =====
-- What the messages about members do to the right to trade.

use eurisko_final_proejct.Base.{
  ℕ, ◌≡◌, refl, false, none, some, [], ◌∷◌, ok, err, arith, inl, inr, Bool-cases, ◌==◌,
}
use eurisko_final_proejct.Base.Store.{
  Store, lookup, insert, adjust, lookup-adjust_self, lookup-insert_self,
}
use eurisko_final_proejct.Trading.Data.{
  Trader, active, suspended, Db, account_suspended, kyc_required,
}
use eurisko_final_proejct.Trading.Trader.{update_status, update_kyc_status, assert_can_trade}
use eurisko_final_proejct.Trading.MemberEvents.{
  Registration, Payload, registered_trader, email_of_other, upsert_from_registration,
  on_member_registered, on_member_suspended, on_member_activated, on_kyc_updated,
}

adjust_missing :
    {V : Type 0} (k : ℕ) (f : V → V) (m : Store V) → lookup k m ≡ none → adjust k f m ≡ m
unfolding lookup adjust
adjust_missing k f [] missing = refl
adjust_missing k f ((j, v) ∷ m) missing = elim (Bool-cases (j == k)) [
  | inl same ↦ absurd (ground (arith, same, missing))
  | inr other ↦ ground (arith, other, adjust_missing k f m (ground (arith, other, missing)))
]

module _ {W : Type 0} (fresh : ℕ) (p : Payload) (db : Db W) where
  -- A message without the field that is read changes nothing, if the new id is no trader's.
  pub nameless :
      p.member_id ≡ none
      → lookup fresh db.traders ≡ none
      → (on_member_suspended fresh p db ≡ (ok tt, db))
        × (on_member_activated fresh p db ≡ (ok tt, db))
        × (on_kyc_updated fresh p db ≡ (ok tt, db))
  unfolding on_member_suspended on_member_activated on_kyc_updated update_status update_kyc_status
  nameless without unknown = (
    rw
        (
          without,
          adjust_missing fresh (λ (t : Trader). record t { status = suspended }) db.traders unknown,
        )
        refl,
    rw
        (
          without,
          adjust_missing fresh (λ (t : Trader). record t { status = active }) db.traders unknown,
        )
        refl,
    rw
        (
          without,
          adjust_missing fresh (λ (t : Trader). record t { kyc_status = p.kyc_status }) db.traders
              unknown,
        )
        refl,
  )

  -- A message of a suspension that names a known trader takes the right to trade.
  pub on_member_suspended-refuses :
      (id : ℕ) (t : Trader)
      → p.member_id ≡ some id
      → lookup id db.traders ≡ some t
      → let after = (on_member_suspended fresh p db).1 in
        assert_can_trade id after ≡ (err account_suspended, after)
  unfolding on_member_suspended update_status assert_can_trade
  on_member_suspended-refuses id t named known = ground (
    arith,
    named,
    lookup-adjust_self id (λ (t : Trader). record t { status = suspended }) db.traders known,
  )

-- A registration for an id, with an email that no other trader has, leaves an active trader whose
-- identity has to be checked, whatever the trader was before: it may not trade until a decision. The
-- same message again leaves the same.
pub on_member_registered_resets :
    {W : Type 0} (p : Registration) (db : Db W)
    → email_of_other p db.traders ≡ false
    → let after = (on_member_registered p db).1 in
      (lookup p.id after.traders ≡ some (registered_trader p))
      × (assert_can_trade p.id after ≡ (err kyc_required, after))
      × (lookup p.id (on_member_registered p after).1.traders ≡ some (registered_trader p))
unfolding on_member_registered upsert_from_registration assert_can_trade
on_member_registered_resets p db free =
    let stored = lookup-insert_self p.id (registered_trader p) db.traders in
    (
      ground (arith, free, stored),
      ground (arith, free, stored),
      elim (Bool-cases (email_of_other p (insert p.id (registered_trader p) db.traders))) [
        | inl clash ↦ ground (arith, free, clash, stored)
        | inr clear ↦ ground (
          arith,
          free,
          clear,
          lookup-insert_self p.id (registered_trader p)
              (insert p.id (registered_trader p) db.traders),
        )
      ],
    )
