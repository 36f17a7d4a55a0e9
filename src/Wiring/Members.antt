-- ===== src/Wiring/Members.antt =====
-- The messages of the user service (apps/user-service/src/modules/messaging/member-events.service.ts) as
-- the trading service receives them (apps/trading-service/src/modules/trader/member-event.consumer.ts):
-- the JSON object has the sender's fields.
pub mod Tests
use eurisko_final_proejct.Base.{
  ℕ, String, ◌≡◌, refl, Bool, true, false, Option, none, some, List, [], ◌∷◌, ◌++◌, Action, ok, err,
  arith,
}
use eurisko_final_proejct.Base.Store.{Store, lookup, lookup-adjust_self}
use eurisko_final_proejct.Members as Users
use eurisko_final_proejct.Members.Changes.{suspend_member-done}
use eurisko_final_proejct.Trading.Data.{
  Trader, active, KycStatus, kyc_pending, kyc_approved, kyc_rejected, Db, Error,
}
use eurisko_final_proejct.Trading.Trader.{assert_can_trade, is_suspended, is_approved}
use eurisko_final_proejct.Trading.MemberEvents.{
  Payload, on_member_suspended, on_member_activated, on_kyc_updated,
}
use eurisko_final_proejct.Trading.MemberEvents.Effects.{nameless}

abbrev pub kyc_of : Users.KycStatus → KycStatus
kyc_of Users.kyc_pending = kyc_pending
kyc_of Users.kyc_approved = kyc_approved
kyc_of Users.kyc_rejected = kyc_rejected

-- The sender writes `userId`, and the receiver reads `memberId`.
abbrev pub payload_of : KycStatus → Payload
payload_of kyc = record { member_id = none; kyc_status = kyc }

-- The handler of each topic.
unfoldable pub deliver : {W : Type 0} → ℕ → Users.Event → Action (Db W) Error (Unit {0})
deliver fresh (Users.member_suspended user reason) =
    on_member_suspended fresh (payload_of kyc_pending)
deliver fresh (Users.member_activated user) = on_member_activated fresh (payload_of kyc_pending)
deliver fresh (Users.member_kyc_updated user kyc reason) =
    on_kyc_updated fresh (payload_of (kyc_of kyc))

-- No message changes a trader.
deliver_ignored :
    {W : Type 0} (fresh : ℕ) (e : Users.Event) (db : Db W)
    → lookup fresh db.traders ≡ none
    → deliver fresh e db ≡ (ok tt, db)
unfolding deliver
deliver_ignored fresh (Users.member_suspended user reason) db unknown =
    (nameless fresh (payload_of kyc_pending) db refl unknown).0
deliver_ignored fresh (Users.member_activated user) db unknown =
    (nameless fresh (payload_of kyc_pending) db refl unknown).1
deliver_ignored fresh (Users.member_kyc_updated user kyc reason) db unknown =
    (nameless fresh (payload_of (kyc_of kyc)) db refl unknown).2

assert_can_trade-passed :
    {W : Type 0} (user : ℕ) (t : Trader) (db : Db W)
    → lookup user db.traders ≡ some t
    → is_suspended t.status ≡ false
    → is_approved t.kyc_status ≡ true
    → assert_can_trade user db ≡ (ok t, db)
unfolding assert_can_trade
assert_can_trade-passed user t db known free approved = ground (arith, known, free, approved)

-- Suspending a member does not take the right to trade. The user service suspends a member that was not
-- suspended and sends the message; the trading service handles it, with a new id that is no trader's;
-- and a trader that was neither suspended nor unapproved still passes the guard of the orders.
pub suspend_member_unheard :
    {W : Type 0} (user fresh : ℕ) (reason : Option String) (users : Users.Db) (m : Users.Member)
    (db : Db W) (t : Trader)
    → lookup user users.members ≡ some m
    → Users.is_suspended m.status ≡ false
    → lookup user db.traders ≡ some t
    → is_suspended t.status ≡ false
    → is_approved t.kyc_status ≡ true
    → lookup fresh db.traders ≡ none
    → let (r, users') = Users.suspend_member user reason users in
      let (s, after) = deliver fresh (Users.member_suspended user reason) db in
      (r ≡ ok (Users.as_suspended reason m))
      × (users'.events ≡ users.events ++ Users.member_suspended user reason ∷ [])
      × (s ≡ ok tt)
      × (assert_can_trade user after ≡ (ok t, after))
suspend_member_unheard user fresh reason users m db t held free known trading approved unknown =
    rw
      (
        suspend_member-done user users held reason free,
        deliver_ignored fresh (Users.member_suspended user reason) db unknown,
      )
      (refl, refl, refl, assert_can_trade-passed user t db known trading approved)
