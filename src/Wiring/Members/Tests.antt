-- ===== src/Wiring/Members/Tests.antt =====
-- A suspension that the trading service does not hear, and a registration that it hears twice.
use eurisko_final_proejct.Base.{ℕ, ◌≡◌, refl, none, some, [], ◌∷◌, ◌++◌, ok, err}
use eurisko_final_proejct.Base.Store.{lookup, insert}
use eurisko_final_proejct.Members as Users
use eurisko_final_proejct.Members.Tests.{seen, event}
use eurisko_final_proejct.Trading.Data.{Db, kyc_required}
use eurisko_final_proejct.Trading.Trader.{assert_can_trade}
use eurisko_final_proejct.Trading.MemberEvents.{
  Registration, registered_trader, email_of_other, on_member_registered,
}
use eurisko_final_proejct.Trading.MemberEvents.Effects.{on_member_registered_resets}
use eurisko_final_proejct.Trading.Tests.{trader, market}
use eurisko_final_proejct.Wiring.Members.{deliver, suspend_member_unheard}

abbrev day : Db ℕ
day = market 0

suspend_member_unheard_example :
    let (r, users') = Users.suspend_member 7 none seen in
    let (s, after) = deliver 99 (Users.member_suspended 7 none) day in
    (r ≡ ok (Users.as_suspended none (Users.created 5 event)))
    × (users'.events ≡ seen.events ++ Users.member_suspended 7 none ∷ [])
    × (s ≡ ok tt)
    × (assert_can_trade 7 after ≡ (ok trader, after))
unfolding lookup insert Users.get_profile Users.handle_registered Users.is_duplicate
suspend_member_unheard_example =
    suspend_member_unheard 7 99 none seen (Users.created 5 event) day trader refl refl refl refl
      refl refl

abbrev registration : Registration
registration = record { id = 7; full_name = "Member"; email = "m@example.org" }

on_member_registered_resets_example :
    let after = (on_member_registered registration day).1 in
    (lookup 7 after.traders ≡ some (registered_trader registration))
    × (assert_can_trade 7 after ≡ (err kyc_required, after))
    × (lookup 7 (on_member_registered registration after).1.traders
        ≡ some (registered_trader registration))
unfolding email_of_other
on_member_registered_resets_example = on_member_registered_resets registration day refl
