-- ===== src/Trading/MemberEvents.antt =====
-- apps/trading-service/src/modules/trader/member-event.consumer.ts, and `upsertFromRegistration` of
-- trader.service.ts. A message is a JSON object, in which a field that the sender did not write is
-- undefined; `new Types.ObjectId(undefined)` is a new id, which is drawn from outside.
pub mod Effects
use text.Mathlib.Text.{◌==◌ as str_eq}
use mathlib.Core.Option.{get_or}
use eurisko_final_proejct.Base.{
  ℕ, String, Bool, false, not, ◌&&◌, ◌||◌, Option, none, some, List, [], ◌∷◌, Action, ok, pure,
  modify, gets, ◌>>=◌, ◌>>◌, ◌==◌, if◌then◌else◌,
}
use eurisko_final_proejct.Base.Store.{Store, lookup, insert}
use eurisko_final_proejct.Trading.Data.{
  Trader, TraderStatus, active, suspended, KycStatus, kyc_pending, Db, Error,
}
use eurisko_final_proejct.Trading.Trader.{update_status, update_kyc_status}

-- The payload of `upsertFromRegistration`.
pub record Registration : Type 0 where
  pub id : ℕ
  pub full_name : String
  pub email : String

-- What the consumer reads of a message about a member.
pub record Payload : Type 0 where
  pub member_id : Option ℕ
  pub kyc_status : KycStatus

abbrev pub registered_trader : Registration → Trader
registered_trader p = record {
  full_name = p.full_name;
  email = p.email;
  status = active;
  kyc_status = kyc_pending;
}

-- The unique index of the email: does another trader have it?
unfoldable pub email_of_other : Registration → Store Trader → Bool
email_of_other p [] = false
email_of_other p ((id, t) ∷ ts) =
    let rest = email_of_other p ts in (not (id == p.id) && str_eq t.email p.email) || rest

-- `new Types.ObjectId(payload.memberId)`
abbrev pub object_id : ℕ → Payload → ℕ
object_id fresh p = get_or p.member_id fresh

module _ {W : Type 0} where
  -- An upsert by the id; error 11000 is ignored.
  unfoldable pub upsert_from_registration : Registration → Action (Db W) Error (Unit {0})
  upsert_from_registration p db = (
    ok tt,
    if email_of_other p db.traders
        then db
        else record db { traders = insert p.id (registered_trader p) db.traders },
  )

  unfoldable pub on_member_registered : Registration → Action (Db W) Error (Unit {0})
  on_member_registered p = upsert_from_registration p

  unfoldable pub on_member_suspended : ℕ → Payload → Action (Db W) Error (Unit {0})
  on_member_suspended fresh p = update_status (object_id fresh p) suspended

  unfoldable pub on_member_activated : ℕ → Payload → Action (Db W) Error (Unit {0})
  on_member_activated fresh p = update_status (object_id fresh p) active

  unfoldable pub on_kyc_updated : ℕ → Payload → Action (Db W) Error (Unit {0})
  on_kyc_updated fresh p = update_kyc_status (object_id fresh p) p.kyc_status
