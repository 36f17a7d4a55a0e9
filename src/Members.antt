-- ===== src/Members.antt =====
-- apps/user-service: the profiles of the members behind their cache, with the events that tell the other
-- services (modules/member/member.service.ts, modules/messaging), and the consumer that creates them.
-- The entries of the cache are those that have not expired; Redis answers.
pub mod Changes
pub mod Calls
pub mod Coherence
pub mod Announcements
pub mod Tests
use text.Mathlib.Text.{◌==◌ as str_eq}
use eurisko_final_proejct.Base.{
  ℕ, String, Bool, true, false, not, ◌&&◌, ◌||◌, Option, none, some, List, [], ◌∷◌, ◌++◌, Action,
  ok, err, ◌>>=◌, ◌>>◌, pure, throw, gets, or_throw, throw_if, modify, ◌==◌, if◌then◌else◌,
}
use eurisko_final_proejct.Base.Store.{Store, lookup, insert, adjust, erase}
use eurisko_final_proejct.Pages.{PaginatedResult, paginate}

pub data MemberStatus : Type 0 where
  pending_verification active suspended : MemberStatus

pub data KycStatus : Type 0 where
  kyc_pending kyc_approved kyc_rejected : KycStatus

-- `Member`, found by the id that it shares with the account.
pub record Member : Type 0 where
  pub full_name : String
  pub email : String
  pub national_id : String
  pub date_of_birth : String
  pub status : MemberStatus
  pub kyc_status : KycStatus
  pub suspension_reason : Option String
  pub created_at : ℕ

-- The three messages of `MemberEventsService`.
pub data Event : Type 0 where
  member_suspended : (user_id : ℕ) (reason : Option String) → Event
  member_activated : (user_id : ℕ) → Event
  member_kyc_updated :
      (user_id : ℕ) (kyc_status : KycStatus) (rejection_reason : Option String) → Event

-- The database, the keys `cache:member:{userId}` and the messages.
pub record Db : Type 0 where
  pub members : Store Member
  pub profiles : Store Member
  pub events : List Event

pub data MemberError : Type 0 where
  member_not_found already_suspended not_suspended reason_required : MemberError

abbrev pub is_suspended : MemberStatus → Bool
is_suspended suspended = true
is_suspended _ = false

abbrev pub is_rejected : KycStatus → Bool
is_rejected kyc_rejected = true
is_rejected _ = false

-- An empty text counts as none.
abbrev pub is_given : Option String → Bool
is_given none = false
is_given (some s) = not (str_eq s "")

-- `getProfile`, and `getMemberById`, which is the same for the staff.
unfoldable pub get_profile : ℕ → Action Db MemberError Member
get_profile user db = elim (lookup user db.profiles) [
  | some m ↦ (ok m, db)
  | none ↦ elim (lookup user db.members) [
    | none ↦ (err member_not_found, db)
    | some m ↦ (ok m, record db { profiles = insert user m db.profiles })
  ]
]

-- `cacheService.del` of the profile.
abbrev pub forget : ℕ → Action Db MemberError (Unit {0})
forget user = modify (λ db. record db { profiles = erase user db.profiles })

abbrev pub emit : Event → Action Db MemberError (Unit {0})
emit e = modify (λ db. record db { events = db.events ++ e ∷ [] })

-- `member.save()` and `findByIdAndUpdate` of a document that was found.
abbrev pub save : ℕ → (Member → Member) → Action Db MemberError (Unit {0})
save user f = modify (λ db. record db { members = adjust user f db.members })

abbrev pub find_member : ℕ → Action Db MemberError Member
find_member user = do or_throw (← gets (λ db. lookup user db.members)) member_not_found

-- `{ $set: dto }`: only the name can change, and only if it is given.
abbrev pub renamed : Option String → Member → Member
renamed none m = m
renamed (some name) m = record m { full_name = name }

unfoldable pub update_profile : ℕ → Option String → Action Db MemberError Member
update_profile user name = do
  member ← find_member user
  save user (renamed name)
  forget user
  pure (renamed name member)

abbrev pub as_suspended : Option String → Member → Member
as_suspended reason m = record m { status = suspended; suspension_reason = reason }

abbrev pub as_active : Member → Member
as_active m = record m { status = active; suspension_reason = none }

abbrev pub with_kyc : KycStatus → Member → Member
with_kyc kyc m = record m { kyc_status = kyc }

unfoldable pub suspend_member : ℕ → Option String → Action Db MemberError Member
suspend_member user reason = do
  member ← find_member user
  throw_if (is_suspended member.status) already_suspended
  save user (as_suspended reason)
  forget user
  emit (member_suspended user reason)
  pure (as_suspended reason member)

unfoldable pub unsuspend_member : ℕ → Action Db MemberError Member
unsuspend_member user = do
  member ← find_member user
  throw_if (not (is_suspended member.status)) not_suspended
  save user as_active
  forget user
  emit (member_activated user)
  pure (as_active member)

unfoldable pub update_kyc : ℕ → KycStatus → Option String → Action Db MemberError Member
update_kyc user kyc reason = do
  throw_if (is_rejected kyc && not (is_given reason)) reason_required
  member ← find_member user
  save user (with_kyc kyc)
  forget user
  emit (member_kyc_updated user kyc reason)
  pure (with_kyc kyc member)

-- `MemberRegisteredEvent`
pub record MemberRegisteredEvent : Type 0 where
  pub user_id : ℕ
  pub full_name : String
  pub email : String
  pub national_id : String
  pub date_of_birth : String

abbrev pub created : ℕ → MemberRegisteredEvent → Member
created now e = record {
  full_name = e.full_name;
  email = e.email;
  national_id = e.national_id;
  date_of_birth = e.date_of_birth;
  status = active;
  kyc_status = kyc_pending;
  suspension_reason = none;
  created_at = now;
}

-- The unique indexes: the id, the email and the national id.
unfoldable pub is_duplicate : MemberRegisteredEvent → Store Member → Bool
is_duplicate e [] = false
is_duplicate e ((id, m) ∷ ms) =
    let rest = is_duplicate e ms in
    (id == e.user_id || (str_eq m.email e.email || str_eq m.national_id e.national_id)) || rest

-- `MemberRegisteredConsumer.handle`: error 11000 is ignored.
unfoldable pub handle_registered : ℕ → MemberRegisteredEvent → Db → Db
handle_registered now e db =
    if is_duplicate e db.members
    then db
    else record db { members = insert e.user_id (created now e) db.members }

-- `MemberQueryDto`; the page and the limit have defaults.
pub record MemberQuery : Type 0 where
  pub status : Option MemberStatus
  pub kyc_status : Option KycStatus
  pub search : Option String
  pub page : ℕ
  pub limit : ℕ

abbrev pub has_status : Option MemberStatus → MemberStatus → Bool
has_status none s = true
has_status (some pending_verification) pending_verification = true
has_status (some active) active = true
has_status (some suspended) suspended = true
has_status (some _) _ = false

abbrev pub has_kyc_status : Option KycStatus → KycStatus → Bool
has_kyc_status none s = true
has_kyc_status (some kyc_pending) kyc_pending = true
has_kyc_status (some kyc_approved) kyc_approved = true
has_kyc_status (some kyc_rejected) kyc_rejected = true
has_kyc_status (some _) _ = false

abbrev pub found_by : (String → Member → Bool) → Option String → Member → Bool
found_by text none m = true
found_by text (some words) m = if str_eq words "" then true else text words m

-- `listMembers`; the text search and the sort by `createdAt` are the database's.
unfoldable pub list_members :
    (String → Member → Bool)
    → (Store Member → Store Member)
    → MemberQuery
    → Db
    → PaginatedResult (ℕ × Member)
list_members text newest q db =
    paginate newest
      (λ (d : ℕ × Member).
        has_status q.status d.1.status
        && (has_kyc_status q.kyc_status d.1.kyc_status && found_by text q.search d.1))
      q.page q.limit db.members
