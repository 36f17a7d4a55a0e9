-- ===== src/Members/Tests.antt =====
-- A member that registers, is suspended and is read.
use mathlib.Core.Option.{get_or}
use eurisko_final_proejct.Base.{◌≡◌, refl, false, none, some, [], ok, err, arith}
use eurisko_final_proejct.Base.Store.{lookup, insert, adjust, erase}
use eurisko_final_proejct.Members.{
  Member, Db, MemberRegisteredEvent, created, as_suspended, get_profile, suspend_member,
  handle_registered, is_duplicate, is_suspended, already_suspended, update_kyc, kyc_rejected,
  reason_required,
}
use eurisko_final_proejct.Members.Calls.{Steps, start, later, receiving, reading, suspending_}
use eurisko_final_proejct.Members.Coherence.{Coherent, get_profile_stored}
use eurisko_final_proejct.Members.Announcements.{Announced, last_word, Steps-Announced}

abbrev pub empty : Db
empty = record { members = []; profiles = []; events = [] }

abbrev pub event : MemberRegisteredEvent
event = record {
  user_id = 7;
  full_name = "Someone";
  email = "m@example.org";
  national_id = "N-1";
  date_of_birth = "1990-05-17";
}

abbrev pub joined : Db
joined = handle_registered 5 event empty

abbrev pub seen : Db
seen = (get_profile 7 joined).1

abbrev barred : Db
barred = (suspend_member 7 (some "fraud") seen).1

abbrev run : Steps empty barred
run = later (later (later start (receiving 5 event)) (reading 7)) (suspending_ 7 (some "fraud"))

abbrev someone : Member
someone = as_suspended (some "fraud") (created 5 event)

twice : suspend_member 7 none barred ≡ (err already_suspended, barred)
unfolding get_profile suspend_member handle_registered is_duplicate lookup insert adjust erase
twice = refl

unexplained : update_kyc 7 kyc_rejected none barred ≡ (err reason_required, barred)
unfolding update_kyc
unexplained = refl

barred_stored : lookup 7 barred.members ≡ some someone
unfolding get_profile suspend_member handle_registered is_duplicate lookup insert adjust erase
barred_stored = refl

empty-Coherent : Coherent empty
unfolding lookup
empty-Coherent user m hit = absurd (ground (arith, hit))

empty-Announced : Announced empty
unfolding lookup last_word
empty-Announced user = refl

get_profile_stored_example :
    ((get_profile 7 barred).0 ≡ ok someone) × Coherent (get_profile 7 barred).1
get_profile_stored_example =
    get_profile_stored 7 empty barred someone empty-Coherent run barred_stored

Steps-Announced_example : is_suspended someone.status ≡ get_or (last_word 7 barred.events) false
Steps-Announced_example = Steps-Announced empty barred 7 someone empty-Announced run barred_stored
