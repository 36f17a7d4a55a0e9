-- ===== src/Auth/Cms/Tests.antt =====
-- The staff from the seed on, with hashes that are the passwords.
use text.Mathlib.Text.{◌==◌ as str_eq}
use text.Mathlib.TextEquality.{eq_iff}
use eurisko_final_proejct.Base.{
  ℕ, String, ◌≡◌, ◌≢◌, refl, true, false, [], ok, err, is_ok, arith, none,
}
use eurisko_final_proejct.Base.Store.{lookup, insert}
use eurisko_final_proejct.Auth.Cms.{
  analyst, Db, Library, Call, CreateCmsUserDto, find_one, count_documents, login, create_user,
  change_password, deactivate_user, seed_super_admin, last_administrator,
}
use eurisko_final_proejct.Auth.Cms.Administrators.{
  Administered, start, later, creating, deactivating, seed_super_admin-Administered,
}
use eurisko_final_proejct.Auth.Cms.Passwords.{BcryptLaws, create_user_then_change_password}

abbrev plain : Library
plain = record { hash = λ salt s. s; compare = str_eq; sign = λ now p. "token"; to_lower = λ e. e }

plain_laws : BcryptLaws plain
plain_laws = record { seen = λ s. s; compare-hash_iff = λ a salt b. eq_iff a b }

abbrev call : ℕ → Call
call n = record { now = n; salt = ""; new_id = n; temporary_password = "temporary" }

abbrev empty : Db
empty = record { users = []; events = [] }

abbrev seeded : Db
seeded = (seed_super_admin plain (call 1) 9 "Admin@1234!" empty).1

abbrev ana : CreateCmsUserDto
ana = record { email = 8; full_name = "Ana"; role = analyst }

abbrev with_ana : Db
with_ana = (create_user plain (call 2) ana 1 seeded).1

last_stays : deactivate_user 1 2 with_ana ≡ (err last_administrator, with_ana)
unfolding deactivate_user create_user seed_super_admin lookup insert find_one count_documents
last_stays = refl

fresh_ana : lookup 2 seeded.users ≡ none
unfolding seed_super_admin lookup insert find_one count_documents
fresh_ana = refl

seed_super_admin-Administered_example :
    (seed_super_admin plain (call 7) 6 "other" seeded ≡ (ok tt, seeded))
    × Administered (deactivate_user 1 2 with_ana).1
unfolding count_documents find_one lookup
seed_super_admin-Administered_example =
    seed_super_admin-Administered plain (call 1) (call 7) 9 6 "Admin@1234!" "other" empty
      (deactivate_user 1 2 with_ana).1 refl refl refl
      (later (later start (creating (call 2) ana 1 fresh_ana)) (deactivating 1 2))

temporary_ne : ◌≢◌ {A = String} "temporary" "own"
temporary_ne e = absurd (ground (arith, (eq_iff "temporary" "own").1 e))

create_user_then_change_password_run :
    let (r, db1) = create_user plain (call 2) ana 1 empty in
    let (s, db2) = change_password plain (call 3) 2 "temporary" "own" db1 in
    (r ≡ ok 2)
    × (is_ok (login plain (call 4) 8 "temporary" db1).0 ≡ true)
    × (s ≡ ok tt)
    × (is_ok (login plain (call 4) 8 "own" db2).0 ≡ true)
    × (is_ok (login plain (call 4) 8 "temporary" db2).0 ≡ false)
unfolding find_one lookup plain_laws
create_user_then_change_password_run =
    create_user_then_change_password plain (call 2) (call 3) (call 4) ana 1 "own" empty plain_laws
      refl refl temporary_ne
