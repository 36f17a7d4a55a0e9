-- ===== src/Members/Announcements.antt =====
-- The messages tell a listener that reads all of them who is suspended.
use mathlib.Core.Option.{get_or}
use eurisko_final_proejct.Base.{
  ℕ, String, ◌≡◌, refl, Bool, true, false, Option, none, some, List, [], ◌∷◌, ◌++◌, arith, inl, inr,
  Bool-cases, ◌==◌, ap, sym, subst, ◌∙◌, append_nil, if◌then◌else◌,
}
use eurisko_final_proejct.Base.Store.{lookup, insert, lookup-insert, lookup-adjust}
use eurisko_final_proejct.Members.{
  Member, Event, member_suspended, member_activated, member_kyc_updated, Db, is_suspended,
  MemberRegisteredEvent, created, renamed, as_suspended, as_active, with_kyc,
}
use eurisko_final_proejct.Members.Changes.{
  touched, Effect, nothing, caching, renaming, suspending, activating, deciding, registering,
}
use eurisko_final_proejct.Members.Calls.{Steps, start, later, Step-Effect}

-- What one message says of a member's suspension.
abbrev pub word : ℕ → Event → Option Bool
word user (member_suspended id _) = if id == user then some true else none
word user (member_activated id) = if id == user then some false else none
word user (member_kyc_updated _ _ _) = none

abbrev pub or_else : Option Bool → Option Bool → Option Bool
or_else (some b) _ = some b
or_else none other = other

-- The last that the messages say of it.
unfoldable pub last_word : ℕ → List Event → Option Bool
last_word user [] = none
last_word user (e ∷ es) = or_else (last_word user es) (word user e)

or_else-none : (a : Option Bool) → or_else a none ≡ a
or_else-none none = refl
or_else-none (some a) = refl

or_else_assoc : (a b c : Option Bool) → or_else (or_else a b) c ≡ or_else a (or_else b c)
or_else_assoc none b c = refl
or_else_assoc (some a) b c = refl

last_word-append :
    (user : ℕ) (es : List Event) (e : Event)
    → last_word user (es ++ e ∷ []) ≡ or_else (word user e) (last_word user es)
unfolding last_word
last_word-append user [] e = sym (or_else-none (word user e))
last_word-append user (d ∷ es) e =
    ap (λ o. or_else o (word user d)) (last_word-append user es e)
    ∙ or_else_assoc (word user e) (last_word user es) (word user d)

-- What the store and the messages say of one id fit together.
abbrev pub Told : Option Member → Option Bool → Type 0
Told none last = last ≡ none
Told (some m) last = is_suspended m.status ≡ get_or last false

-- A listener takes a member for suspended if the last message about it says so; of an unknown id no
-- message has told.
abbrev pub Announced : Db → Type 0
Announced db = (user : ℕ) → Told (lookup user db.members) (last_word user db.events)

Told-of : {o o' : Option Member} {w w' : Option Bool} → o ≡ o' → w ≡ w' → Told o w → Told o' w'
Told-of {o} {o'} {w} {w'} p q told = subst (λ x. Told o' x) q (subst (λ x. Told x w) p told)

module _ (user : ℕ) (f : Member → Member) (db : Db) {m : Member}
    (held : lookup user db.members ≡ some m) where
  -- A change that tells nothing about anybody's suspension, and changes none.
  quiet :
      (news : List Event)
      → ((j : ℕ) → last_word j (db.events ++ news) ≡ last_word j db.events)
      → is_suspended (f m).status ≡ is_suspended m.status
      → Announced db
      → Announced (touched user f news db)
  quiet news same kept told j = elim (Bool-cases (user == j)) [
    | inl here ↦
        let u : user ≡ j = ground (arith, here) in
        let held' : lookup j db.members ≡ some m =
          subst (λ k. lookup k db.members ≡ some m) u held in
        Told-of {o = some (f m)} {w = last_word j db.events}
          (sym (ground (arith, here, held', lookup-adjust user j f db.members))) (sym (same j))
          (kept ∙ Told-of {w = last_word j db.events} held' refl (told j))
    | inr other ↦
        Told-of {w = last_word j db.events}
          (sym (ground (arith, other, lookup-adjust user j f db.members))) (sym (same j)) (told j)
  ]

  -- A change with the message that says it.
  loud :
      (e : Event) (b : Bool)
      → word user e ≡ some b
      → ((j : ℕ) → (user == j) ≡ false → word j e ≡ none)
      → is_suspended (f m).status ≡ b
      → Announced db
      → Announced (touched user f (e ∷ []) db)
  loud e b says only now_ told j = elim (Bool-cases (user == j)) [
    | inl here ↦
        let u : user ≡ j = ground (arith, here) in
        let held' : lookup j db.members ≡ some m =
          subst (λ k. lookup k db.members ≡ some m) u held in
        let says' : word j e ≡ some b = subst (λ k. word k e ≡ some b) u says in
        Told-of {o = some (f m)} {w = some b}
          (sym (ground (arith, here, held', lookup-adjust user j f db.members)))
          (sym (last_word-append j db.events e ∙ ap (λ o. or_else o (last_word j db.events)) says'))
          now_
    | inr other ↦
        Told-of {w = last_word j db.events}
          (sym (ground (arith, other, lookup-adjust user j f db.members)))
          (sym (
            last_word-append j db.events e
            ∙ ap (λ o. or_else o (last_word j db.events)) (only j other)))
          (told j)
  ]

register-Announced :
    (now : ℕ) (e : MemberRegisteredEvent) (db : Db)
    → lookup e.user_id db.members ≡ none
    → Announced db
    → Announced (record db { members = insert e.user_id (created now e) db.members })
register-Announced now e db free told j = elim (Bool-cases (e.user_id == j)) [
  | inl here ↦
      let free' : lookup j db.members ≡ none = ground (arith, here, free) in
      let silent : last_word j db.events ≡ none =
        Told-of {w = last_word j db.events} free' refl (told j) in
      Told-of {o = some (created now e)} {w = none}
        (sym (ground (arith, here, lookup-insert e.user_id j (created now e) db.members)))
        (sym silent) refl
  | inr other ↦
      Told-of {w = last_word j db.events}
        (sym (ground (arith, other, lookup-insert e.user_id j (created now e) db.members))) refl
        (told j)
]

status_renamed : (name : Option String) (m : Member) → (renamed name m).status ≡ m.status
status_renamed none m = refl
status_renamed (some name) m = refl

Effect-Announced : {a b : Db} → Effect a b → Announced a → Announced b
Effect-Announced nothing told = told
Effect-Announced (caching user held) told = told
Effect-Announced {a} (renaming user name {m} held) told =
    quiet user (renamed name) a held [] (λ j. ap (last_word j) (sym (append_nil a.events)))
      (ap is_suspended (status_renamed name m)) told
Effect-Announced {a} (suspending user reason held free) told =
    loud user (as_suspended reason) a held (member_suspended user reason) true (ground arith)
      (λ j other. ground (arith, other)) refl told
Effect-Announced {a} (activating user held done) told =
    loud user as_active a held (member_activated user) false (ground arith)
      (λ j other. ground (arith, other)) refl told
Effect-Announced {a} (deciding user kyc reason held) told =
    quiet user (with_kyc kyc) a held (member_kyc_updated user kyc reason ∷ [])
      (λ j. last_word-append j a.events (member_kyc_updated user kyc reason)) refl told
Effect-Announced {a} (registering now e free) told = register-Announced now e a free told

-- If the messages tell who is suspended, then they still do after any calls of the user service, in any
-- order: a stored member is suspended exactly if the last message about it says so.
pub Steps-Announced :
    (a b : Db) (user : ℕ) (m : Member)
    → Announced a
    → Steps a b
    → lookup user b.members ≡ some m
    → is_suspended m.status ≡ get_or (last_word user b.events) false
Steps-Announced a b user m told steps held =
    Told-of {w = last_word user b.events} held refl (told_after steps told user)
  where
    told_after : {c d : Db} → Steps c d → Announced c → Announced d
    told_after start before = before
    told_after (later earlier step) before =
        Effect-Announced (Step-Effect step) (told_after earlier before)
