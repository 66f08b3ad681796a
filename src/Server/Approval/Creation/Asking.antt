-- ===== src/Server/Approval/Creation/Asking.antt =====
-- What the reads of createApprovalRequestUnchecked in server/internal/app/usecase/approval_usecase.go
-- keep, and who passes its check.
use to_toggle.Prelude.{
  ◌≡◌, refl, sym, ap, ◌∙◌, subst, ◌⊎◌, inl, inr, Bool, true, false, Option, none, some, List, ◌++◌,
  Text, text_eq, In, any, arith, Bool-cases, if◌then◌else◌,
}
use to_toggle.Server.Db.{Answer, ok, err, and_then, and_then_ok, find_first, Table, Lawful}
use to_toggle.Server.Db.Reads.{find_first_state}
use to_toggle.Server.Keys.{SecretKey}
use to_toggle.Server.User.{User, Team, TeamUser, is_root, can_read, get_teams_by_user_id}
use to_toggle.Server.Approval.{ApprovalRequest}
use to_toggle.Server.Approval.Workflow.{
  Stores, Decoder, Named, AuditEvent, AuditLog, record_audit, approval_request_target, label_of,
  option_label,
}
use to_toggle.Server.Approval.Filing.{TeamTables}
use to_toggle.Server.Teams.{TeamStatements}
use to_toggle.Server.Teams.Reads.{ReadsKeep}
use to_toggle.Server.Teams.Membership.{
  teams_of-member, get_teams_by_user_id_holds, get_teams_by_user_id_ok,
}

-- The rows that a creation is about.
abbrev pub Shelf : Type 0
Shelf = List ApprovalRequest × (List SecretKey × List TeamUser)

abbrev pub shelf : {S : Type 0} → Stores S → S → Shelf
shelf st s = (st.requests.rows s, (st.keys.rows s, st.members.rows s))

-- Reads change no row, and an insertion none of another table. Both records hold the table of
-- memberships.
pub record LawfulFiling {S : Type 0} (st : Stores S) (db : TeamTables S) : Type 0 where
  pub team_reads : (g : Shelf) → ReadsKeep db (λ s. shelf st s ≡ g)
  pub toggles_find : (p : Named → Bool) (s : S) → shelf st (st.toggles.find p s).0 ≡ shelf st s
  pub applications_find :
      (p : Named → Bool) (s : S) → shelf st (st.applications.find p s).0 ≡ shelf st s
  pub users_law : Lawful (λ u. u.id) db.users
  pub teams_law : Lawful (λ x. x.id) db.teams
  pub same_members : (s : S) → db.members.rows s ≡ st.members.rows s
  pub members_law : Lawful (λ m. m.team_id ++ m.user_id) db.members
  pub requests_law : Lawful (λ ar. ar.id) st.requests
  pub keys_law : Lawful (λ k. k.id) st.keys
  pub requests_insert :
      (r : ApprovalRequest) (s : S) → st.keys.rows (st.requests.insert r s).0 ≡ st.keys.rows s
  pub keys_insert :
      (k : SecretKey) (s : S) → st.requests.rows (st.keys.insert k s).0 ≡ st.requests.rows s
  pub audit_insert : (r : AuditLog) (s : S) → shelf st (st.audit.insert r s).0 ≡ shelf st s

-- Who may ask for something in the name of a team: root, or one of its members.
abbrev pub MayAsk : User → Text → List TeamUser → Type 0
MayAsk u team_id members =
    (is_root u ≡ true)
    ⊎ ((m : TeamUser) × In m members × (m.user_id ≡ u.id) × (m.team_id ≡ team_id))

pub if-true : {A : Type 0} (b : Bool) (x y : A) → b ≡ true → (if b then x else y) ≡ x
if-true true x y e = refl
if-true false x y e = cc

pub if-false : {A : Type 0} (b : Bool) (x y : A) → b ≡ false → (if b then x else y) ≡ y
if-false false x y e = refl
if-false true x y e = cc

inside : {A : Type 0} (a b : A) → ok b ≡ ok a → a ≡ b
inside a b e = cc

pub in_ok : {A : Type 0} {a b : A} → ok a ≡ ok b → a ≡ b
in_ok e = cc

option_label_state : {S : Type 0} (x : S × Answer Named) → (option_label x).0 ≡ x.0
option_label_state (s, ok n) = refl
option_label_state (s, err e) = refl

module _ {S : Type 0} (st : Stores S) (json : Decoder) (db : TeamTables S) (more : TeamStatements S)
    (law : LawfulFiling st db) where
  pub can_read-MayAsk :
      (u : User) (team_id : Text) (s : S)
      → (can_read db.users db.teams db.members u team_id s).1 ≡ ok true
      → (shelf st (can_read db.users db.teams db.members u team_id s).0 ≡ shelf st s)
        × MayAsk u team_id (st.members.rows s)
  unfolding can_read
  can_read-MayAsk u team_id s h =
      let x = get_teams_by_user_id db.users db.teams db.members u.id s in
      let f : List Team → S → S × Answer Bool =
        (λ ts s'. (s', ok (any (λ x. text_eq x.id team_id) ts))) in
      elim (Bool-cases (is_root u)) [
        | inl e ↦
            (ap (λ z. shelf st z.0) (if-true (is_root u) (s, ok true) (and_then x f) e), inl e)
        | inr e ↦
            let out = if-false (is_root u) (s, ok true) (and_then x f) e in
            let (ts, k, q, w) = and_then_ok x f true (ap (λ z. z.1) (sym out) ∙ h) in
            let P : S → Type 0 = (λ y. shelf st y ≡ shelf st s) in
            let keep = law.team_reads (shelf st s) in
            let kept =
              get_teams_by_user_id_holds db.users db.teams db.members P u.id s keep.users keep.teams
                keep.members refl in
            let apart : (p : User → Bool) (y : S)
                → db.members.rows (db.users.find p y).0 ≡ db.members.rows y =
              (λ p y.
                law.same_members (db.users.find p y).0
                ∙ ap (λ g. g.1.1) ((law.team_reads (shelf st y)).users p y refl)
                ∙ sym (law.same_members y)) in
            let theirs =
              get_teams_by_user_id_ok db.users db.teams db.members (λ m. m.team_id ++ m.user_id)
                u.id s ts law.teams_law law.members_law apart k in
            let (m, i, a, b) =
              teams_of-member u.id team_id (db.members.rows s) _
                (subst (λ l. any (λ x. text_eq x.id team_id) l ≡ true) theirs (in_ok w)) in
            (
              ap (λ z. shelf st z.0) (out ∙ q) ∙ kept,
              inr (m, subst (In m) (law.same_members s) i, a, b),
            )
      ]

  label_of-shelf :
      (t : Table S Named)
      → ((p : Named → Bool) (s : S) → shelf st (t.find p s).0 ≡ shelf st s)
      → (id : Option Text) (s : S) → shelf st (label_of st json t id s).0 ≡ shelf st s
  unfolding label_of
  label_of-shelf t keep none s = refl
  label_of-shelf t keep (some id) s =
      let p : Named → Bool = (λ n. text_eq n.id id) in
      ap (shelf st) (option_label_state (find_first t p s) ∙ find_first_state t p s) ∙ keep p s

  target-shelf :
      (ar : ApprovalRequest) (s : S)
      → shelf st (approval_request_target st json ar s).0 ≡ shelf st s
  unfolding approval_request_target
  target-shelf ar s =
      let a = label_of-shelf st.toggles law.toggles_find ar.toggle_id s in
      let b = label_of-shelf st.applications law.applications_find ar.application_id s in
      ground (arith, a, b)

  pub record_audit-shelf :
      (event : AuditEvent) (text : Text) (ar : ApprovalRequest) (u : User) (s : S)
      → shelf st (record_audit st json event text ar u s) ≡ shelf st s
  unfolding record_audit
  record_audit-shelf event text ar u s =
      law.audit_insert _ (approval_request_target st json ar s).0 ∙ target-shelf ar s
