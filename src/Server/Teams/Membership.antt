-- ===== src/Server/Teams/Membership.antt =====
-- What GetTeamsByUserID of server/internal/app/infrastructure/database/team_repository.go answers.
use to_toggle.Prelude.{
  ◌≡◌, refl, sym, ap, ◌∙◌, subst, inl, inr, Bool, true, false, List, [], ◌∷◌, Text, text_eq,
  text_eq_iff, is_nil, any, ◌||◌, select, In, Bool-cases,
}
use to_toggle.Server.Db.{Answer, ok, and_then, and_then_ok, find_first, Table, Lawful}
use to_toggle.Server.Db.Rows.{In-select}
use to_toggle.Server.Db.Keep.{and_then_holds}
use to_toggle.Server.Db.Reads.{find_first_state}
use to_toggle.Server.User.{User, Team, TeamUser, preload, get_teams_by_user_id}
use to_toggle.Server.Teams.Reads.{Keeps, preload_holds, find_first_holds}

-- The teams of a user, among the rows.
abbrev pub teams_of : Text → List TeamUser → List Team → List Team
teams_of user_id ms xs =
    let own = select (λ m. text_eq m.user_id user_id) ms in
    select (λ x. any (λ m. text_eq m.team_id x.id) own) xs

any-In :
    {A : Type 0} (p : A → Bool) (xs : List A) → any p xs ≡ true → (a : A) × In a xs × (p a ≡ true)
any-In p [] h = cc
any-In p (x ∷ xs) h = elim (Bool-cases (p x)) [
  | inl e ↦ (x, inl refl, e)
  | inr e ↦ let (a, i, q) = any-In p xs (subst (λ b. b || any p xs ≡ true) e h) in (a, inr i, q)
]

-- A team that is found among the teams of a user has the user as a member.
pub teams_of-member :
    (user_id team_id : Text) (ms : List TeamUser) (xs : List Team)
    → any (λ x. text_eq x.id team_id) (teams_of user_id ms xs) ≡ true
    → (m : TeamUser) × In m ms × (m.user_id ≡ user_id) × (m.team_id ≡ team_id)
teams_of-member user_id team_id ms xs h =
    let own = select (λ m. text_eq m.user_id user_id) ms in
    let (x, i, e) = any-In (λ x. text_eq x.id team_id) (teams_of user_id ms xs) h in
    let (j, c) = (In-select (λ x. any (λ m. text_eq m.team_id x.id) own) xs x).0 i in
    let (m, k, q) = any-In (λ m. text_eq m.team_id x.id) own c in
    let (l, w) = (In-select (λ m. text_eq m.user_id user_id) ms m).0 k in
    (
      m,
      l,
      (text_eq_iff m.user_id user_id).0 w,
      (text_eq_iff m.team_id x.id).0 q ∙ (text_eq_iff x.id team_id).0 e,
    )

select-no_one : {A : Type 0} (xs : List A) → select (λ x. false) xs ≡ []
select-no_one [] = refl
select-no_one (x ∷ xs) = select-no_one xs

module _ {S : Type 0} (users : Table S User) (teams : Table S Team)
    (members : Table S TeamUser) where
  pub get_teams_by_user_id_holds :
      (P : S → Type 0) (user_id : Text) (s : S)
      → Keeps P users
      → Keeps P teams
      → Keeps P members
      → P s
      → P (get_teams_by_user_id users teams members user_id s).0
  unfolding get_teams_by_user_id
  get_teams_by_user_id_holds P user_id s keep_users keep_teams keep_members h =
      let own : TeamUser → Bool = (λ m. text_eq m.user_id user_id) in
      let theirs : List TeamUser → S → S × Answer (List Team) =
        (λ ms. preload teams (λ x. any (λ m. text_eq m.team_id x.id) ms) (is_nil ms)) in
      and_then_holds P (find_first users (λ u. text_eq u.id user_id) s)
        (λ u s1. and_then (members.find own s1) theirs)
        (find_first_holds P users (λ u. text_eq u.id user_id) s keep_users h)
        (λ u s1 h1.
          and_then_holds P (members.find own s1) theirs (keep_members own s1 h1) (λ ms s2 h2.
            preload_holds P teams (λ x. any (λ m. text_eq m.team_id x.id) ms) (is_nil ms) s2
              keep_teams h2))

  preload_teams :
      (law : Lawful (λ x. x.id) teams) (ms : List TeamUser) (s : S) (l : List Team)
      → (preload teams (λ x. any (λ m. text_eq m.team_id x.id) ms) (is_nil ms) s).1 ≡ ok l
      → l ≡ select (λ x. any (λ m. text_eq m.team_id x.id) ms) (teams.rows s)
  unfolding preload
  preload_teams law [] s [] h = sym (select-no_one (teams.rows s))
  preload_teams law [] s (x ∷ l) h = cc
  preload_teams law (m ∷ ms) s l h =
      law.find_ok (λ x. any (λ n. text_eq n.team_id x.id) (m ∷ ms)) s l h

  -- The teams that are read are those of the user, where reading the users leaves the memberships:
  -- the teams as they are once the users and the memberships were read.
  pub get_teams_by_user_id_ok :
      (members_key : TeamUser → Text) (user_id : Text) (s : S) (l : List Team)
      → Lawful (λ x. x.id) teams
      → Lawful members_key members
      → ((p : User → Bool) (s' : S) → members.rows (users.find p s').0 ≡ members.rows s')
      → (get_teams_by_user_id users teams members user_id s).1 ≡ ok l
      → let s1 = (users.find (λ u. text_eq u.id user_id) s).0 in
        l
        ≡ teams_of user_id
            (members.rows s)
            (teams.rows (members.find (λ m. text_eq m.user_id user_id) s1).0)
  unfolding get_teams_by_user_id
  get_teams_by_user_id_ok members_key user_id s l teams_law members_law apart h =
      let own : TeamUser → Bool = (λ m. text_eq m.user_id user_id) in
      let found = find_first users (λ u. text_eq u.id user_id) s in
      let theirs : List TeamUser → S → S × Answer (List Team) =
        (λ ms. preload teams (λ x. any (λ m. text_eq m.team_id x.id) ms) (is_nil ms)) in
      let (u, e, q, h1) = and_then_ok found (λ u s1. and_then (members.find own s1) theirs) l h in
      let (ms, e', q', h2) = and_then_ok (members.find own found.0) theirs l h1 in
      let state = find_first_state users (λ u. text_eq u.id user_id) s in
      let rows = ap members.rows state ∙ apart (λ u. text_eq u.id user_id) s in
      let own_rows = members_law.find_ok own found.0 ms e' ∙ ap (select own) rows in
      preload_teams teams_law ms (members.find own found.0).0 l h2
      ∙ (ap
            (λ k.
              select (λ x. any (λ m. text_eq m.team_id x.id) k)
                (teams.rows (members.find own found.0).0))
            own_rows
          ∙ ap (λ s1. teams_of user_id (members.rows s) (teams.rows (members.find own s1).0)) state)
