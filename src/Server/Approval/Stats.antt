-- ===== src/Server/Approval/Stats.antt =====
-- Whose requests GetApprovalStats counts.
use to_toggle.Prelude.{
  ◌≡◌, refl, sym, ap, ℕ, if◌then◌else◌, ◌∙◌, inl, inr, Bool, true, false, ◌||◌, Option, none, some,
  List, [], ◌∷◌, ◌++◌, Text, text_eq, map, any, is_nil, select, length, Bool-cases,
}
use to_toggle.Server.Db.{Answer, ok, and_then, and_then_ok, Table, Lawful}
use to_toggle.Server.User.{User, Team, TeamUser, is_root, get_teams_by_user_id, visible_team_ids}
use to_toggle.Server.Approval.{ApprovalRequest, ApprovalStatus}
use to_toggle.Server.Approval.Workflow.{
  Stores, Decoder, same_status, as_list, get_request_stats, get_approval_stats,
}
use to_toggle.Server.Approval.Creation.Asking.{if-true, if-false, in_ok}
use to_toggle.Server.Teams.Reads.{Keeps}
use to_toggle.Server.Teams.Membership.{
  teams_of, get_teams_by_user_id_holds, get_teams_by_user_id_ok,
}

-- Whether the statistics of a user who has these teams count a request: those of root and those of
-- a user without a team count every request, and others those of the teams.
abbrev pub is_counted : User → List Team → ApprovalRequest → Bool
is_counted u ts ar = is_root u || (is_nil ts || any (λ x. text_eq ar.team_id x.id) ts)

abbrev pub how_many : ApprovalStatus → List ApprovalRequest → ℕ
how_many status ars = length (select (λ ar. same_status ar.status status) ars)

-- The rows that the statistics depend on.
abbrev pub Counted : Type 0
Counted = List ApprovalRequest × (List TeamUser × List Team)

abbrev pub counted_rows : {S : Type 0} → Stores S → Table S Team → S → Counted
counted_rows st teams s = (st.requests.rows s, (st.members.rows s, teams.rows s))

-- Reading the users, the teams and the memberships changes none of these rows.
pub record LawfulStats {S : Type 0} (st : Stores S) (users : Table S User) (teams : Table S Team)
    : Type 0 where
  pub users_find :
      (p : User → Bool) (s : S) → counted_rows st teams (users.find p s).0 ≡ counted_rows st teams s
  pub teams_find :
      (p : Team → Bool) (s : S) → counted_rows st teams (teams.find p s).0 ≡ counted_rows st teams s
  pub members_find :
      (p : TeamUser → Bool) (s : S)
      → counted_rows st teams (st.members.find p s).0 ≡ counted_rows st teams s
  pub teams_law : Lawful (λ x. x.id) teams
  pub members_law : Lawful (λ m. m.team_id ++ m.user_id) st.members
  pub requests_law : Lawful (λ ar. ar.id) st.requests

any-map : (f : Text → Bool) (ts : List Team) → any f (map (λ x. x.id) ts) ≡ any (λ x. f x.id) ts
any-map f [] = refl
any-map f (x ∷ ts) = ap (λ b. f x.id || b) (any-map f ts)

is_nil-map : (ts : List Team) → is_nil (map (λ x. x.id) ts) ≡ is_nil ts
is_nil-map [] = refl
is_nil-map (x ∷ ts) = refl

select-same :
    (p q : ApprovalRequest → Bool)
    → ((ar : ApprovalRequest) → p ar ≡ q ar)
    → (ars : List ApprovalRequest) → select p ars ≡ select q ars
select-same p q e [] = refl
select-same p q e (x ∷ xs) = rw (e x, select-same p q e xs) refl

module _ {S : Type 0} (st : Stores S) (json : Decoder) (users : Table S User) (teams : Table S Team)
    (law : LawfulStats st users teams) where
  get_request_stats_ok :
      (team_ids : Option (List Text)) (s : S) (stats : ApprovalStatus → ℕ) (status : ApprovalStatus)
      → (get_request_stats st json team_ids s).1 ≡ ok stats
      → let ids = as_list team_ids in
        stats status
        ≡ how_many status
            (select (λ ar. is_nil ids || any (λ i. text_eq ar.team_id i) ids) (st.requests.rows s))
  unfolding get_request_stats
  get_request_stats_ok team_ids s stats status h =
      let ids = as_list team_ids in
      let p : ApprovalRequest → Bool = (λ ar. is_nil ids || any (λ i. text_eq ar.team_id i) ids) in
      let (ars, e, q, k) =
        and_then_ok (st.requests.find p s)
          (λ ars s'. (s', ok (λ x. length (select (λ ar. same_status ar.status x) ars)))) stats h in
      ap (λ f. f status) (sym (in_ok k)) ∙ ap (how_many status) (law.requests_law.find_ok p s ars e)

  stats_of_teams :
      (u : User) (s : S) (ts : List Team) (stats : ApprovalStatus → ℕ) (status : ApprovalStatus)
      → is_root u ≡ false
      → (get_request_stats st json (some (map (λ x. x.id) ts)) s).1 ≡ ok stats
      → stats status ≡ how_many status (select (is_counted u ts) (st.requests.rows s))
  stats_of_teams u s ts stats status r h =
      let ids = map (λ x. x.id) ts in
      get_request_stats_ok (some ids) s stats status h
      ∙ ap (how_many status) (
          select-same (λ ar. is_nil ids || any (λ i. text_eq ar.team_id i) ids) (is_counted u ts)
            (λ ar. rw (r, is_nil-map ts, any-map (λ i. text_eq ar.team_id i) ts) refl)
            (st.requests.rows s))

  stats_of_root :
      (u : User) (s : S) (ts : List Team) (stats : ApprovalStatus → ℕ) (status : ApprovalStatus)
      → is_root u ≡ true
      → (get_request_stats st json none s).1 ≡ ok stats
      → stats status ≡ how_many status (select (is_counted u ts) (st.requests.rows s))
  stats_of_root u s ts stats status r h =
      get_request_stats_ok none s stats status h
      ∙ ap (how_many status)
          (select-same (λ ar. true) (is_counted u ts) (λ ar. rw r refl) (st.requests.rows s))

  -- GetApprovalStats, when it succeeds, counts under each status the requests of the table that the
  -- user's teams have, but every request for root, and every request too for a user who is in no
  -- team. The tables are lawful, and reading the users, the teams and the memberships changes no
  -- row of these.
  pub get_approval_stats_counts :
      (u : User) (s : S) (stats : ApprovalStatus → ℕ) (status : ApprovalStatus)
      → (get_approval_stats st json users teams u s).1 ≡ ok stats
      → let ts = teams_of u.id (st.members.rows s) (teams.rows s) in
        stats status ≡ how_many status (select (is_counted u ts) (st.requests.rows s))
  unfolding get_approval_stats visible_team_ids
  get_approval_stats_counts u s stats status h =
      let theirs = get_teams_by_user_id users teams st.members u.id s in
      let named : List Team → S → S × Answer (Option (List Text) × Bool) =
        (λ ts s'. (s', ok (some (map (λ x. x.id) ts), false))) in
      let count : Option (List Text) × Bool → S → S × Answer (ApprovalStatus → ℕ) =
        (λ (ids, unrestricted) s'.
          if unrestricted
          then get_request_stats st json none s'
          else get_request_stats st json ids s') in
      let rows = teams_of u.id (st.members.rows s) (teams.rows s) in
      elim (Bool-cases (is_root u)) [
        | inl r ↦
            let out = if-true (is_root u) (s, ok (none, true)) (and_then theirs named) r in
            stats_of_root u s rows stats status r (ap (λ x. (and_then x count).1) (sym out) ∙ h)
        | inr r ↦
            let out = if-false (is_root u) (s, ok (none, true)) (and_then theirs named) r in
            let (v, e, q, h1) =
              and_then_ok (and_then theirs named) count stats
                (ap (λ x. (and_then x count).1) (sym out) ∙ h) in
            let (ts, e', q', h2) = and_then_ok theirs named v e in
            let P : S → Type 0 = (λ y. counted_rows st teams y ≡ counted_rows st teams s) in
            let keep_users : Keeps P users = (λ p y i. law.users_find p y ∙ i) in
            let keep_teams : Keeps P teams = (λ p y i. law.teams_find p y ∙ i) in
            let keep_members : Keeps P st.members = (λ p y i. law.members_find p y ∙ i) in
            let kept =
              get_teams_by_user_id_holds users teams st.members P u.id s keep_users keep_teams
                keep_members refl in
            let own =
              get_teams_by_user_id_ok users teams st.members (λ m. m.team_id ++ m.user_id) u.id s ts
                law.teams_law law.members_law (λ p y. ap (λ g. g.1.0) (law.users_find p y)) e' in
            let found = users.find (λ x. text_eq x.id u.id) s in
            let same =
              law.members_find (λ m. text_eq m.user_id u.id) found.0
              ∙ law.users_find (λ x. text_eq x.id u.id) s in
            let ts_is : ts ≡ rows =
              (own ∙ ap (λ g. teams_of u.id (st.members.rows s) g.1.1) same) in
            let answer =
              ap (λ w. (count w theirs.0).1) (in_ok h2)
              ∙ ap (λ y. (count v y).1) (sym (ap (λ z. z.0) q'))
              ∙ h1 in
            stats_of_teams u theirs.0 ts stats status r answer
            ∙ ap (λ l. how_many status (select (is_counted u l) (st.requests.rows theirs.0))) ts_is
            ∙ ap (λ g. how_many status (select (is_counted u rows) g.0)) kept
      ]
