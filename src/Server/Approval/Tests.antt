-- ===== src/Server/Approval/Tests.antt =====
-- The theorems on the approval workflow at concrete inputs.
use to_toggle.Prelude.{
  ◌≡◌, refl, ℕ, ◌⊎◌, inl, inr, true, false, none, some, List, [], ◌∷◌, Text, codes, In, All,
  text_eq,
}
use to_toggle.Server.Db.{find_first, Fault, ok, err, put_row}
use to_toggle.Server.User.{User, root, admin}
use to_toggle.Server.Approval.{
  can_be_approved_by, toggle_delete, pending, ApprovalRequest, Times, is_expired, approve,
}
use to_toggle.Server.Approval.Workflow.{Decoder, approve_request}
use to_toggle.Server.Approval.Decisions.{IsAllowed}
use to_toggle.Server.Approval.Outcomes.{approved_row, approve_request-cases}
use to_toggle.Server.Approval.Runs.{
  Call, approves, rejects, withdraws, expires, FourEyes, run_calls, run_calls-FourEyes,
  run_calls_keep_history,
}
use to_toggle.Server.Approval.Sample.{World, stores, stores-LawfulStores}

abbrev pub person : ℕ → User
person n = record {
  id = n ∷ [];
  name = codes "Ana";
  username = codes "ana";
  password = [];
  role = admin;
  must_change_password = false;
  active = true;
}

abbrev boss : User
boss = record {
  id = codes "root";
  name = codes "Root";
  username = codes "root";
  password = [];
  role = root;
  must_change_password = false;
  active = true;
}

abbrev pub asked : ℕ → Text → ApprovalRequest
asked n by = record {
  id = n ∷ [];
  action_type = toggle_delete;
  description = codes "Delete toggle";
  requested_by = by;
  team_id = codes "team";
  application_id = some (codes "app");
  toggle_id = some (codes "t");
  status = pending;
  action_data = codes "{}";
  actioned_by = none;
  actioned_at = none;
  rejection_reason = none;
  expires_at = 700;
  requester_name = some (codes "ana");
  team_name = some (codes "Team");
  application_name = some (codes "App");
}

abbrev pub times : Times
times = record { asked = 100; checked = 101; stamped = 102 }

abbrev pub json : Decoder
json = record { secret_key_id = λ d. none; toggle = λ d. []; name = λ d. [] }

-- The second person approves for the team of both.
abbrev pub world : World
world = record {
  requests = asked 5 (1 ∷ []) ∷ asked 6 (2 ∷ []) ∷ [];
  members =
      record { team_id = codes "team"; user_id = 1 ∷ []; is_approver = false }
      ∷ record { team_id = codes "team"; user_id = 2 ∷ []; is_approver = true }
      ∷ [];
  keys = [];
  audit = [];
  toggles = record { id = codes "t"; label = codes "a.b" } ∷ [];
  applications = [];
}

approves-another : (approve_request stores json times (5 ∷ []) (person 2) world).1 ≡ ok tt
unfolding approve_request find_first text_eq can_be_approved_by approve
approves-another = refl

refuses-own : (approve_request stores json times (6 ∷ []) (person 2) world).1 ≡ err Fault.denied
unfolding approve_request find_first text_eq can_be_approved_by
refuses-own = refl

approve_request-cases_example :
    let x = approve_request stores json times (5 ∷ []) (person 2) world in
    ((r0 : ApprovalRequest) × (x.1 ≡ ok tt)
      × IsAllowed stores times
          (5 ∷ [])
          (person 2)
          (approve times (2 ∷ []))
          world
          r0
          (approved_row times (person 2) r0)
      × (is_expired times.checked r0 ≡ false)
      × (x.0.requests ≡ put_row (λ ar. ar.id) (approved_row times (person 2) r0) world.requests))
    ⊎ ((e : Fault) × (x.1 ≡ err e) × (x.0.requests ≡ world.requests))
approve_request-cases_example =
    approve_request-cases stores json stores-LawfulStores times (5 ∷ []) (person 2) world

abbrev calls : List Call
calls =
    approves times (5 ∷ []) (person 2)
    ∷ rejects times (6 ∷ []) boss (codes "no")
    ∷ withdraws (5 ∷ []) (person 1)
    ∷ expires 900
    ∷ []

pub still_open-FourEyes : (n : ℕ) (by : Text) → FourEyes (asked n by)
still_open-FourEyes n by = record { decided_by = λ h. elim h [ inl q ↦ cc | inr q ↦ cc ] }

run_calls-FourEyes_example : All FourEyes (run_calls stores json calls world).requests
run_calls-FourEyes_example =
    run_calls-FourEyes stores json stores-LawfulStores calls world
      (still_open-FourEyes 5 (1 ∷ []), (still_open-FourEyes 6 (2 ∷ []), tt))

-- The first request is decided, the second waits.
abbrev decided_world : World
decided_world = record world {
  requests = approved_row times (person 2) (asked 5 (1 ∷ [])) ∷ asked 6 (2 ∷ []) ∷ [];
}

run_calls_keep_history_example :
    In
      (approved_row times (person 2) (asked 5 (1 ∷ [])))
      (run_calls stores json calls decided_world).requests
run_calls_keep_history_example =
    run_calls_keep_history stores json stores-LawfulStores calls decided_world
      (approved_row times (person 2) (asked 5 (1 ∷ []))) (((λ e. cc), tt), (tt, tt)) (inl refl) refl

-- A configuration as a list of eleven bits.
