-- ===== src/Server/Approval/ExecutionTests.antt =====
-- The execution of approved requests on small databases.
use to_toggle.Prelude.{◌≡◌, refl, ◌⊎◌, true, false, none, some, List, [], ◌∷◌, codes, In, text_eq}
use to_toggle.Sdk.Samples.{hundredths_of_one}
use to_toggle.Server.Db.{Fault, ok, err, Answer, put_row, Table, find_first, not_approved, denied}
use to_toggle.Server.Db.Memory.{memory, memory-Lawful}
use to_toggle.Server.Rules.{Json}
use to_toggle.Server.Rules.Ephemeral.{Unicode}
use to_toggle.Server.Toggles.{Toggle, ActivationRule, new_toggle}
use to_toggle.Server.Toggles.Changes.{clear_activation_rule}
use to_toggle.Server.Approval.{approve, can_be_approved_by, ApprovalRequest, toggle_enable}
use to_toggle.Server.Approval.Workflow.{as_read, approve_request}
use to_toggle.Server.Approval.Runs.{Call, approves, run_calls}
use to_toggle.Server.Approval.Sample.{World, stores, stores-LawfulStores}
use to_toggle.Server.Approval.Execution.{Reader, execute_toggle_update, execute_if_approved}
use to_toggle.Server.Approval.Executed.{Runnable, execute_if_approved-Runnable}
use to_toggle.Server.Approval.Enabling.{execute_toggle_update-clear}
use to_toggle.Server.Approval.Tests.{person, asked, times, json, world, still_open-FourEyes}

-- An action that leaves its mark on the applications.
abbrev mark : ApprovalRequest → World → World × Answer Unit
mark ar d = (record d { applications = record { id = ar.id; label = codes "run" } ∷ [] }, ok tt)

abbrev approval : List Call
approval = approves times (5 ∷ []) (person 2) ∷ []

execute_if_approved-Runnable_example :
    let now = run_calls stores json approval world in
    ((r : ApprovalRequest) × (d : World) × Runnable stores now (5 ∷ []) (person 2) r
      × (execute_if_approved stores json mark (5 ∷ []) (person 2) now ≡ mark (as_read r) d))
    ⊎ ((e : Fault) × ((execute_if_approved stores json mark (5 ∷ []) (person 2) now).1 ≡ err e)
        × ((execute_if_approved stores json mark (5 ∷ []) (person 2) now).0.requests
            ≡ now.requests))
execute_if_approved-Runnable_example =
    execute_if_approved-Runnable stores json stores-LawfulStores mark (5 ∷ []) (person 2) approval
      world (still_open-FourEyes 5 (1 ∷ []), (still_open-FourEyes 6 (2 ∷ []), tt))

approved_is_run :
    (execute_if_approved stores json mark
      (5 ∷ [])
      (person 2)
      (run_calls stores json approval world)).1
    ≡ ok tt
unfolding execute_if_approved find_first run_calls approve_request text_eq can_be_approved_by
    approve
approved_is_run = refl

pending_is_not_run :
    (execute_if_approved stores json mark (6 ∷ []) (person 2) world).1 ≡ err not_approved
unfolding execute_if_approved find_first text_eq
pending_is_not_run = refl

member_may_not_run :
    (execute_if_approved stores json mark
      (5 ∷ [])
      (person 1)
      (run_calls stores json approval world)).1
    ≡ err denied
unfolding execute_if_approved find_first run_calls approve_request text_eq can_be_approved_by
    approve
member_may_not_run = refl

-- A body that only turns the toggle on.
abbrev turn_on : Reader
turn_on bytes = some (record {
  toggle = [];
  enabled = true;
  has_activation_rule = false;
  activation_rule = none;
  toggle_ids = [];
  secret_key_id = [];
})

abbrev by_country : ActivationRule
by_country = record { kind = codes "country"; value = codes "BR"; config = codes "country" }

abbrev pay : Toggle
pay = record (new_toggle (1 ∷ []) (codes "pay") false (codes "pay") 0 none (codes "app")) {
  has_activation_rule = true;
  activation_rule = some by_country;
}

abbrev card : Toggle
card = new_toggle (2 ∷ []) (codes "card") false (codes "pay.card") 1 (some (1 ∷ [])) (codes "app")

abbrev rows : Table (List Toggle) Toggle
rows = memory (λ x. x.id)

abbrev plain : Json
plain = record { object = λ c. none; string = λ v. none }

abbrev no_letters : Unicode
no_letters = record { is_alphanumeric = λ c. false; to_lower = λ s. s }

abbrev enable_pay : ApprovalRequest
enable_pay = record (asked 5 (1 ∷ [])) { action_type = toggle_enable; toggle_id = some (1 ∷ []) }

-- The rule is gone, and the toggle below is still off.
enabling_loses_the_rule :
    execute_toggle_update turn_on rows hundredths_of_one plain no_letters enable_pay
      (pay ∷ card ∷ [])
    ≡ (
      record pay { enabled = true; has_activation_rule = false; activation_rule = none }
          ∷ card
          ∷ [],
      ok tt,
    )
unfolding execute_toggle_update find_first text_eq
enabling_loses_the_rule = refl

execute_toggle_update-clear_example :
    (x : Toggle) × In x (pay ∷ card ∷ [])
    × (x.id ≡ 1 ∷ [])
    × (x.app_id ≡ codes "app")
    × ((execute_toggle_update turn_on rows hundredths_of_one plain no_letters enable_pay
          (pay ∷ card ∷ [])).0
        ≡ put_row
            (λ z. z.id)
            (clear_activation_rule (record x { enabled = true }))
            (pay ∷ card ∷ []))
unfolding execute_toggle_update find_first text_eq
execute_toggle_update-clear_example =
    execute_toggle_update-clear rows (memory-Lawful (λ x. x.id)) hundredths_of_one plain no_letters
      turn_on enable_pay
      (record {
        toggle = [];
        enabled = true;
        has_activation_rule = false;
        activation_rule = none;
        toggle_ids = [];
        secret_key_id = [];
      })
      (1 ∷ []) (codes "app") (pay ∷ card ∷ []) refl refl refl refl refl
