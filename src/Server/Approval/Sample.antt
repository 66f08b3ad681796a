-- ===== src/Server/Approval/Sample.antt =====
-- A small database in memory under the approval workflow.
use to_toggle.Prelude.{◌≡◌, refl, ◌∙◌, subst, Bool, true, not, List, Text, select, In}
use to_toggle.Server.Db.{ok, Table, Lawful, put_row, remove_row, update_rows}
use to_toggle.Server.Db.Memory.{memory, memory-Lawful}
use to_toggle.Server.Db.Rows.{In-select}
use to_toggle.Server.Keys.{SecretKey}
use to_toggle.Server.User.{TeamUser}
use to_toggle.Server.Approval.{ApprovalRequest}
use to_toggle.Server.Approval.Workflow.{Stores, AuditLog, Named}
use to_toggle.Server.Approval.Reading.{LawfulStores}

pub record World : Type 0 where
  pub requests : List ApprovalRequest
  pub members : List TeamUser
  pub keys : List SecretKey
  pub audit : List AuditLog
  pub toggles : List Named
  pub applications : List Named

-- The statements of one table in memory, on its part of a larger state.
abbrev pub part : {D R : Type 0} → (R → Text) → (D → List R) → (List R → D → D) → Table D R
part key get put = record {
  rows = get;
  find = λ p d. (d, ((memory key).find p (get d)).1);
  insert = λ r d. (put ((memory key).insert r (get d)).0 d, ((memory key).insert r (get d)).1);
  save = λ r d. (put (put_row key r (get d)) d, ok tt);
  delete = λ k d. (put (remove_row key k (get d)) d, ok tt);
  update = λ p f d. (put (update_rows key p f (get d)) d, ok tt);
  delete_where = λ p d. (put (select (λ x. not (p x)) (get d)) d, ok tt);
}

pub part-Lawful :
    {D R : Type 0} (key : R → Text) (get : D → List R) (put : List R → D → D)
    → ((l : List R) (d : D) → get (put l d) ≡ l)
    → Lawful key (part key get put)
part-Lawful key get put back = record {
  find_ok = λ p d l e. (memory-Lawful key).find_ok p (get d) l e;
  find_keeps = λ p d. refl;
  insert_ok = λ r d h. let (a, b) = (memory-Lawful key).insert_ok r (get d) h in (back _ d ∙ a, b);
  insert_err = λ r d e h. back _ d ∙ (memory-Lawful key).insert_err r (get d) e h;
  save_ok = λ r d h. back _ d;
  save_err = λ r d e h. cc;
  delete_ok = λ k d h. back _ d;
  delete_err = λ k d e h. cc;
  update_ok = λ p f d h. back _ d;
  update_err = λ p f d e h. cc;
  delete_where_ok = λ p d h. back _ d;
  delete_where_err = λ p d e h. cc;
}

abbrev pub stores : Stores World
stores = record {
  requests = part (λ r. r.id) (λ d. d.requests) (λ l d. record d { requests = l });
  members = part (λ m. m.user_id) (λ d. d.members) (λ l d. record d { members = l });
  keys = part (λ k. k.id) (λ d. d.keys) (λ l d. record d { keys = l });
  audit = part (λ a. a.text) (λ d. d.audit) (λ l d. record d { audit = l });
  toggles = part (λ n. n.id) (λ d. d.toggles) (λ l d. record d { toggles = l });
  applications = part (λ n. n.id) (λ d. d.applications) (λ l d. record d { applications = l });
}

list_of-≡ : {R : Type 0} (l xs : List R) → ok xs ≡ ok l → l ≡ xs
list_of-≡ l xs e = cc

found-In :
    {R : Type 0} (p : R → Bool) (xs l : List R) (x : R)
    → ok (select p xs) ≡ ok l
    → In x l
    → In x xs × (p x ≡ true)
found-In p xs l x e m = (In-select p xs x).0 (subst (In x) (list_of-≡ l (select p xs) e) m)

pub stores-LawfulStores : LawfulStores stores
stores-LawfulStores = record {
  requests_law =
      part-Lawful (λ r. r.id) (λ d. d.requests) (λ l d. record d { requests = l }) (λ l d. refl);
  members_find_ok = λ p s l e m i. found-In p s.members l m e i;
  members_find = λ p s. refl;
  requests_find = λ p s. refl;
  audit_insert = λ r s. refl;
  toggles_find = λ p s. refl;
  applications_find = λ p s. refl;
  keys_delete = λ k s. refl;
}
