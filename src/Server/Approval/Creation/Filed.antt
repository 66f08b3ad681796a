-- ===== src/Server/Approval/Creation/Filed.antt =====
-- What createApprovalRequestUnchecked of server/internal/app/usecase/approval_usecase.go stores, and
-- for whom.
use to_toggle.Prelude.{
  ◌≡◌, refl, sym, ap, ◌∙◌, subst, ◌⊎◌, inl, inr, Bool, false, Option, none, some, List, [], ◌∷◌,
  ◌++◌, Text, codes, text_eq, Bool-cases,
}
use to_toggle.Server.Db.{
  invalid, Answer, ok, and_then, and_then_ok, rename_error, rename_error_ok, find_first, Table,
}
use to_toggle.Server.Db.Keep.{and_then_holds}
use to_toggle.Server.Keys.{
  SecretKey, CreateSecretKeyResponse, create_secret_key, new_secret_key, validate, set_secret_key,
  insert_key,
}
use to_toggle.Server.Keys.Slots.{create_secret_key-rows}
use to_toggle.Server.User.{User}
use to_toggle.Server.Approval.{ActionType, ApprovalRequest, pending}
use to_toggle.Server.Approval.Workflow.{Stores, Decoder, Named, approval_requested, record_audit}
use to_toggle.Server.Approval.Filing.{TeamTables}
use to_toggle.Server.Teams.{TeamStatements}
use to_toggle.Server.Teams.Reads.{find_first_holds, rename_error_holds}
use to_toggle.Server.Approval.Creation.{
  Proposal, Encoder, Outside, asks_for_key, check_named, make_key, key_for, store_request,
}
use to_toggle.Server.Approval.Creation.Asking.{
  Shelf, shelf, LawfulFiling, record_audit-shelf, if-true, if-false, in_ok,
}

-- The key that a request for a key makes: it waits, under the hash of the text that the caller gets,
-- and the data of the request names it. Other requests make none.
abbrev pub KeyFor :
    {D : Type 0}
    → Outside
    → Encoder D
    → Proposal D
    → Text
    → Text
    → List SecretKey
    → List SecretKey
    → Type 0
KeyFor out enc p bytes plain before after =
    ((asks_for_key p.action_type ≡ false) × (after ≡ before))
    ⊎ ((k : SecretKey) × (after ≡ before ++ (k ∷ []))
        × (k.active ≡ false)
        × (k.key_hash ≡ out.hash plain)
        × (enc.marshal (enc.with_secret_key_id p.action_data k.id) ≡ some bytes))

pub record IsFiled {D : Type 0} (out : Outside) (enc : Encoder D) (p : Proposal D) (before : Shelf)
    (ar : ApprovalRequest) (plain : Text) (after : Shelf) : Type 0 where
  pub requests_are : after.0 ≡ before.0 ++ (ar ∷ [])
  pub status_is : ar.status ≡ pending
  pub asker_is : ar.requested_by ≡ p.requested_by
  pub team_is : ar.team_id ≡ p.team_id
  pub key_is : KeyFor out enc p ar.action_data plain before.1.0 after.1.0

module _ {S : Type 0} (st : Stores S) (json : Decoder) (db : TeamTables S) (more : TeamStatements S)
    (law : LawfulFiling st db) (out : Outside) {D : Type 0} (enc : Encoder D) where
  pub store_request_ok :
      (u : User) (plain : Text) (o : Option Text) (fill : Text → ApprovalRequest) (s : S)
      (ar : ApprovalRequest) (t : Text)
      → (store_request st json db more out enc u plain o fill s).1 ≡ ok (ar, t)
      → (bytes : Text) × (o ≡ some bytes)
        × (ar ≡ fill bytes)
        × (t ≡ plain)
        × (st.requests.rows (store_request st json db more out enc u plain o fill s).0
            ≡ st.requests.rows s ++ (ar ∷ []))
        × (st.keys.rows (store_request st json db more out enc u plain o fill s).0 ≡ st.keys.rows s)
  unfolding store_request
  store_request_ok u plain none fill s ar t h = cc
  store_request_ok u plain (some bytes) fill s ar t h =
      let row = fill bytes in
      let text = codes "Requested: <b>" ++ (row.description ++ codes "</b>") in
      let (done, e, q, k) =
        and_then_ok (st.requests.insert row s)
          (λ done s1. (record_audit st json approval_requested text row u s1, ok (row, plain)))
          (ar, t) h in
      let s1 = (st.requests.insert row s).0 in
      let same = in_ok k in
      let kept =
        ap (λ z. shelf st z.0) q
        ∙ record_audit-shelf st json db more law approval_requested text row u s1 in
      (
        bytes,
        refl,
        sym (ap (λ x. x.0) same),
        sym (ap (λ x. x.1) same),
        ap (λ g. g.0) kept
            ∙ (law.requests_law.insert_ok row s e).0
            ∙ ap (λ r. st.requests.rows s ++ (r ∷ [])) (ap (λ x. x.0) same),
        ap (λ g. g.1.0) kept ∙ law.requests_insert row s,
      )

  create_secret_key-requests :
      (name app by : Text) (s : S)
      → st.requests.rows (create_secret_key st.keys out.hash out.fresh name app by false s).0
        ≡ st.requests.rows s
  unfolding create_secret_key insert_key
  create_secret_key-requests name app by s =
      let P : S → Type 0 = (λ x. st.requests.rows x ≡ st.requests.rows s) in
      let sk = new_secret_key out.fresh.ulid name app by false in
      let set : S → S × Answer CreateSecretKeyResponse = (λ s1.
        and_then (s1, set_secret_key out.hash out.fresh.random_hex sk)
          (λ made s2. insert_key st.keys made s2)) in
      and_then_holds P (s, validate sk) (λ u s1. set s1) refl
        (λ u s1 h1.
          and_then_holds P (s1, set_secret_key out.hash out.fresh.random_hex sk)
            (λ made s2. insert_key st.keys made s2) h1
            (λ made s2 h2.
              and_then_holds P (st.keys.insert made.0 s2)
                (λ d s3. (s3, ok (record { secret_key = made.0; plain_text_key = made.1 })))
                (law.keys_insert made.0 s2 ∙ h2) (λ d s3 h3. h3)))

  -- What the making of a key leaves, if one was made.
  abbrev pub Made : Option CreateSecretKeyResponse → ActionType → S → S → Type 0
  Made made action s s' =
      (st.requests.rows s' ≡ st.requests.rows s)
      × (((made ≡ none) × (asks_for_key action ≡ false) × (st.keys.rows s' ≡ st.keys.rows s))
          ⊎ ((c : CreateSecretKeyResponse) × (made ≡ some c)
              × (st.keys.rows s' ≡ st.keys.rows s ++ (c.secret_key ∷ []))
              × (c.secret_key.active ≡ false)
              × (c.secret_key.key_hash ≡ out.hash c.plain_text_key)))

  make_key_ok :
      (app : Option Text) (by : Text) (s : S) (made : Option CreateSecretKeyResponse)
      (action : ActionType)
      → (make_key st.keys out app by s).1 ≡ ok made
      → Made made action s (make_key st.keys out app by s).0
  unfolding make_key
  make_key_ok none by s made action h = cc
  make_key_ok (some app) by s made action h =
      let name = codes "API Access Key" in
      let x = create_secret_key st.keys out.hash out.fresh name app by false s in
      let fault = invalid "failed to create pending secret key" in
      let (c, e, q, k) = and_then_ok (rename_error fault x) (λ m s1. (s1, ok (some m))) made h in
      let (e', g) = rename_error_ok fault x c e in
      let (rows, added) =
        create_secret_key-rows st.keys law.keys_law out.hash out.fresh name app by false s c e' in
      let here = ap (λ z. z.0) q ∙ g in
      (
        ap st.requests.rows here ∙ create_secret_key-requests name app by s,
        inr (c, sym (in_ok k), ap st.keys.rows here ∙ rows, added.active_is, added.hash_is),
      )

  pub key_for_ok :
      (p : Proposal D) (s : S) (made : Option CreateSecretKeyResponse)
      → (key_for st.keys out p s).1 ≡ ok made
      → Made made p.action_type s (key_for st.keys out p s).0
  unfolding key_for
  key_for_ok p s made h =
      let x = make_key st.keys out p.application_id p.requested_by s in
      elim (Bool-cases (asks_for_key p.action_type)) [
        | inl e ↦
            let q = if-true (asks_for_key p.action_type) x (s, ok none) e in
            subst (λ z. Made made p.action_type s z.0) (sym q)
              (make_key_ok p.application_id p.requested_by s made p.action_type
                (ap (λ z. z.1) (sym q) ∙ h))
        | inr e ↦
            let q = if-false (asks_for_key p.action_type) x (s, ok none) e in
            subst (λ z. Made made p.action_type s z.0) (sym q)
              (refl, inl (sym (in_ok (ap (λ z. z.1) (sym q) ∙ h)), e, refl))
      ]

  pub check_named-shelf :
      (t : Table S Named)
      → ((p : Named → Bool) (s : S) → shelf st (t.find p s).0 ≡ shelf st s)
      → (id : Option Text) (s : S) → shelf st (check_named t id s).0 ≡ shelf st s
  unfolding check_named
  check_named-shelf t keep none s = refl
  check_named-shelf t keep (some id) s =
      let P : S → Type 0 = (λ x. shelf st x ≡ shelf st s) in
      let p : Named → Bool = (λ n. text_eq n.id id) in
      and_then_holds P (rename_error (invalid "not found") (find_first t p s))
        (λ n s1. (s1, ok (some n)))
        (rename_error_holds P (invalid "not found") (find_first t p s)
          (find_first_holds P t p s (λ q x h. keep q x ∙ h) refl))
        (λ n s1 h. h)
