-- ===== src/Server/Db/Memory.antt =====
-- A table in memory whose statements do not fail, but for an insertion of a key that is there.
use to_toggle.Prelude.{
  ◌≡◌, refl, false, not, List, [], ◌∷◌, ◌++◌, Text, text_eq, text_eq_iff, select, any, arith,
  if◌then◌else◌,
}
use to_toggle.Server.Db.{database, ok, err, Table, Lawful, put_row, remove_row, update_rows, Fresh}

abbrev pub memory : {R : Type 0} → (R → Text) → Table (List R) R
memory key = record {
  rows = λ s. s;
  find = λ p s. (s, ok (select p s));
  insert = λ r s.
      if any (λ x. text_eq (key x) (key r)) s then (s, err database) else (s ++ (r ∷ []), ok tt);
  save = λ r s. (put_row key r s, ok tt);
  delete = λ k s. (remove_row key k s, ok tt);
  update = λ p f s. (update_rows key p f s, ok tt);
  delete_where = λ p s. (select (λ x. not (p x)) s, ok tt);
}

any-Fresh :
    {R : Type 0} (key : R → Text) (k : Text) (s : List R)
    → any (λ x. text_eq (key x) k) s ≡ false
    → Fresh key k s
any-Fresh key k [] h = tt
any-Fresh key k (x ∷ xs) h = (
  (λ e. let q = (text_eq_iff (key x) k).1 e in ground (arith, h, q)),
  any-Fresh key k xs (ground (arith, h)),
)

memory-insert :
    {R : Type 0} (key : R → Text) (r : R) (s : List R)
    → ((memory key).insert r s).1 ≡ ok tt
    → (((memory key).insert r s).0 ≡ s ++ (r ∷ [])) × (any (λ x. text_eq (key x) (key r)) s ≡ false)
memory-insert key r s h = ground (arith, h)

pub memory-Lawful : {R : Type 0} (key : R → Text) → Lawful key (memory key)
memory-Lawful key = record {
  find_ok = λ p s l e. cc;
  find_keeps = λ p s. refl;
  insert_ok = λ r s h. let (a, b) = memory-insert key r s h in (a, any-Fresh key (key r) s b);
  insert_err = λ r s e h. ground (arith, h);
  save_ok = λ r s h. refl;
  save_err = λ r s e h. cc;
  delete_ok = λ k s h. refl;
  delete_err = λ k s e h. cc;
  update_ok = λ p f s h. refl;
  update_err = λ p f s e h. cc;
  delete_where_ok = λ p s h. refl;
  delete_where_err = λ p s e h. cc;
}
