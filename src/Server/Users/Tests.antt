-- ===== src/Server/Users/Tests.antt =====
-- The management of users on a small database.
use to_toggle.Prelude.{◌≡◌, refl, true, false, some, none, List, [], ◌∷◌, Text, codes, text_eq, len}
use to_toggle.Server.Db.{err, invalid, Table, find_first}
use to_toggle.Server.Approval.Sample.{part}
use to_toggle.Server.User.{User, TeamUser, admin}
use to_toggle.Server.Auth.{auth, Session, Bcrypt, set_password}
use to_toggle.Server.Users.{
  UserApplication, change_password_of, generate_random_password, create_user,
}

record Disk : Type 0 where
  sessions : List Session
  users : List User
  members : List TeamUser
  owners : List UserApplication

abbrev sessions : Table Disk Session
sessions = part (λ x. x.id) (λ d. d.sessions) (λ l d. record d { sessions = l })

abbrev users : Table Disk User
users = part (λ u. u.id) (λ d. d.users) (λ l d. record d { users = l })

abbrev members : Table Disk TeamUser
members = part (λ m. m.user_id) (λ d. d.members) (λ l d. record d { members = l })

abbrev owners : Table Disk UserApplication
owners = part (λ o. o.user_id) (λ d. d.owners) (λ l d. record d { owners = l })

abbrev hash : Text → Text
hash t = 0 ∷ t

abbrev bcrypt : Bcrypt
bcrypt = record { compare_hash = λ h p. text_eq h (hash p) }

abbrev named : Text → Text → User
named id name = record {
  id = id;
  name = name;
  username = name;
  password = hash (codes "secret");
  role = admin;
  must_change_password = false;
  active = true;
}

abbrev session_of : Text → Text → Session
session_of id user_id = record {
  id = id;
  token_hash = hash id;
  user_id = user_id;
  purpose = auth;
  expires_at = 9000;
}

abbrev disk : Disk
disk = record {
  sessions = session_of (codes "s1") (codes "u1") ∷ session_of (codes "s2") (codes "u2") ∷ [];
  users = named (codes "u1") (codes "ana") ∷ named (codes "u2") (codes "bob") ∷ [];
  members = [];
  owners = [];
}

abbrev after_deletion : Disk
after_deletion = record disk {
  sessions = session_of (codes "s2") (codes "u2") ∷ [];
  users = named (codes "u2") (codes "bob") ∷ [];
}

charset_is_read : generate_random_password (some 0 ∷ some 69 ∷ []) ≡ some (codes "a*")
unfolding generate_random_password
charset_is_read = refl

no_password_without_randomness : generate_random_password (some 0 ∷ none ∷ []) ≡ none
unfolding generate_random_password
no_password_without_randomness = refl

taken_name_refused :
    create_user users (named (codes "u3") (codes "bob")) disk
    ≡ (disk, err (invalid "username already exists"))
unfolding create_user find_first text_eq
taken_name_refused = refl

change_ends_one_session :
    (change_password_of users sessions bcrypt
      (some (hash (codes "better")))
      (codes "u1")
      (codes "secret")
      (codes "better")
      disk).0.sessions
    ≡ session_of (codes "s2") (codes "u2") ∷ []
unfolding change_password_of find_first text_eq set_password len
change_ends_one_session = refl
