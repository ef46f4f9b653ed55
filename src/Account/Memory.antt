-- ===== src/Account/Memory.antt =====
-- Accounts in memory, at which the theorems are applied: a list of rows, of which the first counts.
use pine_vid_backend.Prelude.{
  String, Bool, ◌≡◌, arith, eq_iff, str_eq, List, [], ◌∷◌, ◌++◌, if◌then◌else◌, sym, ap,
}
use pine_vid_backend.Effects.{Error, Result, ok, err, user_not_found, invalid_credentials}
use pine_vid_backend.Entity.User.{User}
use pine_vid_backend.Account.{UserRepo, UseCase}
use pine_vid_backend.Account.Access.{IsAccounts, stored_row}
use pine_vid_backend.Account.Ban.{IsUserStore, written}

abbrev pub Rows : Type 0
Rows = List User

unfoldable pub find : (User → Bool) → Rows → Result User
find test [] = err user_not_found
find test (v ∷ rows) = let rest = find test rows in if test v then ok v else rest

abbrev pub find_id : String → Rows → Result User
find_id id = find (λ v. str_eq v.id id)

abbrev pub find_email : String → Rows → Result User
find_email email = find (λ v. str_eq v.email email)

unfoldable pub update_rows : User → Rows → Rows
update_rows v [] = []
update_rows v (old ∷ rows) =
    (if str_eq old.id v.id then written old v else old) ∷ update_rows v rows

abbrev pub memory : UserRepo Rows
memory = record {
  store = λ v rows. (ok tt, rows ++ stored_row v ∷ []);
  get_by_id = find_id;
  get_by_email = find_email;
  get_by_username = λ name. find (λ v. str_eq v.username name);
  update = λ v rows. (ok tt, update_rows v rows);
}

-- A hash that shows the password, and a token that shows the user.
abbrev pub use_case : UseCase Rows
use_case = record {
  repo = memory;
  bcrypt = record {
    generate_from_password = λ password w. ok password;
    compare_hash_and_password =
        λ hash password. if str_eq hash password then ok tt else err invalid_credentials;
  };
  jwt = record { generate_token = λ user now. ok user; parse_token = λ token now. ok token };
}

find-id : (id : String) (rows : Rows) (v : User) → find_id id rows ≡ ok v → v.id ≡ id
unfolding find
find-id id [] v found = cc
find-id id (x ∷ rows) v found = ground (arith, eq_iff x.id id, find-id id rows v)

find-update :
    (id : String) (v old : User) (rows : Rows)
    → v.id ≡ id
    → find_id id rows ≡ ok old
    → find_id id (update_rows v rows) ≡ ok (written old v)
unfolding find update_rows
find-update id v old [] same found = cc
find-update id v old (x ∷ rows) same found =
    ground (arith, eq_iff x.id id, eq_iff x.id v.id, find-update id v old rows same)

find-store :
    (v : User) (rows : Rows) (e : Error)
    → find_email v.email rows ≡ err e
    → find_email v.email (rows ++ stored_row v ∷ []) ≡ ok (stored_row v)
unfolding find
find-store v [] e missing = ground (arith, eq_iff v.email v.email)
find-store v (x ∷ rows) e missing = ground (arith, find-store v rows e)

pub memory-IsUserStore : IsUserStore memory
memory-IsUserStore = record {
  get_id = λ id w v found. find-id id w v found;
  get-update = λ id v old w w' same found stored.
      rw (ap (λ (p : Result Unit × Rows). p.1) (sym stored)) (find-update id v old w same found);
}

pub use_case-IsAccounts : IsAccounts use_case
use_case-IsAccounts = record {
  compare-generate = λ password hash w made. ground (arith, eq_iff hash password);
  get_email-store = λ v w w' e free stored.
      rw (ap (λ (p : Result Unit × Rows). p.1) (sym stored)) (find-store v w e free);
}
