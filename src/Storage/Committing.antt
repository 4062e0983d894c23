-- ===== src/Storage/Committing.antt =====
-- `_commit` and `_connection_main_path` of SqlAlchemyUnitOfWork,
-- src/butterbot/infrastructure/persistence/unit_of_work.py: the identity of the database is checked
-- before the commit and confirmed after it.
use butterbot.Base.{
  Bool, true, false, not, String, Option, none, some, List, [], ◌∷◌, ◌≡◌, refl, select, str_eq,
  arith, if◌then◌else◌,
}
use butterbot.Checked.{Checked, refused, passed, then-any, ◌then◌, AllPassed, passed-then}
use butterbot.Storage.{FileStat, ValidatedDatabaseStorage}
use butterbot.Storage.Identity.{
  IdentityAnswers, verify_path, verify_connection_path, IsUnchanged, verified,
}

-- A row of PRAGMA database_list: the schema's name, and what its file resolves to.
pub record DatabaseRow : Type 0 where
  pub schema : String
  pub file : Option (List String × FileStat)

-- What SQLite and the file system answer at one of the two checks.
pub record CheckAnswers : Type 0 where
  pub rows : List DatabaseRow
  pub identity : IdentityAnswers

unfoldable pub the_only : List DatabaseRow → Checked (Option (List String × FileStat))
the_only [] = refused "runtime_error"
the_only (row ∷ []) = passed row.file
the_only (a ∷ b ∷ rest) = refused "runtime_error"

-- `_connection_main_path`
unfoldable pub connection_main_path : List DatabaseRow → Checked (Option (List String × FileStat))
connection_main_path rows = the_only (select (λ r. str_eq r.schema "main") rows)

unfoldable pub check_identity : ValidatedDatabaseStorage → CheckAnswers → Checked (Unit {0})
check_identity storage answers = connection_main_path answers.rows then λ file.
    verify_connection_path storage answers.identity file

-- How the confirmation after the commit ends: its checks, or an interruption that is no mismatch.
pub data Confirmation : Type 0 where
  answers_with : CheckAnswers → Confirmation
  interrupted : Confirmation

pub record CommitEnd : Type 0 where
  pub committed : Bool
  pub raised : Option String
  -- The category with which the guard was marked unsafe after the commit.
  pub marked : Option String

-- The category of the failure after a commit: a mismatch is told from any other.
abbrev pub category_of : String → String
category_of category =
    if str_eq category "database_identity_mismatch"
    then "database_identity_mismatch"
    else "post_commit_confirmation_failed"

unfoldable pub confirmed_by : Checked (Unit {0}) → CommitEnd
confirmed_by (passed _) = record { committed = true; raised = none; marked = none }
confirmed_by (refused category) = record {
  committed = true;
  raised = none;
  marked = some (category_of category);
}

unfoldable pub confirm : ValidatedDatabaseStorage → Confirmation → CommitEnd
confirm storage interrupted = record {
  committed = true;
  raised = none;
  marked = some "post_commit_confirmation_failed";
}
confirm storage (answers_with answers) = confirmed_by (check_identity storage answers)

-- `session.commit()`, which may raise, and the confirmation.
unfoldable pub commit_session : ValidatedDatabaseStorage → Bool → Confirmation → CommitEnd
commit_session storage true after = confirm storage after
commit_session storage false after = record {
  committed = false;
  raised = some "commit";
  marked = none;
}

abbrev pub not_committed : String → CommitEnd
not_committed category = record { committed = false; raised = some category; marked = none }

unfoldable pub commit_checked :
    ValidatedDatabaseStorage → Checked (Unit {0}) → Bool → Confirmation → CommitEnd
commit_checked storage (refused category) commits after = not_committed category
commit_checked storage (passed _) commits after = commit_session storage commits after

unfoldable pub commit :
    ValidatedDatabaseStorage → Bool → CheckAnswers → Bool → Confirmation → CommitEnd
commit storage has_connection before commits after =
    if not has_connection
    then not_committed "runtime_error"
    else commit_checked storage (check_identity storage before) commits after

-- After the commit mutations stop, or the database was found unchanged once more.
pub data CommitOutcome (storage : ValidatedDatabaseStorage) (after : Confirmation) (end : CommitEnd)
    : Type 0 where
  mutations_stop :
      (category : String) → end.marked ≡ some category → CommitOutcome storage after end
  still_unchanged :
      (answers : CheckAnswers)
      → after ≡ answers_with answers
      → IsUnchanged storage answers.identity
      → CommitOutcome storage after end

-- What a commit that is made has passed, and how it is answered.
pub record IsConfirmed (storage : ValidatedDatabaseStorage) (before : CheckAnswers)
    (after : Confirmation) (end : CommitEnd) : Type 0 where
  pub unchanged : IsUnchanged storage before.identity
  pub not_raised : end.raised ≡ none
  pub outcome : CommitOutcome storage after end

constant-passed {ℓ κ} : {A : Type ℓ} {P : Type κ} (check : Checked A) → P → AllPassed (λ _. P) check
constant-passed (refused category) p = tt
constant-passed (passed a) p = p

pub identity-IsUnchanged :
    (storage : ValidatedDatabaseStorage) (answers : CheckAnswers)
    → AllPassed (λ _. IsUnchanged storage answers.identity) (check_identity storage answers)
unfolding check_identity verify_connection_path
identity-IsUnchanged storage answers =
    then-any (λ _. IsUnchanged storage answers.identity) (connection_main_path answers.rows) _
      λ file.
        passed-then (λ _. IsUnchanged storage answers.identity)
          (λ _. IsUnchanged storage answers.identity) (verify_path storage answers.identity) _
          (verified storage answers.identity) λ _ same. constant-passed _ same

confirmed_by-raised : (check : Checked (Unit {0})) → (confirmed_by check).raised ≡ none
unfolding confirmed_by
confirmed_by-raised (refused category) = refl
confirmed_by-raised (passed _) = refl

confirm-raised :
    (storage : ValidatedDatabaseStorage) (after : Confirmation)
    → (confirm storage after).raised ≡ none
unfolding confirm
confirm-raised storage interrupted = refl
confirm-raised storage (answers_with answers) = confirmed_by-raised (check_identity storage answers)

confirmed_by-outcome :
    (storage : ValidatedDatabaseStorage) (answers : CheckAnswers) (check : Checked (Unit {0}))
    → AllPassed (λ _. IsUnchanged storage answers.identity) check
    → CommitOutcome storage (answers_with answers) (confirmed_by check)
unfolding confirmed_by
confirmed_by-outcome storage answers (refused category) same = mutations_stop _ refl
confirmed_by-outcome storage answers (passed _) same = still_unchanged answers refl same

confirm-outcome :
    (storage : ValidatedDatabaseStorage) (after : Confirmation)
    → CommitOutcome storage after (confirm storage after)
unfolding confirm
confirm-outcome storage interrupted = mutations_stop _ refl
confirm-outcome storage (answers_with answers) =
    confirmed_by-outcome storage answers (check_identity storage answers)
      (identity-IsUnchanged storage answers)

module _ (storage : ValidatedDatabaseStorage) (before : CheckAnswers) (after : Confirmation) where
  session-IsConfirmed :
      (commits : Bool)
      → IsUnchanged storage before.identity
      → (commit_session storage commits after).committed ≡ true
      → IsConfirmed storage before after (commit_session storage commits after)
  unfolding commit_session
  session-IsConfirmed true same made = record {
    unchanged = same;
    not_raised = confirm-raised storage after;
    outcome = confirm-outcome storage after;
  }
  session-IsConfirmed false same made = absurd (ground arith)

  checked-IsConfirmed :
      (check : Checked (Unit {0})) (commits : Bool)
      → AllPassed (λ _. IsUnchanged storage before.identity) check
      → (commit_checked storage check commits after).committed ≡ true
      → IsConfirmed storage before after (commit_checked storage check commits after)
  unfolding commit_checked
  checked-IsConfirmed (refused category) commits same made = absurd (ground arith)
  checked-IsConfirmed (passed _) commits same made = session-IsConfirmed commits same made

-- A commit that is made was made where the identity of the validated database was found unchanged,
-- and it raises nothing: the confirmation after it finds the identity unchanged once more, or
-- mutations are stopped.
pub commit-IsConfirmed :
    (storage : ValidatedDatabaseStorage) (has_connection : Bool) (before : CheckAnswers)
    (commits : Bool) (after : Confirmation)
    → (commit storage has_connection before commits after).committed ≡ true
    → IsConfirmed storage before after (commit storage has_connection before commits after)
unfolding commit
commit-IsConfirmed storage true before commits after made =
    checked-IsConfirmed storage before after (check_identity storage before) commits
      (identity-IsUnchanged storage before) made
commit-IsConfirmed storage false before commits after made = absurd (ground arith)
