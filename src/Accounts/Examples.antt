-- ===== src/Accounts/Examples.antt =====
-- The account at concrete calls: it is bound, its profile changes, and the change is sent again.
use codex_commons.Prelude.Sql.{name_fits, trimmed_length, before_nul, skip_spaces, width}
use codex_commons.Prelude.{◌≡◌, refl, String, true, none, some, [], ◌∷◌}
use codex_commons.Prelude.Tests.{if◌then◌else◌, str_eq}
use codex_commons.Prelude.Text.{all_chars, trim_space, to_lower}
use codex_commons.Prelude.Int.{pos}
use codex_commons.Prelude.Bytes.{Bytes, bytes, bytes_eq}
use codex_commons.Prelude.Results.{ok, err}
use codex_commons.Core.Types.{conflict}
use codex_commons.Accounts.Types.{
  Accounts, Binding, Call, BindRequest, ProfileRequest, profile_updated,
}
use codex_commons.Accounts.Profiles.{
  valid_profile_request, valid_human_profile, is_handle, valid_key, starts_with, ends_with,
}
use codex_commons.Accounts.{
  get_binding, bind_human_account, update_human_profile, change_profile, update_binding,
  with_profile, find_event, insert_event, has_event_id, same_type, taken, commit_and_read, bind_to,
  insert_binding,
}
use codex_commons.Accounts.Audit.{no_accounts, IsAudited, Later-IsAudited}
use codex_commons.Accounts.Steps.{now, after_bind, after_update, HasSubject, Later-HasSubject}
use codex_commons.Accounts.Replay.{update_again}

abbrev eight : Bytes → Bytes
eight rest = 1 ∷ 2 ∷ 3 ∷ 4 ∷ 5 ∷ 6 ∷ 7 ∷ 8 ∷ rest

abbrev subject : Bytes
subject = eight (eight (eight (eight [])))

abbrev toy_hash : Bytes → Bytes
toy_hash text = subject

abbrev call : String → Call
call id = record { now = pos 1; event_id = id; begin_err = none; commit_err = none }

abbrev bind_request : BindRequest
bind_request = record { subject_digest = subject; display_name = "Ann"; handle = "ann-1" }

abbrev change_request : ProfileRequest
change_request = record {
  principal = "human:local-admin";
  display_name = "Ann B";
  handle = "ann-b";
  base_revision = pos 1;
  idempotency_key = "k1";
}

abbrev with_account : Accounts
with_account = (bind_human_account (call "E-1") bind_request no_accounts).0

abbrev with_change : Accounts
with_change = (update_human_profile toy_hash bytes (call "E-2") change_request with_account).0

abbrev ann : Binding
ann = record {
  subject_digest = subject;
  display_name = "Ann";
  handle = "ann-1";
  revision = 1;
  created_at = pos 1;
  updated_at = pos 1;
}

account_there : with_account.binding ≡ some ann
unfolding bind_human_account bind_to insert_binding get_binding update_human_profile change_profile
    name_fits trimmed_length before_nul skip_spaces width update_binding with_profile find_event
    insert_event has_event_id same_type taken commit_and_read valid_profile_request
    valid_human_profile valid_key is_handle all_chars trim_space to_lower starts_with ends_with
    str_eq bytes_eq
account_there = refl

Later-HasSubject_example : HasSubject subject 1 with_change
Later-HasSubject_example =
    Later-HasSubject toy_hash bytes with_account with_change ann account_there refl
      (after_update (call "E-2") change_request now)

Later-IsAudited_example : IsAudited with_change
Later-IsAudited_example =
    Later-IsAudited toy_hash bytes with_change
      (after_update (call "E-2") change_request (after_bind (call "E-1") bind_request now))

valid_change : valid_profile_request change_request ≡ true
unfolding bind_human_account bind_to insert_binding get_binding update_human_profile change_profile
    name_fits trimmed_length before_nul skip_spaces width update_binding with_profile find_event
    insert_event has_event_id same_type taken commit_and_read valid_profile_request
    valid_human_profile valid_key is_handle all_chars trim_space to_lower starts_with ends_with
    str_eq bytes_eq
valid_change = refl

fresh_key : find_event profile_updated "k1" with_account.events ≡ none
unfolding bind_human_account bind_to insert_binding get_binding update_human_profile change_profile
    name_fits trimmed_length before_nul skip_spaces width update_binding with_profile find_event
    insert_event has_event_id same_type taken commit_and_read valid_profile_request
    valid_human_profile valid_key is_handle all_chars trim_space to_lower starts_with ends_with
    str_eq bytes_eq
fresh_key = refl

abbrev ann_b : Binding
ann_b = record ann { display_name = "Ann B"; handle = "ann-b"; revision = 2 }

changes_once :
    (update_human_profile toy_hash bytes (call "E-2") change_request with_account).1 ≡ ok ann_b
unfolding bind_human_account bind_to insert_binding get_binding update_human_profile change_profile
    name_fits trimmed_length before_nul skip_spaces width update_binding with_profile find_event
    insert_event has_event_id same_type taken commit_and_read valid_profile_request
    valid_human_profile valid_key is_handle all_chars trim_space to_lower starts_with ends_with
    str_eq bytes_eq
changes_once = refl

update_again_example :
    update_human_profile toy_hash bytes (call "E-3") change_request with_change
    ≡ (with_change, if bytes_eq subject subject then get_binding with_change else err conflict)
update_again_example =
    update_again toy_hash bytes (call "E-2") (call "E-3") change_request change_request with_account
      with_change ann_b valid_change refl fresh_key changes_once now valid_change refl refl refl
