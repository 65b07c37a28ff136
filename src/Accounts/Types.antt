-- ===== src/Accounts/Types.antt =====
-- The account of internal/store/human_auth.go, its events and its requests, from internal/domain/model.go.
use codex_commons.Prelude.{ℕ, String, Option, List}
use codex_commons.Prelude.Bytes.{Bytes}
use codex_commons.Prelude.Int.{ℤ}
use codex_commons.Core.Types.{Err, Fails}

pub record Binding : Type 0 where
  pub subject_digest : Bytes
  pub display_name : String
  pub handle : String
  pub revision : ℕ
  pub created_at : ℤ
  pub updated_at : ℤ

pub data EventType : Type 0 where
  account_bound profile_updated recovery_login : EventType

pub record Event : Type 0 where
  pub id : String
  pub event_type : EventType
  pub binding_revision : ℤ
  pub request_key : String
  pub request_digest : Bytes
  pub recorded_at : ℤ

-- The tables human_account_bindings, of at most one row, and human_auth_events.
pub record Accounts : Type 0 where
  pub binding : Option Binding
  pub events : List Event

pub record BindRequest : Type 0 where
  pub subject_digest : Bytes
  pub display_name : String
  pub handle : String

pub record ProfileRequest : Type 0 where
  pub principal : String
  pub display_name : String
  pub handle : String
  pub base_revision : ℤ
  pub idempotency_key : String

pub record EventRequest : Type 0 where
  pub principal : String
  pub event_type : String
  pub binding_revision : ℤ
  pub idempotency_key : String

-- What one call meets: the clock, newID, and the answers of BeginTx and Commit.
pub record Call : Type 0 where
  pub now : ℤ
  pub event_id : String
  pub begin_err : Option Err
  pub commit_err : Option Err

abbrev pub local_principal : String
local_principal = "human:local-admin"

-- The account, its profile and its events behind a call, and what the call returns.
abbrev pub Answer {ℓ} : Type ℓ → Type ℓ
Answer A = Accounts × Fails A
