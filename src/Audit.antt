-- ===== src/Audit.antt =====
-- crates/daemon/src/audit.rs: the events of the audit trail. The journal is seen as their list.
use boot_control.Prelude.{ℕ, Option, List}
use boot_control.Text.{Text, codes}

pub data Phase : Type 0 where
  started snapshot_taken completed : Phase

pub record AuditEvent : Type 0 where
  pub message_id : Text
  pub operation : Text
  pub phase : Phase
  pub target_paths : List Text
  pub etag_before : Option Text
  pub etag_after : Option Text
  pub snapshot_id : Option Text
  pub exit_code : Option ℕ
  pub caller_uid : ℕ
  pub polkit_action : Text
  pub job_id : Text
  pub stderr_tail : Text

-- `message_ids`
abbrev pub set_grub_value_id : Text
set_grub_value_id = codes "0a8c2b9d-3e5f-4471-aa9d-12c4e7f3b2a8"

abbrev pub restore_snapshot_id : Text
restore_snapshot_id = codes "4e5f6a7b-8c9d-0e1f-2a3b-aabbccddeef2"
