-- ===== src/Interface/Requests.antt =====
-- crates/daemon/src/interface.rs: requests of clients that write, and the gate before each.
use boot_control.Prelude.{ℕ, Bool, true, false, Option, none, some, List}
use boot_control.Text.{Text}
use boot_control.Host.{ImmutableDistro}
use boot_control.Polkit
use boot_control.Interface.{Manager, Host, Caller, Handler}
use boot_control.Interface.Grub.{set_grub_value, set_grub_default, set_grub_settings}
use boot_control.Interface.Methods.{
  rebuild_grub_config, set_default_entry, rename_entry, add_param_request, remove_param_request,
  restore_request, set_order_request, set_next_request, clear_next_request,
}

-- The methods of the bus that write, with their arguments: all but `BackupNvram` and
-- `SignAndEnrollUki`.
pub data Request : Type 0 where
  grub_settings : ℕ → Text → Bool → Bool → Text → Request
  grub_value grub_default loader_rename : Text → Text → Text → Request
  grub_rebuild next_cleared : Request
  loader_default param_added param_removed snapshot_restored : Text → Text → Request
  order_set : List ℕ → Request
  next_set : ℕ → Request

-- The action that polkit is asked about.
unfoldable pub action_of : Request → Text
action_of (Request.grub_settings _ _ _ _ _) = Polkit.rewrite_grub
action_of (Request.grub_value _ _ _) = Polkit.rewrite_grub
action_of (Request.grub_default _ _ _) = Polkit.rewrite_grub
action_of Request.grub_rebuild = Polkit.rewrite_grub
action_of (Request.param_added _ _) = Polkit.rewrite_grub
action_of (Request.param_removed _ _) = Polkit.rewrite_grub
action_of (Request.loader_default _ _) = Polkit.write_bootloader
action_of (Request.loader_rename _ _ _) = Polkit.write_bootloader
action_of (Request.order_set _) = Polkit.write_bootloader
action_of (Request.next_set _) = Polkit.write_bootloader
action_of Request.next_cleared = Polkit.write_bootloader
action_of (Request.snapshot_restored _ _) = Polkit.restore_snapshot

-- Whether a host that rpm-ostree manages is served too.
unfoldable pub is_delegated : Request → Bool
is_delegated (Request.param_added _ _) = true
is_delegated (Request.param_removed _ _) = true
is_delegated _ = false

-- The kinds of host that a request is served on.
abbrev pub serves : Bool → Option ImmutableDistro → Bool
serves delegated none = true
serves delegated (some ImmutableDistro.rpm_ostree) = delegated
serves delegated (some _) = false

module _ (host : Host) (caller : Caller) (manager : Manager) where
  unfoldable pub handle : Request → Handler (Unit {0})
  handle (Request.grub_settings timeout style detect recovery etag) =
      set_grub_settings host caller manager timeout style detect recovery etag
  handle (Request.grub_value key value etag) = set_grub_value host caller manager key value etag
  handle (Request.grub_default selected menu_etag config_etag) =
      set_grub_default host caller manager selected menu_etag config_etag
  handle Request.grub_rebuild = rebuild_grub_config host caller manager
  handle (Request.loader_default id etag) = set_default_entry host caller manager id etag
  handle (Request.loader_rename id title etag) = rename_entry host caller manager id title etag
  handle (Request.param_added param etag) = add_param_request host caller manager param etag
  handle (Request.param_removed param etag) = remove_param_request host caller manager param etag
  handle (Request.snapshot_restored id etag) = restore_request host caller manager id etag
  handle (Request.order_set new_order) = set_order_request host caller manager new_order
  handle (Request.next_set index) = set_next_request host caller manager index
  handle Request.next_cleared = clear_next_request host caller manager
