-- ===== src/Failsafe/Writes.antt =====
-- crates/daemon/src/failsafe.rs: what a refresh of the failsafe entry writes, and where.
use boot_control.Store.Calm.{
  Returns, Returns-bind, Returns-pure, Returns-attempt, Returns-create, Returns-write,
  Returns-rename,
}
use boot_control.Prelude.{Option, none, some, ◌≢◌}
use boot_control.Text.{Text}
use boot_control.Error.{ok}
use boot_control.Store.{FilePath, parent}
use boot_control.Store.Keeps.{
  KeepsAt, KeepsAt-lift, KeepsAt-attempt, KeepsAt-create, KeepsAt-write, KeepsAt-rename,
  KeepsAt-bind,
}
use boot_control.Failsafe.{
  build_tmp_path, create_parent, write_failsafe_content, refresh_failsafe_entry,
}

create_parent-KeepsAt : (p : FilePath) (dir : Option FilePath) → KeepsAt p (create_parent dir)
unfolding create_parent
create_parent-KeepsAt p none = KeepsAt-lift p (ok tt)
create_parent-KeepsAt p (some dir) = KeepsAt-attempt p _ _

module _ (p cfg : FilePath) (other : cfg ≢ p) (tmp_other : build_tmp_path cfg ≢ p) where
  write_failsafe_content-KeepsAt : (content : Text) → KeepsAt p (write_failsafe_content cfg content)
  unfolding write_failsafe_content
  write_failsafe_content-KeepsAt content =
      KeepsAt-bind p _ _ (create_parent-KeepsAt p (parent cfg)) λ _.
        KeepsAt-bind p _ _ (KeepsAt-create p _ _ tmp_other) λ _.
          KeepsAt-bind p _ _ (KeepsAt-write p _ _ content tmp_other) λ _.
            KeepsAt-bind p _ _ (KeepsAt-attempt p _ _) λ _. KeepsAt-rename p _ _ _ tmp_other other

  -- A refresh leaves every file alone that is neither the failsafe entry nor its temporary file.
  pub refresh_failsafe_entry-KeepsAt : KeepsAt p (refresh_failsafe_entry cfg)
  unfolding refresh_failsafe_entry
  refresh_failsafe_entry-KeepsAt = record { at = λ w. (write_failsafe_content-KeepsAt _).at w }

create_parent-Returns : (dir : Option FilePath) → Returns (create_parent dir) tt
unfolding write_failsafe_content
create_parent-Returns none = Returns-pure tt
create_parent-Returns (some dir) = Returns-attempt _ _

write_failsafe_content-Returns :
    (cfg : FilePath) (content : Text) → Returns (write_failsafe_content cfg content) tt
unfolding write_failsafe_content
write_failsafe_content-Returns cfg content =
    Returns-bind _ _ tt tt (create_parent-Returns (parent cfg)) (
      Returns-bind _ _ tt tt (Returns-create _ _) (
        Returns-bind _ _ tt tt (Returns-write _ _ content)
          (Returns-bind _ _ tt tt (Returns-attempt _ _) (Returns-rename _ _ cfg))))

pub refresh_failsafe_entry-Returns : (cfg : FilePath) → Returns (refresh_failsafe_entry cfg) tt
unfolding refresh_failsafe_entry
refresh_failsafe_entry-Returns cfg = record {
  run = λ w calm. (write_failsafe_content-Returns cfg _).run w calm;
}
