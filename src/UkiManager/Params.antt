-- ===== src/UkiManager/Params.antt =====
-- crates/daemon/src/uki_manager.rs: what adding and removing a parameter leaves in the file.
use boot_control.Prelude.{none, List, ◌≡◌, refl, subst}
use boot_control.Text.{Text}
use boot_control.Text.Words.{IsWord}
use boot_control.Error.{Result, ok, err}
use boot_control.Cmdline.{parse_cmdline, add_param, remove_param, validate_kernel_param}
use boot_control.Cmdline.Changes.{
  AddOutcome, RemoveOutcome, add_param-AddOutcome, remove_param-RemoveOutcome,
}
use boot_control.Store.{FilePath, World, System}
use boot_control.Store.Observes.{Observes-lift, bind-observed}
use boot_control.UkiManager.{add_kernel_param, remove_kernel_param}
use boot_control.UkiManager.Atomic.{
  IsUpdated, UpdateOutcome, tmp_of, atomic_cmdline_update-UpdateOutcome,
}

-- An update whose old and new parameters are related, or none at all.
abbrev pub ParamsOutcome :
    (List Text → Result Text → Type 0)
    → (Text → Text)
    → Text
    → (Text → Result Text)
    → FilePath
    → World
    → Result (Unit {0}) × World
    → Type 0
ParamsOutcome R digest etag transform path w (ok _, w') =
    (u : IsUpdated digest etag transform (w.files path) (w'.files path)) × R
      (parse_cmdline u.content) (ok u.new_content)
ParamsOutcome R digest etag transform path w (err _, w') = w'.files path ≡ w.files path

UpdateOutcome-ParamsOutcome :
    (R : List Text → Result Text → Type 0) (digest : Text → Text) (etag : Text)
    (transform : Text → Result Text) (path : FilePath) (w : World)
    → ((content : Text) → R (parse_cmdline content) (transform content))
    → (out : Result (Unit {0}) × World) → UpdateOutcome digest etag transform path w out
    → ParamsOutcome R digest etag transform path w out
UpdateOutcome-ParamsOutcome R digest etag transform path w holds (ok _, w') h =
    (h.0, subst (R (parse_cmdline h.0.content)) h.0.made (holds h.0.content))
UpdateOutcome-ParamsOutcome R digest etag transform path w holds (err _, w') h = h.0

module _ (sys : System) (tmp_name : World → Text) (path : FilePath) (param etag : Text) where
  -- If the parameter is one word and the temporary file is given a name that no file has, then
  -- adding the parameter fails and leaves the command line, or succeeds on a content with the ETag:
  -- the parameter has no blacklisted pattern in it, and the parameters of the file are the old ones,
  -- with the new one behind them unless it was among them.
  pub add_kernel_param-ParamsOutcome :
      (w : World)
      → IsWord param
      → w.files (tmp_of sys tmp_name path etag (λ content. add_param content param) w) ≡ none
      → ParamsOutcome
          (AddOutcome param)
          sys.digest
          etag
          (λ content. add_param content param)
          path
          w
          (add_kernel_param sys tmp_name path param etag w)
  unfolding add_kernel_param
  add_kernel_param-ParamsOutcome w word unused =
      let transform = λ (content : Text). add_param content param in
      bind-observed (ParamsOutcome (AddOutcome param) sys.digest etag transform path w) _ _ w
        (Observes-lift (validate_kernel_param param)) (λ e h. refl)
        λ _ _.
          UpdateOutcome-ParamsOutcome (AddOutcome param) sys.digest etag transform path w
            (λ content. add_param-AddOutcome content param word) _
            (atomic_cmdline_update-UpdateOutcome sys tmp_name path etag transform w unused)

  -- If the temporary file is given a name that no file has, then removing a parameter fails and
  -- leaves the command line, or succeeds on a content with the ETag that has the parameter: the
  -- parameters of the file are the other ones, in their order.
  pub remove_kernel_param-ParamsOutcome :
      (w : World)
      → w.files (tmp_of sys tmp_name path etag (λ content. remove_param content param) w) ≡ none
      → ParamsOutcome
          (RemoveOutcome param)
          sys.digest
          etag
          (λ content. remove_param content param)
          path
          w
          (remove_kernel_param sys tmp_name path param etag w)
  unfolding remove_kernel_param
  remove_kernel_param-ParamsOutcome w unused =
      let transform = λ (content : Text). remove_param content param in
      UpdateOutcome-ParamsOutcome (RemoveOutcome param) sys.digest etag transform path w
        (λ content. remove_param-RemoveOutcome content param) _
        (atomic_cmdline_update-UpdateOutcome sys tmp_name path etag transform w unused)
