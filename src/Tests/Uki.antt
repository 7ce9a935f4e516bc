-- ===== src/Tests/Uki.antt =====
-- The kernel command line at concrete contents.
use boot_control.UkiManager.Params.{
  ParamsOutcome, add_kernel_param-ParamsOutcome, remove_kernel_param-ParamsOutcome,
}
use boot_control.Prelude.{◌≡◌, refl, arith, false}
use boot_control.Text.{Text, codes, is_whitespace, words_from, join, text_eq, contains, starts_with}
use boot_control.Text.Words.{IsWord}
use boot_control.Error.{ok, ◌>>=◌}
use boot_control.Hash.{compute_etag}
use boot_control.Security.{validate_kernel_param_str, first_blacklisted_match, find_pattern}
use boot_control.Cmdline.{
  parse_cmdline, serialize_cmdline, has_param, add_param, remove_param, without_param,
}
use boot_control.Cmdline.Changes.{AddOutcome, RemoveOutcome}
use boot_control.Store.{path_eq, parent}
use boot_control.UkiManager.{atomic_cmdline_update, add_kernel_param, remove_kernel_param}
use boot_control.UkiManager.Atomic.{
  UpdateOutcome, atomic_cmdline_update-UpdateOutcome, atomic_cmdline_update_lem,
}
use boot_control.Tests.Manager.{path, sys, world}

abbrev cmdline : Text
cmdline = codes "root=/dev/sda1  quiet splash quiet\n"

abbrev loglevel : Text
loglevel = codes "loglevel=3"

loglevel-IsWord : IsWord loglevel
unfolding codes is_whitespace
loglevel-IsWord = (λ e. cc, ground arith)

adds : add_param cmdline loglevel ≡ ok (codes "root=/dev/sda1 quiet splash quiet loglevel=3\n")
unfolding add_param validate_kernel_param_str first_blacklisted_match find_pattern contains
    starts_with codes parse_cmdline serialize_cmdline has_param words_from is_whitespace join
    text_eq
adds = refl

removes : remove_param cmdline (codes "quiet") ≡ ok (codes "root=/dev/sda1 splash\n")
unfolding remove_param codes parse_cmdline serialize_cmdline has_param without_param words_from
    is_whitespace join text_eq
removes = refl

atomic_cmdline_update-UpdateOutcome_example :
    UpdateOutcome sys.digest cmdline
      (λ content. add_param content loglevel)
      path
      (world cmdline false)
      (atomic_cmdline_update sys
        (λ _. codes "x7Yz")
        path
        cmdline
        (λ content. add_param content loglevel)
        (world cmdline false))
unfolding path_eq text_eq codes parent
atomic_cmdline_update-UpdateOutcome_example =
    atomic_cmdline_update-UpdateOutcome sys (λ _. codes "x7Yz") path cmdline
      (λ content. add_param content loglevel) (world cmdline false) refl

own_etag : cmdline ≡ compute_etag sys.digest cmdline
unfolding compute_etag
own_etag = refl

atomic_cmdline_update_lem_example :
    (atomic_cmdline_update sys
      (λ _. codes "x7Yz")
      path
      cmdline
      (λ content. add_param content loglevel)
      (world cmdline false)).0
    ≡ (add_param cmdline loglevel >>= λ _. ok tt)
unfolding path_eq text_eq codes
atomic_cmdline_update_lem_example =
    atomic_cmdline_update_lem sys (λ _. codes "x7Yz") path cmdline
      (λ content. add_param content loglevel) cmdline (world cmdline false) (λ _. refl) refl refl
      own_etag

add_kernel_param-ParamsOutcome_example :
    ParamsOutcome
      (AddOutcome loglevel)
      sys.digest
      cmdline
      (λ content. add_param content loglevel)
      path
      (world cmdline false)
      (add_kernel_param sys (λ _. codes "x7Yz") path loglevel cmdline (world cmdline false))
unfolding path_eq text_eq codes parent
add_kernel_param-ParamsOutcome_example =
    add_kernel_param-ParamsOutcome sys (λ _. codes "x7Yz") path loglevel cmdline
      (world cmdline false) loglevel-IsWord refl

remove_kernel_param-ParamsOutcome_example :
    ParamsOutcome
      (RemoveOutcome (codes "quiet"))
      sys.digest
      cmdline
      (λ content. remove_param content (codes "quiet"))
      path
      (world cmdline false)
      (remove_kernel_param sys
        (λ _. codes "x7Yz")
        path
        (codes "quiet")
        cmdline
        (world cmdline false))
unfolding path_eq text_eq codes parent
remove_kernel_param-ParamsOutcome_example =
    remove_kernel_param-ParamsOutcome sys (λ _. codes "x7Yz") path (codes "quiet") cmdline
      (world cmdline false) refl
