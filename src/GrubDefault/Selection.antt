-- ===== src/GrubDefault/Selection.antt =====
-- crates/daemon/src/grub_manager.rs: the default is changed only to an entry of the menu that was shown.
use boot_control.Store.Observes.{read_to_string-ok}
use mathlib.Core.List.{Memᴰ}
use boot_control.Prelude.{
  Bool-cases, false, Option, none, some, List, [], ◌∷◌, ◌≡◌, ◌≢◌, ◌⊎◌, inl, inr, refl, arith,
}
use boot_control.Text.{Text, codes, text_eq}
use boot_control.Text.Equality.{text_eq_iff}
use boot_control.Error.{esp_scan_failed, Result, ok, err}
use boot_control.Hash.{compute_etag}
use boot_control.Store.{FilePath, World, System, Io, ◌>>=◌, continue, lift, read_to_string}
use boot_control.Store.Keeps.{KeepsAt, KeepsAt-lift, KeepsAt-read, KeepsAt-bind}
use boot_control.GrubMenu.{GrubMenuEntry, parse_menu_entries}
use boot_control.Failsafe.{build_tmp_path}
use boot_control.GrubRebuild.{ToolsKeep}
use boot_control.GrubManager.{LockedGrubState, set_grub_value_with_prewrite}
use boot_control.GrubManager.Atomic.{IsReplaced, Outcome, set_grub_values-Outcome}
use boot_control.GrubDefault.{
  find_path, selection_of, fresh_menu, validate_menu_selection, validate_then,
  set_grub_default_with_prewrite,
}

-- The menu with this ETag has an entry at the path, and it is no submenu.
pub record IsSelectable (digest : Text → Text) (menu_etag selected : Text) (menu : Text)
    : Type 0 where
  pub entries : List GrubMenuEntry
  pub entry : GrubMenuEntry
  pub fresh : menu_etag ≡ compute_etag digest menu
  pub parsed : parse_menu_entries menu ≡ ok entries
  pub listed : Memᴰ entry entries
  pub at : entry.path ≡ selected
  pub no_submenu : entry.is_submenu ≡ false

pub find_path-path :
    (selected : Text) (es : List GrubMenuEntry) (e : GrubMenuEntry)
    → find_path selected es ≡ some e
    → e.path ≡ selected
unfolding find_path
find_path-path selected [] e h = cc
find_path-path selected (x ∷ es) e h =
    ground (arith, text_eq_iff x.path selected, find_path-path selected es e)

find_path-Memᴰ :
    (selected : Text) (es : List GrubMenuEntry) (e : GrubMenuEntry)
    → find_path selected es ≡ some e
    → Memᴰ e es
unfolding find_path
find_path-Memᴰ selected [] e h = cc
find_path-Memᴰ selected (x ∷ es) e h = elim (Bool-cases (text_eq x.path selected)) [
  | inl here ↦ let same : e ≡ x = ground arith in Memᴰ.head same
  | inr other ↦ Memᴰ.tail (find_path-Memᴰ selected es e (rw other at h))
]

-- Inversion of a program that succeeded.
>>=-ok :
    {A B : Type 0} (m : Io A) (f : A → Io B) (w : World) (b : B)
    → ((m >>= f) w).0 ≡ ok b
    → (a : A) × ((m w).0 ≡ ok a) × ((f a (m w).1).0 ≡ ok b)
>>=-ok {A} {B} m f w b h = go (m w).0 (m w).1 h
  where
    go :
        (r : Result A) (v : World)
        → (continue r f v).0 ≡ ok b
        → (a : A) × (r ≡ ok a) × ((f a v).0 ≡ ok b)
    go (ok a) v h = (a, refl, h)
    go (err e) v h = cc

selection_of-ok :
    (selected : Text) (o : Option GrubMenuEntry)
    → selection_of selected o ≡ ok tt
    → (e : GrubMenuEntry) × (o ≡ some e) × (e.is_submenu ≡ false)
unfolding selection_of
selection_of-ok selected none h = cc
selection_of-ok selected (some e) h = (e, refl, ground arith)

fresh_menu-ok :
    (digest : Text → Text) (etag menu : Text) (es : List GrubMenuEntry)
    → fresh_menu digest etag menu ≡ ok es
    → (etag ≡ compute_etag digest menu) × (parse_menu_entries menu ≡ ok es)
unfolding fresh_menu
fresh_menu-ok digest etag menu es h = ground (arith, text_eq_iff (compute_etag digest menu) etag)

validate-IsSelectable :
    (sys : System) (menu_path : FilePath) (selected etag : Text) (w : World)
    → (validate_menu_selection sys menu_path selected etag w).0 ≡ ok tt
    → (menu : Text) × (w.files menu_path ≡ some menu) × IsSelectable sys.digest etag selected menu
unfolding validate_menu_selection
validate-IsSelectable sys menu_path selected etag w h =
    let (menu, got, h₁) = >>=-ok (read_to_string esp_scan_failed menu_path) _ w tt h in
    let (es, fresh, h₂) = >>=-ok (lift (fresh_menu sys.digest etag menu)) _ _ tt h₁ in
    let (e, found, plain) = selection_of-ok selected (find_path selected es) h₂ in
    let (same, parsed) = fresh_menu-ok sys.digest etag menu es fresh in
    (
      menu,
      read_to_string-ok esp_scan_failed menu_path w menu got,
      record {
        entries = es;
        entry = e;
        fresh = same;
        parsed = parsed;
        listed = find_path-Memᴰ selected es e found;
        at = find_path-path selected es e found;
        no_submenu = plain;
      },
    )

validate-KeepsAt :
    (sys : System) (p menu_path : FilePath) (selected etag : Text)
    → KeepsAt p (validate_menu_selection sys menu_path selected etag)
unfolding validate_menu_selection
validate-KeepsAt sys p menu_path selected etag =
    KeepsAt-bind p _ _ (KeepsAt-read p _ menu_path) λ menu.
      KeepsAt-bind {A = List GrubMenuEntry} p _ _ (KeepsAt-lift p (fresh_menu sys.digest etag menu))
        λ es. KeepsAt-lift p (selection_of selected (find_path selected es))

module _ (sys : System) (path menu_path failsafe_cfg : FilePath) (selected menu_etag etag : Text)
    (prewrite : LockedGrubState → Io (Unit {0})) (w : World) where
  abbrev checked_prewrite : LockedGrubState → Io (Unit {0})
  checked_prewrite = validate_then sys menu_path selected menu_etag prewrite

  -- The configuration now names the path, which the menu had when it was checked.
  pub record IsChosen (old now : Option Text) : Type 0 where
    pub replaced :
        IsReplaced sys.digest
          ((codes "GRUB_DEFAULT", selected) ∷ [])
          etag
          checked_prewrite
          w
          old
          now
    pub menu : Text
    pub shown : w.files menu_path ≡ some menu
    pub selectable : IsSelectable sys.digest menu_etag selected menu

  abbrev pub DefaultOutcome : Option Text → Result (Unit {0}) → Option Text → Type 0
  DefaultOutcome old (ok _) now = IsChosen old now
  DefaultOutcome old (err _) now = (now ≡ old) ⊎ IsChosen old now

  replaced-IsChosen :
      {old now : Option Text}
      → IsReplaced sys.digest
          ((codes "GRUB_DEFAULT", selected) ∷ [])
          etag
          checked_prewrite
          w
          old
          now
      → IsChosen old now
  unfolding validate_then
  replaced-IsChosen r =
      let (_, valid, _) =
        >>=-ok (validate_menu_selection sys menu_path selected menu_etag) _ w tt
          r.checked.approved in
      let (menu, shown, selectable) =
        validate-IsSelectable sys menu_path selected menu_etag w valid in
      record { replaced = r; menu = menu; shown = shown; selectable = selectable }

  Outcome-DefaultOutcome :
      (old now : Option Text) (r : Result (Unit {0}))
      → Outcome sys.digest ((codes "GRUB_DEFAULT", selected) ∷ []) etag checked_prewrite w old r now
      → DefaultOutcome old r now
  Outcome-DefaultOutcome old now (ok _) h = replaced-IsChosen h
  Outcome-DefaultOutcome old now (err _) (inl same) = inl same
  Outcome-DefaultOutcome old now (err _) (inr h) = inr (replaced-IsChosen h)

  module _ (tools : ToolsKeep sys path)
      (snapshot : (s : LockedGrubState) → KeepsAt path (prewrite s)) (other : failsafe_cfg ≢ path)
      (tmp_other : build_tmp_path failsafe_cfg ≢ path) where
    -- If the tools that are run and `prewrite` leave the GRUB configuration alone, and the failsafe
    -- entry and its temporary file are other files, then setting the default leaves the file as it
    -- was, or names an entry in it: in the world of the call the menu had the ETag that the caller was shown,
    -- was parsed, and had at the path an entry that is no submenu. A call that succeeds has done so.
    pub set_grub_default-DefaultOutcome :
        let (r, w') =
          set_grub_default_with_prewrite sys path menu_path selected menu_etag etag failsafe_cfg
            prewrite w in
        DefaultOutcome (w.files path) r (w'.files path)
    unfolding set_grub_default_with_prewrite set_grub_value_with_prewrite
    set_grub_default-DefaultOutcome = Outcome-DefaultOutcome _ _ _ (
        set_grub_values-Outcome sys path failsafe_cfg menu_path
          ((codes "GRUB_DEFAULT", selected) ∷ []) etag checked_prewrite tools
          (λ s.
            unfold validate_then in
            KeepsAt-bind path _ _ (validate-KeepsAt sys path menu_path selected menu_etag)
              (λ _. snapshot s))
          other tmp_other w)
