-- ===== src/GrubMenu/Paths.antt =====
-- crates/core/src/grub_cfg.rs: no two entries of a menu have the same path.
use boot_control.Prelude.{
  ℕ, ◌+◌, ◌<◌, ◌≡◌, ◌≢◌, inl, inr, refl, subst, arith, Bool, true, false, Bool-cases, List, [], ◌∷◌,
  ◌++◌, append_assoc, ltb, ◌==◌, if◌then◌else◌, All, All-append, not, ◌||◌,
}
use boot_control.Text.{Text, lines, codes, text_eq, is_empty, starts_with, trim}
use boot_control.Error.{ok, bind-eq-ok, ok-injective}
use boot_control.GrubMenu.{
  GrubMenuEntry, SubmenuFrame, MenuState, menu_brace, menu_braces, add_entry, menu_line, menu_lines,
  no_menu, close_menu, parse_menu_entries, pop, menu_level_line, no_frames,
}
use boot_control.GrubMenu.Tokens.{MenuLineParts, parse_menu_line}
use boot_control.GrubMenu.Addresses.{
  address, indices, address-path, Before, Before-trans, Before-irrefl, Before-append,
}

-- The paths of the entries are pairwise different.
abbrev pub DistinctPaths : List GrubMenuEntry → Type 0
DistinctPaths [] = Unit
DistinctPaths (e ∷ es) = All (λ (f : GrubMenuEntry). e.path ≢ f.path) es × DistinctPaths es

-- The index of the next entry under these frames.
abbrev next_in : ℕ → List SubmenuFrame → ℕ
next_in top [] = top
next_in top (frame ∷ _) = frame.next_child

-- Each open submenu has a smaller index than the next entry beside it.
abbrev Counted : ℕ → List SubmenuFrame → Type 0
Counted top [] = Unit
Counted top (frame ∷ frames) = (frame.index < next_in top frames) × Counted top frames

abbrev place : ℕ → List SubmenuFrame → List ℕ
place top frames = indices frames ++ (next_in top frames ∷ [])

abbrev AllBefore : List ℕ → List GrubMenuEntry → Type 0
AllBefore a = All (λ (e : GrubMenuEntry). Before (address e.path) a)

-- Every entry stands before the place of the next one.
record Ordered (entries : List GrubMenuEntry) (frames : List SubmenuFrame) (top : ℕ) : Type 0 where
  counted : Counted top frames
  earlier : AllBefore (place top frames) entries
  distinct : DistinctPaths entries

AllBefore-trans :
    (a b : List ℕ) (es : List GrubMenuEntry) → Before a b → AllBefore a es → AllBefore b es
AllBefore-trans a b [] h k = tt
AllBefore-trans a b (e ∷ es) h k =
    (Before-trans (address e.path) a b k.0 h, AllBefore-trans a b es h k.1)

-- An entry at a place that all the others stand before.
DistinctPaths-append :
    (es : List GrubMenuEntry) (e : GrubMenuEntry)
    → AllBefore (address e.path) es
    → DistinctPaths es
    → DistinctPaths (es ++ (e ∷ []))
DistinctPaths-append [] e h d = (tt, tt)
DistinctPaths-append (f ∷ es) e h d = (
  All-append _ es (e ∷ []) d.0 (
    λ same.
        Before-irrefl (address e.path)
          (subst (λ (p : Text). Before (address p) (address e.path)) same h.0),
    tt,
  ),
  DistinctPaths-append es e h.1 d.1,
)

pop-Before :
    (frame : SubmenuFrame) (frames : List SubmenuFrame) (top : ℕ)
    → Counted top (frame ∷ frames)
    → Before (place top (frame ∷ frames)) (place top frames)
pop-Before frame frames top h = rw append_assoc (Before-append (indices frames) _ _ (inl h.0))

pop-Ordered :
    {es : List GrubMenuEntry} (frames : List SubmenuFrame) {top : ℕ}
    → Ordered es frames top
    → Ordered es (pop frames) top
pop-Ordered [] o = o
pop-Ordered {es} (frame ∷ frames) {top} o = record {
  counted = o.counted.1;
  earlier = AllBefore-trans _ _ es (pop-Before frame frames top o.counted) o.earlier;
  distinct = o.distinct;
}

-- An entry at the next place is added, and the next place moves on.
add-Ordered :
    (es : List GrubMenuEntry) (e : GrubMenuEntry) (frames frames' : List SubmenuFrame)
    (top top' : ℕ)
    → Ordered es frames top
    → address e.path ≡ place top frames
    → Counted top' frames'
    → Before (place top frames) (place top' frames')
    → Ordered (es ++ (e ∷ [])) frames' top'
add-Ordered es e frames frames' top top' o at counted later = record {
  counted = counted;
  earlier = All-append _ es (e ∷ []) (AllBefore-trans _ _ es later o.earlier) (rw at later, tt);
  distinct = DistinctPaths-append es e (rw at (o.earlier)) o.distinct;
}

abbrev bumped : SubmenuFrame → SubmenuFrame
bumped parent = record parent { next_child = parent.next_child + 1 }

abbrev opened : ℕ → SubmenuFrame
opened index = record { index = index; next_child = 0 }

bump-Before :
    (frame : SubmenuFrame) (frames : List SubmenuFrame) (top : ℕ)
    → Before (place top (frame ∷ frames)) (place top (bumped frame ∷ frames))
bump-Before frame frames top = Before-append (indices (frame ∷ frames)) _ _ (inl (omega arith))

open-Before :
    (frames frames' : List SubmenuFrame) (top top' : ℕ)
    → indices frames ≡ indices frames'
    → Before (place top frames) (place top' (opened (next_in top frames) ∷ frames'))
open-Before frames frames' top top' e =
    rw (append_assoc, ← e) (Before-append (indices frames) _ _ (inr (refl, tt)))

abbrev IsOrdered : MenuState → Type 0
IsOrdered s = Ordered s.entries s.submenus s.top_next_child

-- A step that goes one of two ways leads to an ordered state if both do.
either-IsOrdered :
    (b : Bool) (s s' : MenuState) → IsOrdered s → IsOrdered s' → IsOrdered (if b then s else s')
either-IsOrdered true s s' o o' = o
either-IsOrdered false s s' o o' = o'

module _ (s : MenuState) (is_submenu : Bool) (parts : MenuLineParts) where
  -- The state with these open submenus instead.
  abbrev under : List SubmenuFrame → MenuState
  under frames = record s { submenus = frames }

  top-IsOrdered : IsOrdered (under []) → IsOrdered (add_entry (under []) is_submenu parts)
  unfolding add_entry
  top-IsOrdered o =
      let top = s.top_next_child in
      let closed =
        add-Ordered s.entries _ [] [] top (top + 1) o (address-path [] top) tt
          (inl (omega arith)) in
      either-IsOrdered (ltb 0 parts.body_depth) _ _
        (either-IsOrdered is_submenu _ _
          (add-Ordered s.entries _ [] (opened top ∷ []) top (top + 1) o (address-path [] top)
            (omega arith, tt) (open-Before [] [] top (top + 1) refl))
          closed)
        closed

  inner-IsOrdered :
      (parent : SubmenuFrame) (frames : List SubmenuFrame)
      → IsOrdered (under (parent ∷ frames))
      → IsOrdered (add_entry (under (parent ∷ frames)) is_submenu parts)
  unfolding add_entry
  inner-IsOrdered parent frames o =
      let top = s.top_next_child in
      let index = parent.next_child in
      let at = address-path (parent ∷ frames) index in
      let closed =
        add-Ordered s.entries _ (parent ∷ frames) (bumped parent ∷ frames) top top o at o.counted
          (bump-Before parent frames top) in
      either-IsOrdered (ltb 0 parts.body_depth) _ _
        (either-IsOrdered is_submenu _ _
          (add-Ordered s.entries _ (parent ∷ frames) (opened index ∷ bumped parent ∷ frames) top top
            o at (omega arith, o.counted)
            (open-Before (parent ∷ frames) (bumped parent ∷ frames) top top refl))
          closed)
        closed

  add_under-IsOrdered :
      (frames : List SubmenuFrame)
      → IsOrdered (under frames)
      → IsOrdered (add_entry (under frames) is_submenu parts)
  add_under-IsOrdered [] o = top-IsOrdered o
  add_under-IsOrdered (parent ∷ frames) o = inner-IsOrdered parent frames o

  add_entry-IsOrdered : IsOrdered s → IsOrdered (add_entry s is_submenu parts)
  add_entry-IsOrdered o = add_under-IsOrdered s.submenus o

menu_brace-IsOrdered : (s : MenuState) (brace : ℕ) → IsOrdered s → IsOrdered (menu_brace s brace)
unfolding menu_brace
menu_brace-IsOrdered s brace o = elim (Bool-cases (brace == b'{')) [
  | inl opens ↦ rw opens o
  | inr closes ↦ elim (Bool-cases (ltb 0 s.opaque_depth)) [
    | inl opaque ↦ rw (closes, opaque) o
    | inr menu ↦ rw (closes, menu) (pop-Ordered s.submenus o)
  ]
]

menu_braces-IsOrdered :
    (s : MenuState) (braces : List ℕ) → IsOrdered s → IsOrdered (menu_braces s braces)
unfolding menu_braces
menu_braces-IsOrdered s [] o = o
menu_braces-IsOrdered s (brace ∷ braces) o =
    menu_braces-IsOrdered (menu_brace s brace) braces (menu_brace-IsOrdered s brace o)

menu_level-IsOrdered :
    (s s' : MenuState) (trimmed first : Text)
    → IsOrdered s
    → menu_level_line s trimmed first ≡ ok s'
    → IsOrdered s'
unfolding menu_line
menu_level-IsOrdered s s' trimmed first o e =
    elim (Bool-cases (text_eq first (codes "menuentry") || text_eq first (codes "submenu"))) [
      | inl item ↦
          let (parts, _, added) = bind-eq-ok (parse_menu_line trimmed) _ (rw item at e) in
          subst IsOrdered (ok-injective added) (add_entry-IsOrdered s _ parts o)
      | inr other ↦ subst IsOrdered (ok-injective (rw other at e)) (menu_braces-IsOrdered s _ o)
    ]

menu_line-IsOrdered :
    (s s' : MenuState) (line : Text) → IsOrdered s → menu_line s line ≡ ok s' → IsOrdered s'
unfolding menu_line
menu_line-IsOrdered s s' line o e =
    elim (Bool-cases (is_empty (trim line) || starts_with (b'#' ∷ []) (trim line))) [
      | inl skipped ↦ subst IsOrdered (ok-injective (rw skipped at e)) o
      | inr read ↦ elim (Bool-cases (ltb 0 s.opaque_depth)) [
        | inl opaque ↦ subst IsOrdered (ok-injective (rw (read, opaque) at e)) o
        | inr menu ↦ menu_level-IsOrdered s s' (trim line) _ o (rw (read, menu) at e)
      ]
    ]

menu_lines-IsOrdered :
    (s s' : MenuState) (ls : List Text) → IsOrdered s → menu_lines s ls ≡ ok s' → IsOrdered s'
unfolding menu_lines
menu_lines-IsOrdered s s' [] o e = subst IsOrdered (ok-injective e) o
menu_lines-IsOrdered s s' (l ∷ ls) o e =
    let (s₁, line, rest) = bind-eq-ok (menu_line s l) _ e in
    menu_lines-IsOrdered s₁ s' ls (menu_line-IsOrdered s s₁ l o line) rest

close_menu-entries :
    (s : MenuState) (es : List GrubMenuEntry) → close_menu s ≡ ok es → s.entries ≡ es
unfolding close_menu
close_menu-entries s es e = elim (Bool-cases (ltb 0 s.opaque_depth || not (no_frames s.submenus))) [
  | inl unclosed ↦ absurd (cc (rw unclosed at e))
  | inr closed ↦ ok-injective (rw closed at e)
]

-- In a menu that was parsed, no two entries have the same path, so that a path chooses one entry.
pub parse_menu_entries-DistinctPaths :
    (cfg : Text) (es : List GrubMenuEntry) → parse_menu_entries cfg ≡ ok es → DistinctPaths es
unfolding parse_menu_entries
parse_menu_entries-DistinctPaths cfg es e =
    let (s, read, closed) = bind-eq-ok (menu_lines no_menu (lines cfg)) _ e in
    let ordered : IsOrdered s =
      menu_lines-IsOrdered no_menu s (lines cfg)
        (record { counted = tt; earlier = tt; distinct = tt }) read in
    subst DistinctPaths (close_menu-entries s es closed) ordered.distinct
