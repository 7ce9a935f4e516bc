-- ===== src/SystemdBootManager/Told.antt =====
-- crates/daemon/src/systemd_boot_manager.rs: the lines of loader.conf that tell a key.
use boot_control.Prelude.{
  ℕ, true, false, [], ◌∷◌, ◌++◌, ◌≡◌, ◌≢◌, refl, ap, sym, ◌∙◌, arith, All, Bool-cases, inl, inr,
  ◌↔◌, subst,
}
use boot_control.Text.{
  Text, codes, is_whitespace, is_empty, trim_start, starts_with, splitn_2, text_eq, to_lowercase,
  is_ascii, ascii_lower,
}
use boot_control.Text.Equality.{text_eq_iff}
use boot_control.SystemdBootManager.{has_key}

-- Behind white space, the line begins with a word that is the key in lower case, and no comment.
pub record Tells (unicode : Text → Text) (key line : Text) : Type 0 where
  pub word : Text
  pub rest : Text
  pub split : trim_start line ≡ word ++ rest
  pub dark : All (λ (c : ℕ). is_whitespace c ≡ false) word
  pub ends : (c : ℕ) (cs : Text) → rest ≡ c ∷ cs → is_whitespace c ≡ true
  pub named : to_lowercase unicode word ≡ key
  pub no_comment : (r : Text) → word ≢ b'#' ∷ r

record Splits (s word : Text) : Type 0 where
  rest : Text
  split : s ≡ word ++ rest
  dark : All (λ (c : ℕ). is_whitespace c ≡ false) word
  ends : (c : ℕ) (cs : Text) → rest ≡ c ∷ cs → is_whitespace c ≡ true

splitn_2-Splits : (s : Text) → Splits s (splitn_2 is_whitespace s).0
unfolding splitn_2
splitn_2-Splits [] = record { rest = []; split = refl; dark = tt; ends = λ c cs e. cc }
splitn_2-Splits (c ∷ cs) = elim (Bool-cases (is_whitespace c)) [
  | inl white ↦ rw white (record {
    rest = c ∷ cs;
    split = refl;
    dark = tt;
    ends = λ d ds e.
        let same : c ≡ d = ground arith in subst (λ (x : ℕ). is_whitespace x ≡ true) same white;
  })
  | inr dark' ↦
      let more = splitn_2-Splits cs in
      rw dark' (record {
        rest = more.rest;
        split = ap (λ (t : Text). c ∷ t) more.split;
        dark = (dark', more.dark);
        ends = more.ends;
      })
]

splitn_2-again :
    (word rest : Text)
    → All (λ (c : ℕ). is_whitespace c ≡ false) word
    → ((c : ℕ) (cs : Text) → rest ≡ c ∷ cs → is_whitespace c ≡ true)
    → (splitn_2 is_whitespace (word ++ rest)).0 ≡ word
unfolding splitn_2
splitn_2-again [] [] dark ends = refl
splitn_2-again [] (c ∷ cs) dark ends = rw (ends c cs refl) refl
splitn_2-again (c ∷ word) rest dark ends =
    rw (dark.0) (ap (λ (t : Text). c ∷ t) (splitn_2-again word rest dark.1 ends))

comment-head : (s : Text) → starts_with (codes "#") s ≡ true → (r : Text) × (s ≡ b'#' ∷ r)
unfolding starts_with codes
comment-head [] h = cc
comment-head (c ∷ cs) h = (cs, ground arith)

head-comment : (r : Text) → starts_with (codes "#") (b'#' ∷ r) ≡ true
unfolding starts_with codes
head-comment r = refl

module _ (unicode : Text → Text) (key : Text) (ne : key ≢ []) where
  filled : (word : Text) → to_lowercase unicode word ≡ key → word ≢ []
  unfolding to_lowercase is_ascii ascii_lower
  filled [] named e = ne (sym named)
  filled (c ∷ cs) named e = cc

  word_filled : (word rest : Text) → word ≢ [] → is_empty (word ++ rest) ≡ false
  word_filled [] rest h = absurd (h refl)
  word_filled (c ∷ cs) rest h = refl

  word-comment :
      (word rest r : Text) → word ≢ [] → word ++ rest ≡ b'#' ∷ r → (r' : Text) × (word ≡ b'#' ∷ r')
  word-comment [] rest r h e = absurd (h refl)
  word-comment (c ∷ cs) rest r h e = (cs, ground arith)

  has_key-Tells : (line : Text) → has_key unicode key line ≡ true → Tells unicode key line
  unfolding has_key
  has_key-Tells line h =
      let t = trim_start line in
      let s = splitn_2-Splits t in
      let plain : starts_with (codes "#") t ≡ false = ground arith in
      let same : text_eq (to_lowercase unicode (splitn_2 is_whitespace t).0) key ≡ true =
        ground arith in
      record {
        word = (splitn_2 is_whitespace t).0;
        rest = s.rest;
        split = s.split;
        dark = s.dark;
        ends = s.ends;
        named = (text_eq_iff _ key).0 same;
        no_comment = λ r e.
            let head : t ≡ b'#' ∷ (r ++ s.rest) = s.split ∙ ap (λ (x : Text). x ++ s.rest) e in
            cc (plain, head, head-comment (r ++ s.rest));
      }

  Tells-has_key : (line : Text) → Tells unicode key line → has_key unicode key line ≡ true
  unfolding has_key
  Tells-has_key line t =
      let full = filled t.word t.named in
      let again = splitn_2-again t.word t.rest t.dark t.ends in
      elim (Bool-cases (starts_with (codes "#") (trim_start line))) [
        | inl comment ↦
            let (r, e) = comment-head (trim_start line) comment in
            let (r', bad) = word-comment t.word t.rest r full (sym t.split ∙ e) in
            absurd (t.no_comment r' bad)
        | inr plain ↦
            let named : text_eq (to_lowercase unicode (splitn_2 is_whitespace (trim_start line)).0)
                  key
                ≡ true =
              (text_eq_iff _ key).1 (
                ap (λ (x : Text). to_lowercase unicode (splitn_2 is_whitespace x).0) t.split
                ∙ (ap (to_lowercase unicode) again ∙ t.named)) in
            let there : is_empty (trim_start line) ≡ false =
              ap is_empty t.split ∙ word_filled t.word t.rest full in
            rw plain (rw there (rw named refl))
      ]

  -- The test of the loop says whether the line tells the key.
  pub has_key_iff : (line : Text) → (has_key unicode key line ≡ true) ↔ Tells unicode key line
  has_key_iff line = (has_key-Tells line, Tells-has_key line)
