-- ===== src/Text/Words.antt =====
-- `split_whitespace`: what its words are, and joined words split again.
use boot_control.Prelude.{
  ℕ, true, false, Bool-cases, List, [], ◌∷◌, ◌++◌, ◌≡◌, ◌≢◌, refl, ap, ◌∙◌, All, All-append,
  append_assoc, append-nil, inl, inr,
}
use boot_control.Text.{Text, is_whitespace, flush_word, words_from, split_whitespace, join}

-- A text without white space, and not empty.
abbrev pub IsWord : Text → Type 0
IsWord w = (w ≢ []) × All (λ (c : ℕ). is_whitespace c ≡ false) w

words_from-whitespace :
    (word rest : Text) (c : ℕ)
    → is_whitespace c ≡ true
    → words_from word (c ∷ rest) ≡ flush_word word (words_from [] rest)
unfolding words_from
words_from-whitespace word rest c h = rw (words_from, h) refl

words_from-append :
    (word w rest : Text)
    → All (λ (c : ℕ). is_whitespace c ≡ false) w
    → words_from word (w ++ rest) ≡ words_from (word ++ w) rest
unfolding words_from
words_from-append word [] rest h = rw (append-nil word) refl
words_from-append word (c ∷ w) rest h =
    rw (words_from, h.0) (words_from-append (word ++ (c ∷ [])) w rest h.1 ∙ rw append_assoc refl)

flush_word-word : (w : Text) (ws : List Text) → w ≢ [] → flush_word w ws ≡ w ∷ ws
flush_word-word [] ws ne = absurd (ne refl)
flush_word-word (c ∷ w) ws ne = refl

-- A word in front of white space is the first of the words.
first_word_lem :
    (w rest : Text) (c : ℕ)
    → IsWord w
    → is_whitespace c ≡ true
    → split_whitespace (w ++ (c ∷ rest)) ≡ w ∷ split_whitespace rest
first_word_lem w rest c word white =
    words_from-append [] w (c ∷ rest) word.1
    ∙ (words_from-whitespace w rest c white ∙ flush_word-word w _ word.0)

blank : is_whitespace b' ' ≡ true
unfolding is_whitespace
blank = refl

line_end : is_whitespace b'\n' ≡ true
unfolding is_whitespace
line_end = refl

pub split_whitespace-join :
    (w : Text) (ws : List Text)
    → All IsWord (w ∷ ws)
    → split_whitespace (join (b' ' ∷ []) (w ∷ ws) ++ (b'\n' ∷ [])) ≡ w ∷ ws
unfolding join words_from
split_whitespace-join w [] h = first_word_lem w [] b'\n' h.0 line_end
split_whitespace-join w (v ∷ ws) h = rw append_assoc (
    first_word_lem w _ b' ' h.0 blank
    ∙ ap (λ (l : List Text). w ∷ l) (split_whitespace-join v ws h.1))

flush_word-IsWord :
    (word : Text) (ws : List Text)
    → All (λ (c : ℕ). is_whitespace c ≡ false) word
    → All IsWord ws
    → All IsWord (flush_word word ws)
flush_word-IsWord [] ws dark h = h
flush_word-IsWord (c ∷ word) ws dark h = ((λ e. cc, dark), h)

words_from-IsWord :
    (word s : Text) → All (λ (c : ℕ). is_whitespace c ≡ false) word → All IsWord (words_from word s)
unfolding words_from
words_from-IsWord word [] dark = flush_word-IsWord word [] dark tt
words_from-IsWord word (c ∷ s) dark = elim (Bool-cases (is_whitespace c)) [
  | inl white ↦ rw (words_from, white) (flush_word-IsWord word _ dark (words_from-IsWord [] s tt))
  | inr more ↦
      rw (words_from, more)
        (words_from-IsWord (word ++ (c ∷ [])) s (All-append _ word (c ∷ []) dark (more, tt)))
]

pub split_whitespace-IsWord : (s : Text) → All IsWord (split_whitespace s)
split_whitespace-IsWord s = words_from-IsWord [] s tt
