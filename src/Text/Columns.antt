-- ===== src/Text/Columns.antt =====
-- Texts that consist of words between gaps of tabs and spaces, as the sources print records, and
-- what `split_whitespace`, `trim` and the other operations of Text.antt make of them.
use dnssec_tests.Base.{
  ℕ, Bool, true, false, not, ◌&&◌, List, [], ◌∷◌, ◌++◌, append-nil, append_assoc, ◌≡◌, ◌≢◌, refl,
  ap, ◌∙◌, subst, arith, All, All-append, Bool-cases, inl, inr, ◌⊎◌,
}
use dnssec_tests.Text.{Text, is_whitespace, flush, words_from, split_whitespace}

-- A text that `split_whitespace` keeps whole.
pub record IsWord (w : Text) : Type 0 where
  pub ne_nil : w ≢ []
  pub solid : All (λ c. is_whitespace c ≡ false) w

pub IsWord-append : (w s : Text) → IsWord w → All (λ c. is_whitespace c ≡ false) s → IsWord (w ++ s)
IsWord-append [] s h hs = absurd (h.ne_nil refl)
IsWord-append (c ∷ w) s h hs = record { ne_nil = cc; solid = All-append _ (c ∷ w) s h.solid hs }

-- Tabs and spaces.
abbrev pub IsBlank : ℕ → Type 0
IsBlank c = (c ≡ 9) ⊎ (c ≡ 32)

-- Words, each behind a gap.
pub data Tail : Text → List Text → Type 0 where
  done : Tail [] []
  more :
      {s : Text} {ws : List Text} (c : ℕ) (g w : Text)
      → IsBlank c
      → All IsBlank g
      → IsWord w
      → Tail s ws
      → Tail (c ∷ (g ++ (w ++ s))) (w ∷ ws)

-- A word, and words behind gaps.
pub data Row : Text → List Text → Type 0 where
  row : {s : Text} {ws : List Text} (w : Text) → IsWord w → Tail s ws → Row (w ++ s) (w ∷ ws)

is_whitespace-IsBlank : (c : ℕ) → IsBlank c → is_whitespace c ≡ true
unfolding is_whitespace
is_whitespace-IsBlank c h = ground arith

words_from-word :
    (w cur s : Text)
    → All (λ c. is_whitespace c ≡ false) w
    → words_from cur (w ++ s) ≡ words_from (cur ++ w) s
unfolding words_from
words_from-word [] cur s h = rw append-nil
words_from-word (c ∷ w) cur s h =
    rw (h.0, words_from) (words_from-word w (cur ++ c ∷ []) s h.1 ∙ rw append_assoc)

words_from-blank :
    (cur : Text) (c : ℕ) (s : Text)
    → IsBlank c
    → words_from cur (c ∷ s) ≡ flush cur (words_from [] s)
unfolding words_from
words_from-blank cur c s h = rw (is_whitespace-IsBlank c h, words_from)

flush-word : (w : Text) (ws : List Text) → w ≢ [] → flush w ws ≡ w ∷ ws
unfolding flush
flush-word [] ws h = absurd (h refl)
flush-word (c ∷ w) ws h = refl

words_from-gap : (g s : Text) → All IsBlank g → words_from [] (g ++ s) ≡ words_from [] s
unfolding flush
words_from-gap [] s h = refl
words_from-gap (c ∷ g) s h = words_from-blank [] c (g ++ s) h.0 ∙ words_from-gap g s h.1

words_from-Tail :
    {s : Text} {ws : List Text} (w : Text) → IsWord w → Tail s ws → words_from w s ≡ w ∷ ws
unfolding words_from
words_from-Tail w h done = flush-word w [] h.ne_nil
words_from-Tail w h (more {s} {ws} c g v b bs hv t) =
    words_from-blank w c _ b
    ∙ flush-word w _ h.ne_nil
    ∙ ap (λ vs. w ∷ vs)
        (words_from-gap g _ bs ∙ words_from-word v [] s hv.solid ∙ words_from-Tail v hv t)

-- The columns of a row are its words.
pub split_whitespace-Row : {s : Text} {ws : List Text} → Row s ws → split_whitespace s ≡ ws
unfolding split_whitespace
split_whitespace-Row (row {s} w h t) = words_from-word w [] s h.solid ∙ words_from-Tail w h t

-- Tails one after another.
pub Tail-append :
    {s t : Text} {ws vs : List Text} → Tail s ws → Tail t vs → Tail (s ++ t) (ws ++ vs)
Tail-append done u = u
Tail-append {t} (more {s} c g w b bs hw r) u =
    let e : (g ++ (w ++ s)) ++ t ≡ g ++ (w ++ (s ++ t)) = simp append_assoc in
    rw e (more c g w b bs hw (Tail-append r u))

pub Row-append : {s t : Text} {ws vs : List Text} → Row s ws → Tail t vs → Row (s ++ t) (ws ++ vs)
Row-append {t} (row {s} w h r) u = rw append_assoc (row w h (Tail-append r u))

flush-IsWord :
    (cur : Text) (ws : List Text)
    → All (λ c. is_whitespace c ≡ false) cur
    → All IsWord ws
    → All IsWord (flush cur ws)
unfolding flush
flush-IsWord [] ws h hs = hs
flush-IsWord (c ∷ cs) ws h hs = (record { ne_nil = cc; solid = h }, hs)

words_from-IsWord :
    (s cur : Text) → All (λ c. is_whitespace c ≡ false) cur → All IsWord (words_from cur s)
unfolding words_from
words_from-IsWord [] cur h = flush-IsWord cur [] h tt
words_from-IsWord (c ∷ s) cur h = elim (Bool-cases (is_whitespace c)) [
  | inl white ↦
      rw (white, words_from) (flush-IsWord cur (words_from [] s) h (words_from-IsWord s [] tt))
  | inr solid ↦
      rw (solid, words_from)
        (words_from-IsWord s (cur ++ c ∷ []) (All-append _ cur (c ∷ []) h (solid, tt)))
]

-- Every column of a text is a word.
pub split_whitespace-IsWord : (s : Text) → All IsWord (split_whitespace s)
unfolding split_whitespace
split_whitespace-IsWord s = words_from-IsWord s [] tt

-- A test for literals.
unfoldable pub is_word : Text → Bool
is_word [] = false
is_word (c ∷ []) = not (is_whitespace c)
is_word (c ∷ d ∷ w) = not (is_whitespace c) && is_word (d ∷ w)

pub is_word-IsWord : (w : Text) → is_word w ≡ true → IsWord w
unfolding is_word
is_word-IsWord [] h = cc
is_word-IsWord (c ∷ []) h = record { ne_nil = cc; solid = (ground arith, tt) }
is_word-IsWord (c ∷ d ∷ w) h =
    let r = is_word-IsWord (d ∷ w) (ground arith) in
    record { ne_nil = cc; solid = (ground arith, r.solid) }

-- A word behind a tab, a space or two spaces.
pub tab :
    {s : Text} {ws : List Text} (w : Text) → IsWord w → Tail s ws → Tail (9 ∷ (w ++ s)) (w ∷ ws)
tab w h t = more 9 [] w (inl refl) tt h t

pub space :
    {s : Text} {ws : List Text} (w : Text) → IsWord w → Tail s ws → Tail (32 ∷ (w ++ s)) (w ∷ ws)
space w h t = more 32 [] w (inr refl) tt h t

pub two_spaces :
    {s : Text} {ws : List Text} (w : Text)
    → IsWord w
    → Tail s ws
    → Tail (32 ∷ 32 ∷ (w ++ s)) (w ∷ ws)
two_spaces w h t = more 32 (32 ∷ []) w (inr refl) (inr refl, tt) h t

pub last_word : (w : Text) → IsWord w → Tail (32 ∷ w) (w ∷ [])
last_word w h = subst (λ s. Tail (32 ∷ s) (w ∷ [])) (append-nil w) (space w h done)
