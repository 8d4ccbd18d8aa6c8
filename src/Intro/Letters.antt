-- ===== src/Intro/Letters.antt =====
-- The animated letters of a title (`renderAnimatedLine` of
-- frontend/src/components/IntroLanding.jsx). A text is the list of its code points.
use raft_visualizer.Prelude.{
  ℕ, suc, ◌+◌, ◌*◌, ◌≡◌, refl, sym, ap, ◌∙◌, inl, inr, Bool, true, false, ◌&&◌, ◌||◌, List, [], ◌∷◌,
  ◌++◌, append_assoc, arith, any, leb, length, string_eq, Bool-cases,
}
use raft_visualizer.Fault.{is_space}

-- A part of `text.split(/(\s+)/)`: the words and the runs of spaces between them.
pub data Token : Type 0 where
  space word : List ℕ → Token

-- `in_space` tells whether the part that is being read, `part`, is a run of spaces. The first and
-- the last part are words, which may be empty.
abbrev pub tokens : Bool → List ℕ → List ℕ → List Token
tokens true part [] = space part ∷ word [] ∷ []
tokens false part [] = word part ∷ []
tokens in_space part (c ∷ cs) = elim (is_space c) [
  | true ↦ elim in_space [
    | true ↦ tokens true (part ++ c ∷ []) cs
    | false ↦ word part ∷ tokens true (c ∷ []) cs
  ]
  | false ↦ elim in_space [
    | true ↦ space part ∷ tokens false (c ∷ []) cs
    | false ↦ tokens false (part ++ c ∷ []) cs
  ]
]

abbrev pub split : List ℕ → List Token
split text = tokens false [] text

-- `/[A-Za-z0-9]/.test(token)`
abbrev pub is_alphanumeric : ℕ → Bool
is_alphanumeric c = (leb 65 c && leb c 90) || ((leb 97 c && leb c 122) || (leb 48 c && leb c 57))

-- A letter with its delay in milliseconds.
pub record Letter : Type 0 where
  pub char : ℕ
  pub is_shown : Bool
  pub delay : ℕ

pub data Span : Type 0 where
  space_span : List ℕ → Span
  word_span : (is_latin : Bool) → List Letter → Span

abbrev pub letters : ℕ → Bool → ℕ → List ℕ → List Letter
letters base_delay is_shown offset [] = []
letters base_delay is_shown offset (c ∷ cs) =
    record { char = c; is_shown = is_shown; delay = base_delay + offset * 30 }
    ∷ letters base_delay is_shown (suc offset) cs

-- The loop over the tokens.
abbrev pub spans : ℕ → Bool → ℕ → List Token → List Span
spans base_delay is_shown offset [] = []
spans base_delay is_shown offset (space cs ∷ ts) =
    space_span cs ∷ spans base_delay is_shown offset ts
spans base_delay is_shown offset (word cs ∷ ts) =
    word_span (any is_alphanumeric cs) (letters base_delay is_shown offset cs)
    ∷ spans base_delay is_shown (offset + length cs) ts

unfoldable pub render_animated_line : List ℕ → ℕ → Bool → List Span
render_animated_line text base_delay is_shown = spans base_delay is_shown 0 (split text)

-- The letters of a line, in order.
abbrev pub all_letters : List Span → List Letter
all_letters [] = []
all_letters (space_span cs ∷ ss) = all_letters ss
all_letters (word_span is_latin ls ∷ ss) = ls ++ all_letters ss

-- The characters that are not spaces.
abbrev pub visible : List ℕ → List ℕ
visible [] = []
visible (c ∷ cs) = elim (is_space c) [ true ↦ visible cs | false ↦ c ∷ visible cs ]

letters-append :
    (base : ℕ) (shown : Bool) (offset : ℕ) (a b : List ℕ)
    → letters base shown offset (a ++ b)
      ≡ letters base shown offset a ++ letters base shown (offset + length a) b
letters-append base shown offset [] b = ap (λ o. letters base shown o b) (omega arith)
letters-append base shown offset (c ∷ a) b =
    ap (record { char = c; is_shown = shown; delay = base + offset * 30 } ∷◌) (
      letters-append base shown (suc offset) a b
      ∙ ap (λ o. letters base shown (suc offset) a ++ letters base shown o b) (omega arith))

-- The words of the tokens, one after the other.
abbrev words : List Token → List ℕ
words [] = []
words (space cs ∷ ts) = words ts
words (word cs ∷ ts) = cs ++ words ts

all_letters-spans :
    (base : ℕ) (shown : Bool) (offset : ℕ) (ts : List Token)
    → all_letters (spans base shown offset ts) ≡ letters base shown offset (words ts)
all_letters-spans base shown offset [] = refl
all_letters-spans base shown offset (space cs ∷ ts) = all_letters-spans base shown offset ts
all_letters-spans base shown offset (word cs ∷ ts) =
    ap (letters base shown offset cs ++◌) (all_letters-spans base shown (offset + length cs) ts)
    ∙ sym (letters-append base shown offset cs (words ts))

words-tokens :
    (in_space : Bool) (part cs : List ℕ)
    → words (tokens in_space part cs)
      ≡ elim in_space [ true ↦ visible cs | false ↦ part ++ visible cs ]
words-tokens true part [] = refl
words-tokens false part [] = refl
words-tokens true part (c ∷ cs) = elim (Bool-cases (is_space c)) [
  | inl white ↦ rw (white, tokens, visible) (words-tokens true (part ++ c ∷ []) cs)
  | inr black ↦ rw (black, tokens, visible) (words-tokens false (c ∷ []) cs)
]
words-tokens false part (c ∷ cs) = elim (Bool-cases (is_space c)) [
  | inl white ↦ rw (white, tokens, visible) (ap (part ++◌) (words-tokens true (c ∷ []) cs))
  | inr black ↦
      rw (black, tokens, visible)
        (words-tokens false (part ++ c ∷ []) cs ∙ append_assoc part (c ∷ []) (visible cs))
]

-- The letters of an animated line are the characters of the text but its spaces, in order, each 30
-- milliseconds after the one before it, across the words.
pub render_animated_line-letters :
    (text : List ℕ) (base_delay : ℕ) (is_shown : Bool)
    → all_letters (render_animated_line text base_delay is_shown)
      ≡ letters base_delay is_shown 0 (visible text)
unfolding render_animated_line
render_animated_line-letters text base_delay is_shown =
    all_letters-spans base_delay is_shown 0 (split text)
    ∙ ap (letters base_delay is_shown 0) (words-tokens false [] text)
