-- ===== src/Strings/Words/Laws.antt =====
-- `Fields` and `TrimSpace` on texts that are put together of words.
use Prim.Native.Char.{Char}
use Prim.Native.String.{String, [], ◌∷◌}
use text.Mathlib.TextLemmas.{cons-append, nil-append, append-nil, append_assoc}
use the_score.Base.{
  true, false, List, ◌==◌, ◌≡◌, ◌≢◌, refl, sym, ◌∙◌, ap, arith, eq_iff, if◌then◌else◌, Bool-cases,
  inl, inr, map,
}
use the_score.Strings.Ops.{◌⧺◌}
use the_score.Strings.Words.{is_space, trim_left, trim_right, trim_space, trim, fields_from, fields}

abbrev pub AllChars : (Char → Type 0) → String → Type 0
AllChars P [] = Unit
AllChars P (c ∷ s) = P c × AllChars P s

abbrev pub NoSpace : String → Type 0
NoSpace s = AllChars (λ c. is_space c ≡ false) s

abbrev pub IsWord : String → Type 0
IsWord s = (s ≢ "") × NoSpace s

abbrev pub IsGap : String → Type 0
IsGap s = AllChars (λ c. c ≡ " ") s

blank : is_space " " ≡ true
unfolding is_space
blank = refl

-- A round of `Fields` on a space, and on another character.
fields_from_space :
    (word s : String) (c : Char)
    → is_space c ≡ true
    → fields_from word (c ∷ s)
      ≡ (if word == "" then fields_from "" s else List.◌∷◌ word (fields_from "" s))
unfolding fields_from
fields_from_space word s c h = rw (fields_from, h) refl

fields_from_other :
    (word s : String) (c : Char)
    → is_space c ≡ false
    → fields_from word (c ∷ s) ≡ fields_from (word ⧺ (c ∷ [])) s
unfolding fields_from
fields_from_other word s c h = rw (fields_from, h) refl

pub cons_assoc : (word w : String) (c : Char) → (word ⧺ (c ∷ [])) ⧺ w ≡ word ⧺ (c ∷ w)
cons_assoc word w c =
    append_assoc word (c ∷ []) w
    ∙ ap (λ r. word ⧺ r) (cons-append c [] w ∙ ap (λ r. c ∷ r) (nil-append w))

fields_from-word :
    (word w s : String) → NoSpace w → fields_from word (w ⧺ s) ≡ fields_from (word ⧺ w) s
fields_from-word word [] s h =
    ap (fields_from word) (nil-append s) ∙ ap (λ p. fields_from p s) (sym (append-nil word))
fields_from-word word (c ∷ w) s h =
    ap (fields_from word) (cons-append c w s)
    ∙ fields_from_other word (w ⧺ s) c h.0
    ∙ fields_from-word (word ⧺ (c ∷ [])) w s h.1
    ∙ ap (λ p. fields_from p s) (cons_assoc word w c)

IsGap-space : (c : Char) → c ≡ " " → is_space c ≡ true
IsGap-space c e = ap is_space e ∙ blank

fields_from-gap : (g s : String) → IsGap g → fields_from "" (g ⧺ s) ≡ fields_from "" s
fields_from-gap [] s h = ap (fields_from "") (nil-append s)
fields_from-gap (c ∷ g) s h =
    ap (fields_from "") (cons-append c g s)
    ∙ fields_from_space "" (g ⧺ s) c (IsGap-space c h.0)
    ∙ fields_from-gap g s h.1

fields_from-end :
    (word g s : String)
    → word ≢ ""
    → g ≢ ""
    → IsGap g
    → fields_from word (g ⧺ s) ≡ List.◌∷◌ word (fields_from "" s)
fields_from-end word [] s named there h = absurd (there refl)
fields_from-end word (c ∷ g) s named there h =
    let named' : (word == "") ≡ false = ground (arith, eq_iff word "") in
    ap (fields_from word) (cons-append c g s)
    ∙ fields_from_space word (g ⧺ s) c (IsGap-space c h.0)
    ∙ rw named' (ap (λ r. List.◌∷◌ word r) (fields_from-gap g s h.1))

fields-trim_left : (s : String) → fields_from "" (trim_left is_space s) ≡ fields_from "" s
unfolding trim_left
fields-trim_left [] = refl
fields-trim_left (c ∷ s) = elim (Bool-cases (is_space c)) [
  | inl space ↦ rw space (fields-trim_left s ∙ sym (fields_from_space "" s c space))
  | inr other ↦ rw other refl
]

fields_from_nil :
    (word : String) → fields_from word [] ≡ (if word == "" then List.[] else List.◌∷◌ word List.[])
unfolding fields_from
fields_from_nil word = refl

fields-trim_right :
    (word s : String) → fields_from word (trim_right is_space s) ≡ fields_from word s
unfolding trim_right
fields-trim_right word [] = refl
fields-trim_right word (c ∷ s) =
    let left = trim_right is_space s in
    let later = fields-trim_right "" s in
    let ended = λ (r : List String). if word == "" then r else List.◌∷◌ word r in
    elim (Bool-cases (is_space c)) [
      | inr other ↦ rw other (
          fields_from_other word left c other
          ∙ fields-trim_right (word ⧺ (c ∷ [])) s
          ∙ sym (fields_from_other word s c other))
      | inl space ↦ elim (Bool-cases (left == "")) [
        | inl bare ↦
            let none_left : fields_from "" s ≡ List.[] =
              sym later ∙ ap (fields_from "") ((eq_iff left "").0 bare) ∙ fields_from_nil "" in
            rw (space, bare)
              (fields_from_nil word
                ∙ ap ended (sym none_left)
                ∙ sym (fields_from_space word s c space))
        | inr more ↦
            rw (space, more)
              (fields_from_space word left c space
                ∙ ap ended later
                ∙ sym (fields_from_space word s c space))
      ]
    ]

pub fields-trim_space : (s : String) → fields (trim_space s) ≡ fields s
unfolding fields trim_space trim
fields-trim_space s = fields-trim_right "" (trim_left is_space s) ∙ fields-trim_left s

-- Words with a gap behind each, behind a gap.
abbrev pub Spaced : Type 0
Spaced = List (String × String)

abbrev pub spaced : String → Spaced → String
spaced lead List.[] = lead
spaced lead (List.◌∷◌ (word, gap) rest) = lead ⧺ word ⧺ spaced gap rest

-- The gaps are not empty, but for the last one.
abbrev pub IsSpaced : Spaced → Type 0
IsSpaced List.[] = Unit
IsSpaced (List.◌∷◌ (word, gap) List.[]) = IsWord word × IsGap gap
IsSpaced (List.◌∷◌ (word, gap) (List.◌∷◌ next rest)) =
    IsWord word × IsGap gap × (gap ≢ "") × IsSpaced (List.◌∷◌ next rest)

abbrev pub words_of : Spaced → List String
words_of ws = map (λ w. w.0) ws

fields_from-last :
    (word g : String) → word ≢ "" → IsGap g → fields_from word g ≡ List.◌∷◌ word List.[]
fields_from-last word g named h = elim (Bool-cases (g == "")) [
  | inl bare ↦
      let named' : (word == "") ≡ false = ground (arith, eq_iff word "") in
      ap (fields_from word) ((eq_iff g "").0 bare) ∙ fields_from_nil word ∙ rw named' refl
  | inr more ↦
      let there : g ≢ "" = ground (arith, eq_iff g "") in
      ap (fields_from word) (sym (append-nil g))
      ∙ fields_from-end word g "" named there h
      ∙ ap (λ r. List.◌∷◌ word r) (fields_from_nil "")
]

-- A gap and a word behind it.
fields_from-gap-word :
    (gap word s : String)
    → IsGap gap
    → NoSpace word
    → fields_from "" (gap ⧺ word ⧺ s) ≡ fields_from word s
fields_from-gap-word gap word s h v =
    fields_from-gap gap (word ⧺ s) h
    ∙ fields_from-word "" word s v
    ∙ ap (λ p. fields_from p s) (nil-append word)

fields_from-spaced :
    (gap : String) (ws : Spaced)
    → IsGap gap
    → IsSpaced ws
    → fields_from "" (spaced gap ws) ≡ words_of ws
fields_from-spaced gap List.[] h v =
    ap (fields_from "") (sym (append-nil gap)) ∙ fields_from-gap gap "" h ∙ fields_from_nil ""
fields_from-spaced gap (List.◌∷◌ (word, after) List.[]) h v =
    fields_from-gap-word gap word after h v.0.1 ∙ fields_from-last word after v.0.0 v.1
fields_from-spaced gap (List.◌∷◌ (word, after) (List.◌∷◌ next rest)) h v =
    let tail = next.0 ⧺ spaced next.1 rest in
    fields_from-gap-word gap word (after ⧺ tail) h v.0.1
    ∙ fields_from-end word after tail v.0.0 v.2 v.1
    ∙ ap (λ r. List.◌∷◌ word r)
        (ap (fields_from "") (sym (nil-append tail))
          ∙ fields_from-spaced "" (List.◌∷◌ next rest) tt v.3)

pub fields-spaced :
    (gap : String) (ws : Spaced)
    → IsGap gap
    → IsSpaced ws
    → fields (trim_space (spaced gap ws)) ≡ words_of ws
unfolding fields
fields-spaced gap ws h v = fields-trim_space (spaced gap ws) ∙ fields_from-spaced gap ws h v

pub fields_nil : fields "" ≡ List.[]
unfolding fields
fields_nil = fields_from_nil ""
