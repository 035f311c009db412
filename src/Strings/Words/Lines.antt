-- ===== src/Strings/Words/Lines.antt =====
-- `Split` at the ends of lines.
use Prim.Native.Char.{Char, code}
use Prim.Native.String.{String, [], ◌∷◌}
use text.Mathlib.TextLemmas.{cons-append, nil-append, append-nil}
use the_score.Base.{false, List, All, ◌≡◌, refl, sym, ◌∙◌, ap, subst, arith, eqb, ◌++◌}
use the_score.Strings.Ops.{◌⧺◌}
use the_score.Strings.Words.{is_space, trim_left, trim_right, trim, trim_space, split_from, split}
use the_score.Strings.Words.Laws.{
  cons_assoc, AllChars, NoSpace, IsWord, IsGap, Spaced, spaced, IsSpaced,
}

abbrev pub NoBreak : String → Type 0
NoBreak s = AllChars (λ c. eqb (code c) b'\n' ≡ false) s

split_from_break :
    (part s : String) → split_from b'\n' part ("\n" ∷ s) ≡ List.◌∷◌ part (split_from b'\n' "" s)
unfolding split_from
split_from_break part s = refl

split_from_other :
    (part s : String) (c : Char)
    → eqb (code c) b'\n' ≡ false
    → split_from b'\n' part (c ∷ s) ≡ split_from b'\n' (part ⧺ (c ∷ [])) s
unfolding split_from
split_from_other part s c h = rw (split_from, h) refl

split_from-line :
    (part line s : String)
    → NoBreak line
    → split_from b'\n' part (line ⧺ ("\n" ∷ s)) ≡ List.◌∷◌ (part ⧺ line) (split_from b'\n' "" s)
split_from-line part [] s h =
    ap (split_from b'\n' part) (nil-append ("\n" ∷ s))
    ∙ split_from_break part s
    ∙ ap (λ p. List.◌∷◌ p (split_from b'\n' "" s)) (sym (append-nil part))
split_from-line part (d ∷ line) s h =
    ap (split_from b'\n' part) (cons-append d line ("\n" ∷ s))
    ∙ split_from_other part (line ⧺ ("\n" ∷ s)) d h.0
    ∙ split_from-line (part ⧺ (d ∷ [])) line s h.1
    ∙ ap (λ p. List.◌∷◌ p (split_from b'\n' "" s)) (cons_assoc part line d)

-- Lines, each with its end.
abbrev pub printed : List String → String
printed List.[] = ""
printed (List.◌∷◌ line rest) = line ⧺ ("\n" ∷ printed rest)

split_from_nil : split_from b'\n' "" "" ≡ List.◌∷◌ "" List.[]
unfolding split_from
split_from_nil = refl

pub split-printed :
    (rows : List String)
    → All NoBreak rows
    → split b'\n' (printed rows) ≡ rows ++ List.◌∷◌ "" List.[]
unfolding split
split-printed List.[] h = split_from_nil
split-printed (List.◌∷◌ line rest) h =
    split_from-line "" line (printed rest) h.0
    ∙ ap (λ p. List.◌∷◌ p (split_from b'\n' "" (printed rest))) (nil-append line)
    ∙ ap (λ r. List.◌∷◌ line r) (split-printed rest h.1)

AllChars-append :
    (P : Char → Type 0) (s t : String) → AllChars P s → AllChars P t → AllChars P (s ⧺ t)
AllChars-append P [] t h k = subst (AllChars P) (sym (nil-append t)) k
AllChars-append P (c ∷ s) t h k =
    subst (AllChars P) (sym (cons-append c s t)) (h.0, AllChars-append P s t h.1 k)

NoSpace-NoBreak : (s : String) → NoSpace s → NoBreak s
unfolding is_space
NoSpace-NoBreak [] h = tt
NoSpace-NoBreak (c ∷ s) h = (ground (arith, h.0), NoSpace-NoBreak s h.1)

IsGap-NoBreak : (s : String) → IsGap s → NoBreak s
IsGap-NoBreak [] h = tt
IsGap-NoBreak (c ∷ s) h = (ap (λ d. eqb (code d) b'\n') h.0, IsGap-NoBreak s h.1)

pub spaced-NoBreak :
    (gap : String) (ws : Spaced) → IsGap gap → IsSpaced ws → NoBreak (spaced gap ws)
spaced-NoBreak gap List.[] h v = IsGap-NoBreak gap h
spaced-NoBreak gap (List.◌∷◌ (word, after) List.[]) h v =
    AllChars-append _ gap (word ⧺ after) (IsGap-NoBreak gap h)
      (AllChars-append _ word after (NoSpace-NoBreak word v.0.1) (IsGap-NoBreak after v.1))
spaced-NoBreak gap (List.◌∷◌ (word, after) (List.◌∷◌ next rest)) h v =
    AllChars-append _ gap (word ⧺ spaced after (List.◌∷◌ next rest)) (IsGap-NoBreak gap h) (
      AllChars-append _ word (spaced after (List.◌∷◌ next rest)) (NoSpace-NoBreak word v.0.1)
        (spaced-NoBreak after (List.◌∷◌ next rest) v.1 v.3))

-- A word, and the end of its line.
trim_left-other : (c : Char) (s : String) → is_space c ≡ false → trim_left is_space (c ∷ s) ≡ c ∷ s
unfolding trim_left
trim_left-other c s h = rw h refl

trim_right-other :
    (c : Char) (s : String)
    → is_space c ≡ false
    → trim_right is_space (c ∷ s) ≡ c ∷ trim_right is_space s
unfolding trim_right
trim_right-other c s h = rw h refl

trim_right-break : (s : String) → NoSpace s → trim_right is_space (s ⧺ "\n") ≡ s
unfolding trim_right is_space
trim_right-break [] v = refl
trim_right-break (c ∷ s) v =
    ap (trim_right is_space) (cons-append c s "\n")
    ∙ trim_right-other c (s ⧺ "\n") v.0
    ∙ ap (λ r. c ∷ r) (trim_right-break s v.1)

pub trim_space-break : (s : String) → IsWord s → trim_space (s ⧺ "\n") ≡ s
unfolding trim_space trim
trim_space-break [] v = absurd (v.0 refl)
trim_space-break (c ∷ s) v =
    ap (λ r. trim_right is_space (trim_left is_space r)) (cons-append c s "\n")
    ∙ ap (trim_right is_space) (trim_left-other c (s ⧺ "\n") v.1.0 ∙ sym (cons-append c s "\n"))
    ∙ trim_right-break (c ∷ s) v.1
