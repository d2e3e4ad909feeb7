-- ===== src/Protocol/PathRules/Runs.antt =====
-- What the parts of an expression take of a text: `star`, `plus`, `step` and `at_end`.
use Prim.Native.Char.{Char}
use text.Mathlib.TextLemmas.{nil-append, cons-append, cons-ne-nil}
use text.Mathlib.TextEquality.{Char-path}
use keystonemiddleware.Base.{
  ◌≡◌, refl, sym, ap, ◌∙◌, ◌≢◌, ◌⊎◌, ◌↔◌, inl, inr, ℕ, String, ◌<>◌, Bool, true, false, has_char,
  cons, arith, Bool-cases,
}
use keystonemiddleware.Protocol.PathRules.Regex.{star, plus, step, at_end}

pub star-true :
    (n : ℕ) (after : String → Bool) (s : String)
    → star n after s ≡ true
    → (front : String) × (rest : String) × (s ≡ front <> rest)
      × (has_char n front ≡ false)
      × (after rest ≡ true)
unfolding star has_char
star-true n after String.[] e = ("", "", sym (nil-append ""), refl, e)
star-true n after (String.◌∷◌ d s) e = elim (Bool-cases (after (String.◌∷◌ d s))) [
  | inl here ↦ ("", String.◌∷◌ d s, sym (nil-append _), refl, here)
  | inr later ↦
      let (front, rest, same, free, matched) = star-true n after s (ground arith) in
      (
        String.◌∷◌ d front,
        rest,
        ap (cons d) same ∙ sym (cons-append d front rest),
        ground arith,
        matched,
      )
]

pub star-append :
    (n : ℕ) (after : String → Bool) (front rest : String)
    → has_char n front ≡ false
    → after rest ≡ true
    → star n after (front <> rest) ≡ true
unfolding star has_char
star-append n after String.[] String.[] free matched = matched
star-append n after String.[] (String.◌∷◌ d s) free matched =
    rw (nil-append (cons d s), matched) refl
star-append n after (String.◌∷◌ d front) rest free matched =
    rw (cons-append d front rest)
      (ground (arith, star-append n after front rest (ground arith) matched))

pub plus-true :
    (n : ℕ) (after : String → Bool) (s : String)
    → plus n after s ≡ true
    → (front : String) × (rest : String) × (s ≡ front <> rest)
      × ((front ≢ "") × (has_char n front ≡ false))
      × (after rest ≡ true)
unfolding plus has_char
plus-true n after String.[] e = absurd (ground arith)
plus-true n after (String.◌∷◌ d s) e =
    let (front, rest, same, free, matched) = star-true n after s (ground arith) in
    (
      String.◌∷◌ d front,
      rest,
      ap (cons d) same ∙ sym (cons-append d front rest),
      (λ empty. cons-ne-nil d front empty, ground arith),
      matched,
    )

pub plus-append :
    (n : ℕ) (after : String → Bool) (front rest : String)
    → front ≢ ""
    → has_char n front ≡ false
    → after rest ≡ true
    → plus n after (front <> rest) ≡ true
unfolding plus has_char
plus-append n after String.[] rest some_text free matched = absurd (some_text refl)
plus-append n after (String.◌∷◌ d front) rest some_text free matched =
    rw (cons-append d front rest)
      (ground (arith, star-append n after front rest (ground arith) matched))

pub step-true :
    (c : Char) (after : String → Bool) (s : String)
    → step c after s ≡ true
    → (rest : String) × (s ≡ cons c "" <> rest) × (after rest ≡ true)
unfolding step
step-true c after String.[] e = absurd (ground arith)
step-true c after (String.◌∷◌ d s) e =
    let same : d ≡ c = Char-path d c (ground arith) in
    (
      s,
      ap (λ a. cons a s) same ∙ sym (cons-append c "" s ∙ ap (cons c) (nil-append s)),
      ground arith,
    )

pub step-append :
    (c : Char) (after : String → Bool) (rest : String)
    → after rest ≡ true
    → step c after (cons c "" <> rest) ≡ true
unfolding step
step-append c after rest matched = rw (cons-append c "" rest, nil-append rest) (ground arith)

pub at_end_iff : (s : String) → (at_end s ≡ true) ↔ ((s ≡ "") ⊎ (s ≡ "\n"))
unfolding at_end
at_end_iff s = (at_end-true s, at_end-both s)
  where
    at_end-true : (s : String) → at_end s ≡ true → (s ≡ "") ⊎ (s ≡ "\n")
    at_end-true String.[] e = inl refl
    at_end-true (String.◌∷◌ d String.[]) e =
        inr (ap (λ a. cons a "") (Char-path d "\n" (ground arith)))
    at_end-true (String.◌∷◌ d (String.◌∷◌ e s)) e' = absurd (ground arith)

    at_end-both : (s : String) → (s ≡ "") ⊎ (s ≡ "\n") → at_end s ≡ true
    at_end-both s (inl empty) = rw (empty) refl
    at_end-both s (inr feed) = rw (feed) refl
