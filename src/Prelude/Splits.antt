-- ===== src/Prelude/Splits.antt =====
-- Splitting a text at a separator and joining the parts again.
use Prim.Native.Nat.{ℕ}
use mathlib.Core.Path.{◌≡◌, refl, ap, ◌∙◌, subst}
use mathlib.Core.Logic.{inl, inr}
use mathlib.Core.Bool.{false}
use mathlib.Core.List.{List, [], ◌∷◌, ◌++◌}
use native.Mathlib.Omega.{arith}
use to_toggle.Prelude.Tests.{◌==◌, ==_iff, Bool-cases}
use to_toggle.Prelude.Lists.{All}
use to_toggle.Prelude.Texts.{Text, cons_head, split, join, contains_char}

-- `split` gives at least one part.
pub split-cons : (d : ℕ) (s : Text) → (w : Text) × (ws : List Text) × (split d s ≡ w ∷ ws)
unfolding split
split-cons d [] = ([], [], refl)
split-cons d (c ∷ s) =
    let (w, ws, e) = split-cons d s in
    elim (Bool-cases (c == d)) [
      | inl at_separator ↦ ([], split d s, rw at_separator)
      | inr inside ↦ (c ∷ w, ws, rw (inside, e))
    ]

pub join-cons_head :
    (d c : ℕ) (w : Text) (ws : List Text) → join d (cons_head c (w ∷ ws)) ≡ c ∷ join d (w ∷ ws)
unfolding join
join-cons_head d c w [] = refl
join-cons_head d c w (v ∷ ws) = refl

-- Joining the parts of a text gives the text back.
pub join-split : (d : ℕ) (s : Text) → join d (split d s) ≡ s
unfolding split join
join-split d [] = refl
join-split d (c ∷ s) =
    let (w, ws, e) = split-cons d s in
    let back : join d (w ∷ ws) ≡ s = rw e at (join-split d s) in
    elim (Bool-cases (c == d)) [
      | inl at_separator ↦ rw (at_separator, e) (ground (arith, back, ==_iff c d))
      | inr inside ↦ rw (inside, e) (join-cons_head d c w ws ∙ ap (λ t. c ∷ t) back)
    ]

-- A part that holds no separator, before a separator, is the first part.
pub split-append_separator :
    (d : ℕ) (w s : Text) → contains_char d w ≡ false → split d (w ++ (d ∷ s)) ≡ w ∷ split d s
unfolding split contains_char
split-append_separator d [] s h = ground arith
split-append_separator d (c ∷ w) s h =
    let ih = split-append_separator d w s (ground arith) in
    let inside : (c == d) ≡ false = ground arith in rw (inside, ih)

split_single : (d : ℕ) (w : Text) → contains_char d w ≡ false → split d w ≡ w ∷ []
unfolding split contains_char
split_single d [] h = refl
split_single d (c ∷ w) h =
    let ih = split_single d w (ground arith) in
    let inside : (c == d) ≡ false = ground arith in rw (inside, ih)

-- Splitting what was joined gives the parts back, if none of them holds the separator.
pub split-join :
    (d : ℕ) (w : Text) (ws : List Text)
    → All (λ v. contains_char d v ≡ false) (w ∷ ws)
    → split d (join d (w ∷ ws)) ≡ w ∷ ws
unfolding join
split-join d w [] h = split_single d w h.0
split-join d w (v ∷ ws) h =
    split-append_separator d w (join d (v ∷ ws)) h.0 ∙ ap (λ t. w ∷ t) (split-join d v ws h.1)

-- A text splits at a separator into what the two sides split into.
pub split-append : (d : ℕ) (s t : Text) → split d (s ++ (d ∷ t)) ≡ split d s ++ split d t
unfolding split
split-append d [] t = ground arith
split-append d (c ∷ s) t =
    let (w, ws, e) = split-cons d s in
    let ih : split d (s ++ (d ∷ t)) ≡ w ∷ (ws ++ split d t) = rw e at (split-append d s t) in
    elim (Bool-cases (c == d)) [
      | inl at_separator ↦ rw (at_separator, ih, e)
      | inr inside ↦ rw (inside, ih, e)
    ]

-- No part holds the separator.
pub split-contains_char : (d : ℕ) (s : Text) → All (λ v. contains_char d v ≡ false) (split d s)
unfolding split contains_char
split-contains_char d [] = (refl, tt)
split-contains_char d (c ∷ s) =
    let (w, ws, e) = split-cons d s in
    let (p, ps) = subst (All (λ v. contains_char d v ≡ false)) e (split-contains_char d s) in
    elim (Bool-cases (c == d)) [
      | inl at_separator ↦ rw at_separator (refl, split-contains_char d s)
      | inr inside ↦ rw (inside, e) (ground (arith, p, inside), ps)
    ]
