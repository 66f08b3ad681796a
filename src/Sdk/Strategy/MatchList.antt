-- ===== src/Sdk/Strategy/MatchList.antt =====
-- totoggle_go/internal/strategy/{matchlist,presence}.go: a list of accepted values, and presence.
use to_toggle.Prelude.{
  ℕ, ◌≡◌, refl, ◌↔◌, sym, inl, inr, ◌⊎◌, Bool, true, false, ◌&&◌, ◌||◌, not, List, [], ◌∷◌, Text,
  text_eq, text_eq_iff, is_empty, trim_space, contains_char, split, join, split-join, All, In,
  if◌then◌else◌,
}
use to_toggle.Sdk.Rule.{ActivationRule}

abbrev pub comma : ℕ
comma = b','

-- The loop of MatchListEvaluator.Evaluate over the entries.
unfoldable pub matches_entry : Text → List Text → Bool
matches_entry key [] = false
matches_entry key (e ∷ es) = text_eq (trim_space e) key || matches_entry key es

-- MatchListEvaluator.Evaluate
unfoldable pub match_list : ActivationRule → Text → Bool → Bool
unfolding matches_entry
match_list rule key has_key =
    if not has_key
    then false
    else if is_empty (trim_space rule.value)
    then false
    else matches_entry key (split comma rule.value)

-- PresenceEvaluator.Evaluate
unfoldable pub presence : ActivationRule → Text → Bool → Bool
presence rule key has_key = has_key && not (is_empty (trim_space key))

-- An entry as an administrator lists it: no comma in it, and no space round it.
abbrev pub IsEntry : Text → Type 0
IsEntry w = (contains_char comma w ≡ false) × (trim_space w ≡ w)

matches_entry_iff :
    (key : Text) (ws : List Text) → All IsEntry ws → (matches_entry key ws ≡ true) ↔ In key ws
unfolding matches_entry
matches_entry_iff key [] h = ((λ e. cc), (λ m. elim m [ ]))
matches_entry_iff key (w ∷ ws) h =
    let ih = matches_entry_iff key ws h.1 in
    let here = text_eq_iff w key in
    rw h.0.1 (
      (λ e. or_left (text_eq w key) (matches_entry key ws) e here.0 ih.0),
      (λ m. elim m [
        | inl same ↦ rw (here.1 (sym same))
        | inr rest ↦ rw (ih.1 rest) (or_true (text_eq w key))
      ]),
    )
  where
    or_true : (b : Bool) → (b || true) ≡ true
    or_true true = refl
    or_true false = refl

    or_left :
        (a b : Bool)
        → (a || b) ≡ true
        → (a ≡ true → w ≡ key)
        → (b ≡ true → In key ws)
        → (key ≡ w) ⊎ In key ws
    or_left true b e f g = inl (sym (f refl))
    or_left false b e f g = inr (g e)

-- A rule whose value is a list of entries joined by commas accepts exactly the listed keys.
pub match_list-join :
    (rule : ActivationRule) (w : Text) (ws : List Text) (key : Text)
    → rule.value ≡ join comma (w ∷ ws)
    → All IsEntry (w ∷ ws)
    → is_empty (trim_space rule.value) ≡ false
    → (match_list rule key true ≡ true) ↔ In key (w ∷ ws)
unfolding match_list
match_list-join rule w ws key e h nonblank =
    rw (nonblank, e, split-join comma w ws (no_commas (w ∷ ws) h))
      (matches_entry_iff key (w ∷ ws) h)
  where
    no_commas : (l : List Text) → All IsEntry l → All (λ v. contains_char comma v ≡ false) l
    no_commas [] h' = tt
    no_commas (v ∷ l) h' = (h'.0.0, no_commas l h'.1)
