-- ===== src/Sdk/Path/Ancestors.antt =====
-- What the ancestors of a path are: the texts that stand before one of its dots.
use to_toggle.Prelude.{
  ℕ, zero, suc, ◌-◌, ◌≡◌, refl, ap, ◌∙◌, inl, inr, Bool-cases, List, [], ◌∷◌, ◌++◌, map, Text,
  split, join, length, take, In, split-cons, join-cons_head, cons_head, ◌==◌, ==_iff, arith,
  if◌then◌else◌,
}
use to_toggle.Sdk.Path.{dot, FlagPath, append_ancestors, ancestor_paths}

abbrev put : ℕ → FlagPath → FlagPath
put c p = record { value = c ∷ p.value }

-- The parts of a path that stand before a dot, shortest first.
before_dots : Text → List FlagPath
before_dots [] = []
before_dots (c ∷ s) =
    let rest = map (put c) (before_dots s) in
    if c == dot then record { value = [] } ∷ rest else rest

append_ancestors-inside :
    (c rounds i : ℕ) (w : Text) (ws : List Text)
    → append_ancestors rounds (suc i) (cons_head c (w ∷ ws))
      ≡ map (put c) (append_ancestors rounds (suc i) (w ∷ ws))
unfolding append_ancestors
append_ancestors-inside c zero i w ws = refl
append_ancestors-inside c (suc rounds) i w ws =
    rw (append_ancestors-inside c rounds (suc i) w ws, join-cons_head dot c w (take i ws))

append_ancestors-dot :
    (rounds i : ℕ) (w : Text) (ws : List Text)
    → append_ancestors rounds (suc (suc i)) ([] ∷ w ∷ ws)
      ≡ map (put dot) (append_ancestors rounds (suc i) (w ∷ ws))
unfolding append_ancestors join
append_ancestors-dot zero i w ws = refl
append_ancestors-dot (suc rounds) i w ws = rw (append_ancestors-dot rounds (suc i) w ws)

gaps : List Text → List FlagPath
gaps segs = append_ancestors (length segs - 1) 1 segs

gaps-inside :
    (c : ℕ) (w : Text) (ws : List Text) → gaps (cons_head c (w ∷ ws)) ≡ map (put c) (gaps (w ∷ ws))
unfolding gaps
gaps-inside c w ws = append_ancestors-inside c (suc (length ws) - 1) zero w ws

gaps-dot :
    (w : Text) (ws : List Text)
    → gaps ([] ∷ w ∷ ws) ≡ record { value = [] } ∷ map (put dot) (gaps (w ∷ ws))
unfolding gaps
gaps-dot w ws =
    let rounds : suc (suc (length ws)) - 1 ≡ suc (suc (length ws) - 1) = omega arith in
    rw rounds (
      unfold append_ancestors join in
      ap (λ l. record { value = [] } ∷ l) (append_ancestors-dot (suc (length ws) - 1) zero w ws))

gaps-before_dots : (s : Text) → gaps (split dot s) ≡ before_dots s
unfolding before_dots split
gaps-before_dots [] = unfold gaps append_ancestors in refl
gaps-before_dots (c ∷ s) =
    let (w, ws, e) = split-cons dot s in
    let ih : gaps (w ∷ ws) ≡ before_dots s = rw e at (gaps-before_dots s) in
    elim (Bool-cases (c == dot)) [
      | inl at_dot ↦
          let c_dot : c ≡ dot = (==_iff c dot).0 at_dot in
          rw (at_dot, e) (gaps-dot w ws ∙ rw (ih, c_dot) refl)
      | inr inside ↦ rw (inside, e) (gaps-inside c w ws ∙ rw ih refl)
    ]

ancestor_paths-eq : (p : FlagPath) → ancestor_paths p ≡ before_dots p.value
unfolding ancestor_paths
ancestor_paths-eq p = unfold gaps in gaps-before_dots p.value

In-map-put :
    (c : ℕ) (q : Text) (l : List FlagPath)
    → In (record { value = q }) l
    → In (record { value = c ∷ q }) (map (put c) l)
In-map-put c q [] m = m
In-map-put c q (p ∷ l) (inl e) = inl (ap (put c) e)
In-map-put c q (p ∷ l) (inr m) = inr (In-map-put c q l m)

before_dots-In : (q r : Text) → In (record { value = q }) (before_dots (q ++ (dot ∷ r)))
unfolding before_dots
before_dots-In [] r = inl refl
before_dots-In (c ∷ q) r = elim (Bool-cases (c == dot)) [
  | inl at_dot ↦ rw at_dot (inr (In-map-put c q _ (before_dots-In q r)))
  | inr inside ↦ rw inside (In-map-put c q _ (before_dots-In q r))
]

-- Every part of a path that stands before a dot is one of its ancestors.
pub ancestor_paths-In :
    (p : FlagPath) (q r : Text)
    → p.value ≡ q ++ (dot ∷ r)
    → In (record { value = q }) (ancestor_paths p)
ancestor_paths-In p q r e = rw (ancestor_paths-eq p, e) (before_dots-In q r)

In-of_map-put :
    (c : ℕ) (p : FlagPath) (l : List FlagPath)
    → In p (map (put c) l)
    → (q : FlagPath) × In q l × (p.value ≡ c ∷ q.value)
In-of_map-put c p [] m = elim m [ ]
In-of_map-put c p (q ∷ l) (inl e) = (q, inl refl, ap (λ (x : FlagPath). x.value) e)
In-of_map-put c p (q ∷ l) (inr m) = let (q', m', e) = In-of_map-put c p l m in (q', inr m', e)

-- `p` stands before a dot of `s`.
abbrev StandsBefore : FlagPath → Text → Type 0
StandsBefore p s = (r : Text) × (s ≡ p.value ++ (dot ∷ r))

StandsBefore-put :
    (c : ℕ) (p : FlagPath) (s : Text)
    → ((q : FlagPath) → In q (before_dots s) → StandsBefore q s)
    → In p (map (put c) (before_dots s))
    → StandsBefore p (c ∷ s)
StandsBefore-put c p s ih m =
    let (q, mq, e) = In-of_map-put c p (before_dots s) m in
    let (r, e') = ih q mq in (r, rw e (ap (λ t. c ∷ t) e'))

StandsBefore-dot :
    (c : ℕ) (p : FlagPath) (s : Text)
    → ((q : FlagPath) → In q (before_dots s) → StandsBefore q s)
    → c ≡ dot
    → In p (record { value = [] } ∷ map (put c) (before_dots s))
    → StandsBefore p (c ∷ s)
StandsBefore-dot c p s ih e (inl here) = (s, rw (here, e) refl)
StandsBefore-dot c p s ih e (inr m) = StandsBefore-put c p s ih m

before_dots_of_In : (s : Text) (p : FlagPath) → In p (before_dots s) → StandsBefore p s
unfolding before_dots
before_dots_of_In [] p m = elim m [ ]
before_dots_of_In (c ∷ s) p m = elim (Bool-cases (c == dot)) [
  | inl at_dot ↦
      StandsBefore-dot c p s (before_dots_of_In s) ((==_iff c dot).0 at_dot) (rw at_dot at m)
  | inr inside ↦ StandsBefore-put c p s (before_dots_of_In s) (rw inside at m)
]

-- Every ancestor of a path stands before one of its dots.
pub ancestor_paths_prefix :
    (p q : FlagPath) → In q (ancestor_paths p) → (r : Text) × (p.value ≡ q.value ++ (dot ∷ r))
ancestor_paths_prefix p q m = before_dots_of_In p.value q (rw (ancestor_paths-eq p) at m)
