-- ===== src/DiffSwitch/Related.antt =====
-- The selection of a case respects a relation between the cases of two switches.
use truth.Base.{
  ℕ, zero, suc, ◌≡◌, refl, ap, Option, none, some, [], ◌∷◌, length, get_elem?, ltb, Bool-cases, inl,
  inr,
}
use truth.DiffSwitch.{DiffSwitchVec, look_back, select_diff_switch_case}

module _ {ℓ} {T : Type ℓ} {S : Type ℓ} (R : T → S → Type 0) where
  abbrev pub Related? : Option T → Option S → Type 0
  Related? none none = Unit
  Related? (some x) (some y) = R x y
  Related? none (some _) = ⊥
  Related? (some _) none = ⊥

  abbrev pub RelatedCases : DiffSwitchVec T → DiffSwitchVec S → Type 0
  RelatedCases [] [] = Unit
  RelatedCases [] (_ ∷ _) = ⊥
  RelatedCases (_ ∷ _) [] = ⊥
  RelatedCases (x ∷ xs) (y ∷ ys) = Related? x y × RelatedCases xs ys

  -- The case at a position, where there may be no position or no case.
  abbrev RelatedAt : Option (Option T) → Option (Option S) → Type 0
  RelatedAt none none = Unit
  RelatedAt (some x) (some y) = Related? x y
  RelatedAt none (some _) = ⊥
  RelatedAt (some _) none = ⊥

  get_elem?-Related :
      (xs : DiffSwitchVec T) (ys : DiffSwitchVec S) (i : ℕ)
      → RelatedCases xs ys
      → RelatedAt (get_elem? xs i) (get_elem? ys i)
  get_elem?-Related [] [] i h = tt
  get_elem?-Related (x ∷ xs) (y ∷ ys) zero h = h.0
  get_elem?-Related (x ∷ xs) (y ∷ ys) (suc i) h = get_elem?-Related xs ys i h.1
  get_elem?-Related [] (_ ∷ _) i h = absurd h
  get_elem?-Related (_ ∷ _) [] i h = absurd h

  length-Related :
      (xs : DiffSwitchVec T) (ys : DiffSwitchVec S) → RelatedCases xs ys → length xs ≡ length ys
  length-Related [] [] h = refl
  length-Related (x ∷ xs) (y ∷ ys) h = ap suc (length-Related xs ys h.1)
  length-Related [] (_ ∷ _) h = absurd h
  length-Related (_ ∷ _) [] h = absurd h

  written_or_Related :
      (x : Option (Option T)) (y : Option (Option S)) (u : Option T) (v : Option S)
      → RelatedAt x y
      → Related? u v
      → Related?
          (elim x [ some (some a) ↦ some a | _ ↦ u ])
          (elim y [ some (some b) ↦ some b | _ ↦ v ])
  written_or_Related none none u v h k = k
  written_or_Related (some none) (some none) u v h k = k
  written_or_Related (some (some a)) (some (some b)) u v h k = h
  written_or_Related (some (some _)) (some none) u v h k = absurd h
  written_or_Related (some none) (some (some _)) u v h k = absurd h
  written_or_Related none (some _) u v h k = absurd h
  written_or_Related (some _) none u v h k = absurd h

  look_back-Related :
      (xs : DiffSwitchVec T) (ys : DiffSwitchVec S) (i : ℕ)
      → RelatedCases xs ys
      → Related? (look_back xs i) (look_back ys i)
  unfolding look_back
  look_back-Related xs ys zero h =
      written_or_Related (get_elem? xs 0) (get_elem? ys 0) none none (get_elem?-Related xs ys 0 h)
        tt
  look_back-Related xs ys (suc i) h =
      written_or_Related (get_elem? xs (suc i)) (get_elem? ys (suc i)) (look_back xs i)
        (look_back ys i) (get_elem?-Related xs ys (suc i) h) (look_back-Related xs ys i h)

  -- Related switches select related cases.
  pub select_diff_switch_case-Related :
      (xs : DiffSwitchVec T) (ys : DiffSwitchVec S) (d : ℕ)
      → RelatedCases xs ys
      → Related? (select_diff_switch_case xs d) (select_diff_switch_case ys d)
  unfolding select_diff_switch_case
  select_diff_switch_case-Related xs ys d h = elim (Bool-cases (ltb d (length ys))) [
    | inl e ↦ rw (length-Related xs ys h, e) (look_back-Related xs ys d h)
    | inr e ↦ rw (length-Related xs ys h, e) tt
  ]
