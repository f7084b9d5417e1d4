-- ===== src/BehaviorTrees/Choice.antt =====
-- utility.rs: the option that is chosen has the highest score.
use bw_exp.Common.{
  ◌≡◌, refl, sym, List, [], ◌∷◌, Option, none, some, Bool, true, false, filter, Bool-cases, inl,
  inr,
}
use mathlib.Core.Path.{subst}
use mathlib.Core.Logic.{⊎_elim}
use mathlib.Core.List.{Memᴰ}
use mathlib.Core.List.Memᴰ
use bw_exp.Common.Float.{F64}
use bw_exp.BehaviorTrees.Utility.{UtilityScore, max_by, positive, from_scores}

-- How `<` behaves on floats that are not NaN.
pub record IsOrder {F : Type 0} (less : F → F → Bool) : Type 0 where
  pub asym : (a b : F) → less a b ≡ true → less b a ≡ false
  pub not_less_trans : (a b c : F) → less a b ≡ false → less b c ≡ false → less a c ≡ false

module _ {F : Type 0} ⦃f : F64 F⦄ (order : IsOrder f.less) where
  irrefl : (a : F) → f.less a a ≡ false
  irrefl a = elim (Bool-cases (f.less a a)) [ inl h ↦ order.asym a a h | inr h ↦ h ]

  abbrev Tops : UtilityScore F → UtilityScore F → Type 0
  Tops m t = f.less m.final_score t.final_score ≡ false

  max_by_best :
      (b : UtilityScore F) (ss : List (UtilityScore F))
      → (m : UtilityScore F) × (max_by (some b) ss ≡ some m)
        × Memᴰ m (b ∷ ss)
        × ((t : UtilityScore F) → Memᴰ t (b ∷ ss) → Tops m t)
  unfolding max_by
  max_by_best b [] = (
    b,
    refl,
    Memᴰ.head refl,
    λ t h. subst (Tops b) (sym (Memᴰ.eq_of_singleton h)) (irrefl b.final_score),
  )
  max_by_best b (s ∷ ss) = elim (Bool-cases (f.less s.final_score b.final_score)) [
    | inl lower ↦
        let (m, made, there, tops) = max_by_best b ss in
        (
          m,
          rw lower made,
          ⊎_elim Memᴰ.head (λ q. Memᴰ.tail (Memᴰ.tail q)) (Memᴰ.cases_cons there),
          λ t h. elim (Memᴰ.cases_cons h) [
            | inl e ↦ tops t (Memᴰ.head e)
            | inr q ↦ elim (Memᴰ.cases_cons q) [
              | inr q' ↦ tops t (Memᴰ.tail q')
              | inl e ↦ subst (Tops m) (sym e) (
                  order.not_less_trans m.final_score b.final_score s.final_score
                    (tops b (Memᴰ.head refl)) (order.asym s.final_score b.final_score lower))
            ]
          ],
        )
    | inr higher ↦
        let (m, made, there, tops) = max_by_best s ss in
        (
          m,
          rw higher made,
          Memᴰ.tail there,
          λ t h. elim (Memᴰ.cases_cons h) [
            | inr q ↦ tops t q
            | inl e ↦ subst (Tops m) (sym e) (
                order.not_less_trans m.final_score s.final_score b.final_score
                  (tops s (Memᴰ.head refl)) higher)
          ],
        )
  ]

  Memᴰ-filter :
      (xs : List (UtilityScore F)) (t : UtilityScore F)
      → Memᴰ t (filter positive xs)
      → Memᴰ t xs × (positive t ≡ true)
  Memᴰ-filter [] t h = absurd (Memᴰ.not-nil h)
  Memᴰ-filter (x ∷ xs) t h = elim (Bool-cases (positive x)) [
    | inr out ↦ let (q, p) = Memᴰ-filter xs t (rw out at h) in (Memᴰ.tail q, p)
    | inl kept ↦ elim (Memᴰ.cases_cons (rw kept at h)) [
      | inl e ↦ (Memᴰ.head e, subst (λ z. positive z ≡ true) (sym e) kept)
      | inr q ↦ let (q', p) = Memᴰ-filter xs t q in (Memᴰ.tail q', p)
    ]
  ]

  filter-Memᴰ :
      (xs : List (UtilityScore F)) (t : UtilityScore F)
      → Memᴰ t xs
      → positive t ≡ true
      → Memᴰ t (filter positive xs)
  filter-Memᴰ [] t h p = absurd (Memᴰ.not-nil h)
  filter-Memᴰ (x ∷ xs) t h p = elim (Memᴰ.cases_cons h) [
    | inl e ↦
        let kept : positive x ≡ true = subst (λ z. positive z ≡ true) e p in rw kept (Memᴰ.head e)
    | inr q ↦ elim (Bool-cases (positive x)) [
      | inl kept ↦ rw kept (Memᴰ.tail (filter-Memᴰ xs t q p))
      | inr out ↦ rw out (filter-Memᴰ xs t q p)
    ]
  ]

  -- What the choice is worth: `none` if no score is positive.
  abbrev pub IsBest : List (UtilityScore F) → Option (UtilityScore F) → Type 0
  IsBest scores none = (t : UtilityScore F) → Memᴰ t scores → positive t ≡ false
  IsBest scores (some m) =
      Memᴰ m scores
      × (positive m ≡ true)
      × ((t : UtilityScore F) → Memᴰ t scores → f.less m.final_score t.final_score ≡ false)

  not_above :
      (m t : UtilityScore F)
      → positive m ≡ true
      → positive t ≡ false
      → f.less m.final_score t.final_score ≡ false
  unfolding positive
  not_above m t high low = elim (Bool-cases (f.less m.final_score t.final_score)) [
    | inr below ↦ below
    | inl above ↦ absurd (
        cc (
          order.not_less_trans f.zero t.final_score m.final_score low
            (order.asym m.final_score t.final_score above)))
  ]

  positive-IsBest :
      (scores kept : List (UtilityScore F))
      → filter positive scores ≡ kept
      → IsBest scores (max_by none kept)
  unfolding max_by positive
  positive-IsBest scores [] e = λ t h. elim (Bool-cases (positive t)) [
    | inr low ↦ low
    | inl high ↦ absurd (Memᴰ.not-nil (subst (Memᴰ t) e (filter-Memᴰ scores t h high)))
  ]
  positive-IsBest scores (k ∷ ks) e =
      let (m, made, there, tops) = max_by_best k ks in
      let (here, high) = Memᴰ-filter scores m (subst (Memᴰ m) (sym e) there) in
      rw made (
        here,
        high,
        λ t h. elim (Bool-cases (positive t)) [
          | inl high' ↦ tops t (subst (Memᴰ t) e (filter-Memᴰ scores t h high'))
          | inr low ↦ not_above m t high low
        ],
      )

  -- If the order of the floats is that of numbers, then the option that is chosen is one of those
  -- scored, its score is above zero and no option has a higher one; if none is chosen, no option
  -- has a score above zero.
  pub from_scores-IsBest :
      (scores : List (UtilityScore F)) → IsBest scores (from_scores scores).chosen
  unfolding from_scores
  from_scores-IsBest scores = positive-IsBest scores (filter positive scores) refl
