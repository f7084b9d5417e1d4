-- ===== src/BehaviorTrees/Utility.antt =====
-- utility.rs: the choice of the option with the highest score.
use bw_exp.Common.{List, [], ◌∷◌, Option, none, some, Bool, if◌then◌else◌, filter}
use bw_exp.Common.Float.{F64}
use bw_exp.BehaviorTrees.{UtilityOption, BtStatus, success, failure}

pub record UtilityScore (F : Type 0) : Type 0 where
  pub option : UtilityOption F
  pub consideration_scores : List F
  pub raw_score : F
  pub final_score : F

pub record UtilityDecision (F : Type 0) : Type 0 where
  pub chosen : Option (UtilityScore F)
  pub all_scores : List (UtilityScore F)
  pub status : BtStatus

module _ {F : Type 0} ⦃f : F64 F⦄ where
  unfoldable pub combine : F → List F → F
  combine acc [] = acc
  combine acc (s ∷ ss) = combine (f.times acc (f.clamp s f.zero f.one)) ss

  unfoldable pub score : UtilityOption F → List F → UtilityScore F
  unfolding combine
  score option scores =
      let raw = combine f.one scores in
      record {
        option = option;
        consideration_scores = scores;
        raw_score = raw;
        final_score = f.times raw option.weight;
      }

  -- `max_by` with `partial_cmp`, where scores that do not compare count as equal: a later one
  -- replaces the best one unless that is greater.
  unfoldable pub max_by : Option (UtilityScore F) → List (UtilityScore F) → Option (UtilityScore F)
  max_by best [] = best
  max_by best (s ∷ ss) =
      max_by
        (elim best [
          | none ↦ some s
          | some b ↦ if f.less s.final_score b.final_score then some b else some s
        ])
        ss

  unfoldable pub positive : UtilityScore F → Bool
  positive s = f.less f.zero s.final_score

  unfoldable pub from_scores : List (UtilityScore F) → UtilityDecision F
  unfolding max_by positive
  from_scores scores =
      let chosen = max_by none (filter positive scores) in
      record {
        chosen = chosen;
        all_scores = scores;
        status = elim chosen [ none ↦ failure | some _ ↦ success ];
      }
