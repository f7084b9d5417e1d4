-- ===== src/Watchers/Index.antt =====
-- watchers.rs: the lists of watches by entity and by script, for either key.
use bw_exp.Common.{
  ℕ, ◌≡◌, sym, ◌∙◌, arith, List, [], Option, none, some, Bool, false, ◌==◌, if◌then◌else◌, push,
  Bool-cases, inl, inr, ==_iff, ==_refl,
}
use bw_exp.Common.Ids.{
  contains, without, contains-push, contains-without, IsDistinct, push-IsDistinct,
  without-IsDistinct,
}
use bw_exp.Common.Map.{
  Map, lookup, insert, remove, modify, lookup-insert, lookup-remove, lookup-modify,
}
use bw_exp.Watchers.{PropertyWatch}
use bw_exp.Watchers.Registry.{bucket, index}

pub bucket-index :
    (k j id : ℕ) (m : Map (List ℕ))
    → bucket j (index k id m) ≡ (if k == j then push (bucket j m) id else bucket j m)
unfolding index
bucket-index k j id m = elim (Bool-cases (k == j)) [
  | inl same ↦ rw ((==_iff k j).0 same) (rw (lookup-insert j j (push (bucket j m) id) m, ==_refl j))
  | inr other ↦ rw (lookup-insert k j (push (bucket k m) id) m, other)
]

pub bucket-without :
    (k j id : ℕ) (m : Map (List ℕ))
    → bucket j (modify k (without id) m) ≡ (if k == j then without id (bucket j m) else bucket j m)
unfolding without
bucket-without k j id m = ground (arith, lookup-modify k j (without id) m)

pub bucket-remove :
    (k j : ℕ) (m : Map (List ℕ)) → bucket j (remove k m) ≡ (if k == j then [] else bucket j m)
bucket-remove k j m = ground (arith, lookup-remove k j m)

module _ {F : Type 0} where
  -- The watch is there, under that key.
  abbrev pub has_key : (PropertyWatch F → ℕ) → ℕ → Option (PropertyWatch F) → Bool
  has_key key k none = false
  has_key key k (some w) = key w == k

  -- The lists have the watches that are there, each once and under its key.
  pub record IsIndex (key : PropertyWatch F → ℕ) (watches : Map (PropertyWatch F))
      (m : Map (List ℕ)) : Type 0 where
    pub listed : (k id : ℕ) → contains (bucket k m) id ≡ has_key key k (lookup id watches)
    pub distinct : (k : ℕ) → IsDistinct (bucket k m)

  module _ (key : PropertyWatch F → ℕ) (watches : Map (PropertyWatch F)) (m : Map (List ℕ))
      (h : IsIndex key watches m) where
    pub index-IsIndex :
        (w : PropertyWatch F)
        → lookup w.id watches ≡ none
        → IsIndex key (insert w.id w watches) (index (key w) w.id m)
    index-IsIndex w fresh = record {
      listed = λ k id. rw (bucket-index (key w) k w.id m) (
          ground (
            arith,
            lookup-insert w.id id w watches,
            h.listed k id,
            fresh,
            contains-push (bucket k m) w.id id,
          ));
      distinct = λ k. rw (bucket-index (key w) k w.id m) (elim (Bool-cases (key w == k)) [
        | inl same ↦ rw same (
            push-IsDistinct (bucket k m) w.id (ground (arith, h.listed k w.id, fresh))
              (h.distinct k))
        | inr other ↦ rw other (h.distinct k)
      ]);
    }

    pub without-IsIndex :
        (id : ℕ) (w : PropertyWatch F)
        → lookup id watches ≡ some w
        → IsIndex key (remove id watches) (modify (key w) (without id) m)
    without-IsIndex id w there = record {
      listed = λ k j. rw (bucket-without (key w) k id m) (
          ground (
            arith,
            lookup-remove id j watches,
            h.listed k j,
            there,
            contains-without id (bucket k m) j,
          ));
      distinct = λ k. rw (bucket-without (key w) k id m) (elim (Bool-cases (key w == k)) [
        | inl same ↦ rw same (without-IsDistinct id (bucket k m) (h.distinct k))
        | inr other ↦ rw other (h.distinct k)
      ]);
    }

    pub remove-IsIndex :
        (k : ℕ) → ((id : ℕ) → contains (bucket k m) id ≡ false) → IsIndex key watches (remove k m)
    unfolding contains
    remove-IsIndex k gone = record {
      listed = λ j id. rw (bucket-remove k j m) (ground (arith, h.listed j id, gone id));
      distinct = λ j. rw (bucket-remove k j m) (elim (Bool-cases (k == j)) [
        | inl same ↦ rw same tt
        | inr other ↦ rw other (h.distinct j)
      ]);
    }

    pub same_keys-IsIndex :
        (watches' : Map (PropertyWatch F))
        → ((k id : ℕ) → has_key key k (lookup id watches') ≡ has_key key k (lookup id watches))
        → IsIndex key watches' m
    same_keys-IsIndex watches' same = record {
      listed = λ k id. h.listed k id ∙ sym (same k id);
      distinct = h.distinct;
    }
