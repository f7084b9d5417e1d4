-- ===== src/LogBuffer/History.antt =====
-- The buffer against the list of all entries that were ever pushed.
use bw_exp.Common.{
  ℕ, zero, suc, ◌+◌, ◌-◌, ◌%◌, ◌^◌, ◌≤◌, ◌<◌, ◌≡◌, refl, sym, ◌∙◌, ap, arith, List, [], ◌∷◌, ◌++◌,
  true, false, leb, ltb, length, push, take, drop, filter, inl, inr, Bool-cases, length-append,
  length-reverse, take-drop, drop-append, length-drop, take-append, append_assoc, append-nil,
}
use mathlib.Core.List.{reverse, reverse-append}
use bw_exp.LogBuffer.{
  ScriptLogEntry, ScriptLogBuffer, warning, error, level_eq, new, push_entry, pop_front, recent,
  stats, filter_by_level,
}

-- All entries are pushed in turn.
unfoldable pub push_all : ScriptLogBuffer → List ScriptLogEntry → ScriptLogBuffer
push_all b [] = b
push_all b (e ∷ es) = push_all (push_entry b e) es

-- A buffer made for no entry still holds one.
abbrev pub room : ℕ → ℕ
room zero = 1
room (suc n) = suc n

-- What a buffer of this capacity holds after a history.
pub record Holds (capacity : ℕ) (history : List ScriptLogEntry) (b : ScriptLogBuffer) : Type 0 where
  pub kept : b.entries ≡ drop (length history - room capacity) history
  pub counted : b.dropped_count ≡ (length history - capacity) % 2 ^ 64
  pub cap : b.max_entries ≡ capacity

pop_front-drop {ℓ} : {A : Type ℓ} (n : ℕ) (xs : List A) → pop_front (drop n xs) ≡ drop (suc n) xs
pop_front-drop zero [] = refl
pop_front-drop zero (x ∷ xs) = refl
pop_front-drop (suc n) [] = refl
pop_front-drop (suc n) (x ∷ xs) = pop_front-drop n xs

drop-nil {ℓ} : {A : Type ℓ} (n : ℕ) → drop {A = A} n [] ≡ []
drop-nil zero = refl
drop-nil (suc n) = refl

pub new-Holds : (n : ℕ) → Holds n [] (new n)
unfolding new
new-Holds n = record { kept = sym (drop-nil (0 - room n)); counted = rw none_dropped; cap = refl }
  where
    none_dropped : 0 - n ≡ 0
    none_dropped = omega arith

module _ (history : List ScriptLogEntry) (e : ScriptLogEntry) where
  -- A full buffer gives up its oldest entry.
  evict :
      (r : ℕ)
      → 0 < r
      → r ≤ length history
      → push (pop_front (drop (length history - r) history)) e
        ≡ drop (length (push history e) - r) (push history e)
  evict r some_room full =
      rw (pop_front-drop (length history - r) history, kept)
        (sym (drop-append (suc (length history - r)) history (e ∷ []) (omega arith)))
    where
      kept : length (push history e) - r ≡ suc (length history - r)
      kept = omega (arith, length-append history (e ∷ []))

  -- One with room keeps all.
  extend :
      (r : ℕ)
      → length history < r
      → push (drop (length history - r) history) e
        ≡ drop (length (push history e) - r) (push history e)
  extend r roomy = rw (before, after) refl
    where
      before : length history - r ≡ 0
      before = omega arith

      after : length (push history e) - r ≡ 0
      after = omega (arith, length-append history (e ∷ []))

  dropped_one :
      (n : ℕ)
      → n ≤ length history
      → ((length history - n) % 2 ^ 64 + 1) % 2 ^ 64 ≡ (length (push history e) - n) % 2 ^ 64
  dropped_one n full = omega (arith, length-append history (e ∷ []))

  dropped_none :
      (n : ℕ)
      → length history < n
      → (length history - n) % 2 ^ 64 ≡ (length (push history e) - n) % 2 ^ 64
  dropped_none n roomy = omega (arith, length-append history (e ∷ []))

push_entry-Holds :
    (n : ℕ) (history : List ScriptLogEntry) (b : ScriptLogBuffer) (e : ScriptLogEntry)
    → Holds n history b
    → Holds n (push history e) (push_entry b e)
unfolding push_entry
push_entry-Holds zero [] b e h = record {
  kept = ground (arith, h.kept, h.cap);
  counted = ground (arith, h.counted, h.cap);
  cap = ground (arith, h.cap);
}
push_entry-Holds zero (x ∷ xs) b e h = record {
  kept = ground (arith, h.kept, h.cap, evict (x ∷ xs) e 1);
  counted = ground (arith, h.counted, h.cap, dropped_one (x ∷ xs) e 0);
  cap = ground (arith, h.cap);
}
push_entry-Holds (suc n) history b e h =
    let held = ap length h.kept ∙ length-drop (length history - suc n) history in
    elim (Bool-cases (leb b.max_entries (length b.entries))) [
      | inl full ↦ rw full (record {
        kept = ground (arith, h.kept, h.cap, held, evict history e (suc n));
        counted = ground (arith, h.counted, h.cap, held, dropped_one history e (suc n));
        cap = h.cap;
      })
      | inr roomy ↦ rw roomy (record {
        kept = ground (arith, h.kept, h.cap, held, extend history e (suc n));
        counted = ground (arith, h.counted, h.cap, held, dropped_none history e (suc n));
        cap = h.cap;
      })
    ]

push_all-Holds :
    (n : ℕ) (history es : List ScriptLogEntry) (b : ScriptLogBuffer)
    → Holds n history b
    → Holds n (history ++ es) (push_all b es)
unfolding push_all
push_all-Holds n history [] b h = rw append-nil h
push_all-Holds n history (e ∷ es) b h =
    rw (append_assoc history (e ∷ []) es) at
      (push_all-Holds n (push history e) es (push_entry b e) (push_entry-Holds n history b e h))

-- A new buffer of any capacity, after any entries, holds the newest of them in order, as many as
-- its capacity says but at least one, and has counted as dropped (modulo 2^64) all that exceed
-- the capacity. So a buffer of capacity 0 holds one entry that it has counted as dropped.
pub push_all-new : (n : ℕ) (es : List ScriptLogEntry) → Holds n es (push_all (new n) es)
push_all-new n es = push_all-Holds n [] es (new n) (new-Holds n)

-- The most recent entries, newest first, are the end of the history turned round.
take-reverse_drop {ℓ} :
    {A : Type ℓ} (xs ys : List A) (c : ℕ)
    → c ≤ length ys
    → take c (reverse ys) ≡ take c (reverse (xs ++ ys))
take-reverse_drop xs ys c h =
    rw (reverse-append xs ys)
      (sym (take-append c (reverse ys) (reverse xs) (omega (arith, length-reverse ys))))

-- The most recent entries of a new buffer after any entries, as many as it holds or fewer, are
-- the newest of all entries, newest first.
pub recent-push_all :
    (n c : ℕ) (es : List ScriptLogEntry)
    → c ≤ room n
    → recent (push_all (new n) es) c ≡ take c (reverse es)
unfolding recent
recent-push_all n c es h =
    let d = length es - room n in
    rw (push_all-new n es).kept (elim (Bool-cases (ltb (length es) (room n))) [
      | inl few ↦ ap (λ k. take c (reverse (drop k es))) (all_kept few)
      | inr many ↦
          take-reverse_drop (take d es) (drop d es) c (enough many)
          ∙ ap (λ l. take c (reverse l)) (take-drop d es)
    ])
  where
    all_kept : ltb (length es) (room n) ≡ true → length es - room n ≡ 0
    all_kept few = ground arith

    enough : ltb (length es) (room n) ≡ false → c ≤ length (drop (length es - room n) es)
    enough many = ground (arith, length-drop (length es - room n) es)

-- In the statistics of any buffer, errors and warnings together are no more than the entries, and
-- these are counted right.
pub stats_bounds :
    (b : ScriptLogBuffer)
    → let s = stats b in (s.errors + s.warnings ≤ s.len) × (s.len ≡ length b.entries)
unfolding stats filter_by_level
stats_bounds b = (go b.entries, refl)
  where
    go :
        (es : List ScriptLogEntry)
        → length (filter (λ e. level_eq e.level error) es)
            + length (filter (λ e. level_eq e.level warning) es)
          ≤ length es
    go [] = omega arith
    go (e ∷ es) = ground (arith, go es)
