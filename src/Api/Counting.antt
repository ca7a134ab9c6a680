-- ===== src/Api/Counting.antt =====
-- The number of attacks that handleAnalytics of internal/api/api.go counts.
use digitdojo_shield.Prelude.{
  ℕ, suc, ◌-◌, ◌≤◌, ◌≡◌, refl, ap, ◌∙◌, Bool, not, List, [], ◌∷◌, some, arith, ltb, length, keep,
  sort_by, insert_by, Text,
}
use digitdojo_shield.History.{Store, Attack, attacks_page, metrics_since, newer}
use digitdojo_shield.History.Pages.{page_lem, take-length}
use digitdojo_shield.Api.Handlers.{get}
use digitdojo_shield.Api.Reading.{
  answer, attack_count, period_or_default, duration_of, handle_analytics,
}

module _ {A : Type 0} (le : A → A → Bool) (p : A → Bool) where
  keep-insert_by :
      (a : A) (xs : List A) → length (keep p (insert_by le a xs)) ≡ length (keep p (a ∷ xs))
  unfolding insert_by
  keep-insert_by a [] = refl
  keep-insert_by a (x ∷ xs) = ground (arith, keep-insert_by a xs)

  keep-sort_by : (xs : List A) → length (keep p (sort_by le xs)) ≡ length (keep p xs)
  unfolding sort_by
  keep-sort_by [] = refl
  keep-sort_by (x ∷ xs) = ground (arith, keep-insert_by x (sort_by le xs), keep-sort_by xs)

length-insert_by :
    {A : Type 0} (le : A → A → Bool) (a : A) (xs : List A)
    → length (insert_by le a xs) ≡ suc (length xs)
unfolding insert_by
length-insert_by le a [] = refl
length-insert_by le a (x ∷ xs) = ground (arith, length-insert_by le a xs)

length-sort_by : {A : Type 0} (le : A → A → Bool) (xs : List A) → length (sort_by le xs) ≡ length xs
unfolding sort_by
length-sort_by le [] = refl
length-sort_by le (x ∷ xs) = length-insert_by le x (sort_by le xs) ∙ ap suc (length-sort_by le xs)

attack_count_lem :
    (cutoff : ℕ) (h : Store)
    → length h.attacks ≤ 100000
    → attack_count cutoff h ≡ length (keep (λ a. not (ltb a.started_at cutoff)) h.attacks)
attack_count_lem cutoff h bound =
    let sorted = sort_by newer h.attacks in
    let whole : (attacks_page 0 100000 h).0 ≡ sorted =
      page_lem 0 100000 h ∙ take-length 100000 sorted (rw (length-sort_by newer h.attacks) bound) in
    ap (λ (xs : List Attack). length (keep (λ a. not (ltb a.started_at cutoff)) xs)) whole
    ∙ keep-sort_by newer (λ a. not (ltb a.started_at cutoff)) h.attacks

-- On a store of at most 100000 attacks and a period that the API knows, the analytics count each
-- attack of the store that began at the cutoff or later, though they are counted on a sorted page of
-- the attacks; and they have the metrics since the same cutoff.
pub handle_analytics-count :
    (period : Text) (now duration : ℕ) (h : Store)
    → duration_of period ≡ some duration
    → length h.attacks ≤ 100000
    → handle_analytics get period now (some h)
      ≡ answer (record {
        period = period_or_default period;
        metrics = metrics_since (now - duration) h;
        attack_count = length (keep (λ a. not (ltb a.started_at (now - duration))) h.attacks);
      })
unfolding handle_analytics
handle_analytics-count period now duration h known bound =
    rw (known, attack_count_lem (now - duration) h bound) refl
