-- ===== src/History/Pages.antt =====
-- The bounds and pages of internal/history/history.go.
use digitdojo_shield.Prelude.{
  ℕ, zero, suc, ◌+◌, ◌-◌, ◌≤◌, ◌≡◌, refl, sym, ap, ◌∙◌, Bool, true, false, List, [], ◌∷◌, ◌++◌,
  arith, ltb, if◌then◌else◌, Bool-cases, inl, inr, length, length-drop, take, drop, sort_by, Text,
}
use digitdojo_shield.History.{
  Metric, Attack, Store, trim_metrics, record_sample, save_history, max_metrics, attacks_page,
  newer, stamped,
}

save_history-metrics : (fails : Bool) (s : Store) → (save_history fails s).1.metrics ≡ s.metrics
unfolding save_history
save_history-metrics true s = refl
save_history-metrics false s = refl

trim_metrics-bounded : (ms : List Metric) → length (trim_metrics ms) ≤ max_metrics
unfolding trim_metrics
trim_metrics-bounded ms = ground (arith, length-drop (length ms - max_metrics) ms)

-- However many metrics a store holds, after Record it holds at most 43200.
record_sample-bounded :
    (attack_id : ℕ → Text → Text) (clock : ℕ) (fails : Bool) (m : Metric) (signals : List Attack)
    (s : Store)
    → length (record_sample attack_id clock fails m signals s).1.metrics ≤ max_metrics
unfolding record_sample
record_sample-bounded attack_id clock fails m signals s =
    rw (save_history-metrics fails) (trim_metrics-bounded (s.metrics ++ stamped clock m ∷ []))

pub take-length : (n : ℕ) (xs : List Attack) → length xs ≤ n → take n xs ≡ xs
take-length zero [] h = refl
take-length zero (x ∷ xs) h = absurd (omega arith)
take-length (suc n) [] h = refl
take-length (suc n) (x ∷ xs) h = ap (◌∷◌ x) (take-length n xs (omega arith))

drop_all : (n : ℕ) (xs : List Attack) → length xs ≤ n → drop n xs ≡ []
drop_all zero [] h = refl
drop_all zero (x ∷ xs) h = absurd (omega arith)
drop_all (suc n) [] h = refl
drop_all (suc n) (x ∷ xs) h = drop_all n xs (omega arith)

take_nil : (n : ℕ) → take {A = Attack} n [] ≡ []
take_nil zero = refl
take_nil (suc n) = refl

take_long : (n m : ℕ) (xs : List Attack) → length xs ≤ n → length xs ≤ m → take n xs ≡ take m xs
take_long n m xs p q = take-length n xs p ∙ sym (take-length m xs q)

-- The clamped bounds of a page cut what the plain ones would.
cut_lem :
    (offset limit total : ℕ) (xs : List Attack)
    → total ≡ length xs
    → let start = if ltb total offset then total else offset in
      let end = if ltb total (start + limit) then total else start + limit in
      take (end - start) (drop start xs) ≡ take limit (drop offset xs)
cut_lem offset limit total xs e = elim (Bool-cases (ltb total offset)) [
  | inl past ↦
      rw (past, drop_all total xs (omega (arith, e)), drop_all offset xs (ground arith))
        (take_nil _ ∙ sym (take_nil limit))
  | inr inside ↦ elim (Bool-cases (ltb total (offset + limit))) [
    | inl short ↦
        rw (inside, short)
          (take_long (total - offset) limit (drop offset xs) (omega (arith, length-drop offset xs))
            (ground (arith, length-drop offset xs)))
    | inr long ↦ let q : offset + limit - offset ≡ limit = omega arith in rw (inside, long, q)
  ]
]

pub page_lem :
    (offset limit : ℕ) (s : Store)
    → (attacks_page offset limit s).0 ≡ take limit (drop offset (sort_by newer s.attacks))
unfolding attacks_page
page_lem offset limit s = cut_lem offset limit _ (sort_by newer s.attacks) refl

take-split : (l n : ℕ) (xs : List Attack) → take l xs ++ take n (drop l xs) ≡ take (l + n) xs
take-split zero n xs = ap (λ k. take k xs) (omega arith)
take-split (suc l) n [] = take_nil n ∙ sym (take_nil (suc l + n))
take-split (suc l) n (x ∷ xs) =
    let q : suc l + n ≡ suc (l + n) = omega arith in rw q (ap (◌∷◌ x) (take-split l n xs))

drop-drop : (o l : ℕ) (xs : List Attack) → drop l (drop o xs) ≡ drop (o + l) xs
drop-drop zero l xs = ap (λ k. drop k xs) (omega arith)
drop-drop (suc o) l [] = drop_nil l ∙ sym (drop_nil (suc o + l))
  where
    drop_nil : (n : ℕ) → drop {A = Attack} n [] ≡ []
    drop_nil zero = refl
    drop_nil (suc n) = refl
drop-drop (suc o) l (x ∷ xs) =
    let q : suc o + l ≡ suc (o + l) = omega arith in rw q (drop-drop o l xs)

-- Pages fit together: a page followed by the page that starts behind it is the longer page, for any
-- offset and limits, also past the end.
attacks_page-append :
    (offset l n : ℕ) (s : Store)
    → (attacks_page offset l s).0 ++ (attacks_page (offset + l) n s).0
      ≡ (attacks_page offset (l + n) s).0
attacks_page-append offset l n s =
    rw
      (
        page_lem offset l s,
        page_lem (offset + l) n s,
        page_lem offset (l + n) s,
        ← drop-drop offset l (sort_by newer s.attacks),
      )
      (take-split l n (drop offset (sort_by newer s.attacks)))
