-- ===== src/App/Alarms.antt =====
-- The alarms that handleSample of internal/app/app.go publishes.
use digitdojo_shield.Prelude.{
  subst, Bool-cases, ℕ, ◌≡◌, inl, inr, refl, sym, ◌∙◌, Bool, true, false, ◌||◌, List, [], ◌∷◌, ◌++◌,
  map, Option, none, some, arith, ltb, length, keep, Text, text_beq, text_beq_iff, text_eq, has,
}
use digitdojo_shield.Detector.Engine.{Metrics, Signal, evaluate}
use digitdojo_shield.Events.{Event}
use digitdojo_shield.History.{HistoryError, key}
use digitdojo_shield.History.Attacks.{any_active, IsSignals, record_sample-active}
use digitdojo_shield.App.Sample.{
  attack_of, metric_of, Sampler, Lib, under_attack, status_of, event_attack_detected,
  event_attack_cleared, alarm_events, history_events, sample_collected, handle_sample,
}

abbrev pub is_alarm : Event → Bool
is_alarm e = text_beq e.kind event_attack_detected || text_beq e.kind event_attack_cleared

-- Samples one after the other, each with its time and whether its save fails.
unfoldable pub run_samples : Lib → List ((ℕ × Bool) × Metrics) → Sampler → Sampler × List Event
unfolding handle_sample
run_samples lib [] a = (a, [])
run_samples lib (((clock, fails), m) ∷ rest) a =
    let first = handle_sample lib clock fails m a in
    let later = run_samples lib rest first.0 in (later.0, first.1 ++ later.1)

-- The alarms of a daemon that is under attack at first, or not: they are detected and cleared in
-- turn, and leave it under attack at last, or not.
abbrev pub IsAlternating : Bool → List Event → Bool → Type 0
IsAlternating first [] last = first ≡ last
IsAlternating true (e ∷ es) last = (e.kind ≡ event_attack_cleared) × IsAlternating false es last
IsAlternating false (e ∷ es) last = (e.kind ≡ event_attack_detected) × IsAlternating true es last

abbrev pub is_under_attack : Sampler → Bool
is_under_attack a = text_beq a.stats.attack_status under_attack

status_of-cons : (s : Signal) (ss : List Signal) → status_of (s ∷ ss) ≡ under_attack
status_of-cons s ss = let p : ltb 0 (length (s ∷ ss)) ≡ true = ground arith in rw p refl

alarm_events-IsAlternating :
    (lib : Lib) (previous : Text) (signals : List Signal) (rest : List Event) (last : Bool)
    → IsAlternating (text_beq (status_of signals) under_attack) rest last
    → IsAlternating
        (text_beq previous under_attack)
        (keep is_alarm (alarm_events lib previous signals) ++ rest)
        last
unfolding text_beq
alarm_events-IsAlternating lib previous [] rest last h =
    elim (Bool-cases (text_beq previous under_attack)) [ inl t ↦ rw t (refl, h) | inr f ↦ rw f h ]
alarm_events-IsAlternating lib previous (s ∷ ss) rest last h =
    let h' : IsAlternating true rest last =
      subst (λ (x : Text). IsAlternating (text_beq x under_attack) rest last) (status_of-cons s ss)
        h in
    elim (Bool-cases (text_beq previous under_attack)) [
      | inl t ↦ rw (status_of-cons s ss, t) h'
      | inr f ↦ rw (status_of-cons s ss, f) (refl, h')
    ]

keep-append : (p : Event → Bool) (xs ys : List Event) → keep p (xs ++ ys) ≡ keep p xs ++ keep p ys
keep-append p [] ys = refl
keep-append p (x ∷ xs) ys = ground (arith, keep-append p xs ys)

-- The events of a sample but for its alarms are none.
handle_sample-alarms :
    (lib : Lib) (clock : ℕ) (fails : Bool) (m : Metrics) (a : Sampler)
    → keep is_alarm (handle_sample lib clock fails m a).1
      ≡ keep is_alarm (alarm_events lib a.stats.attack_status (evaluate a.engine m))
unfolding handle_sample text_beq
handle_sample-alarms lib clock fails m a = quiet_events _
  where
    quiet_events :
        (e : Option HistoryError)
        → keep is_alarm (
            history_events lib e
            ++ sample_collected lib m (evaluate a.engine m)
              ∷ alarm_events lib a.stats.attack_status (evaluate a.engine m))
          ≡ keep is_alarm (alarm_events lib a.stats.attack_status (evaluate a.engine m))
    quiet_events none = refl
    quiet_events (some e) = refl

-- Over any samples, with or without failing saves, the events AttackDetected and AttackCleared
-- come in turn, the first kind first unless the daemon was under attack before, and the last one
-- fits the status at the end.
pub run_samples-IsAlternating :
    (lib : Lib) (samples : List ((ℕ × Bool) × Metrics)) (a : Sampler)
    → let r = run_samples lib samples a in
      IsAlternating (is_under_attack a) (keep is_alarm r.1) (is_under_attack r.0)
unfolding run_samples
run_samples-IsAlternating lib [] a = refl
run_samples-IsAlternating lib (((clock, fails), m) ∷ rest) a =
    let next = (handle_sample lib clock fails m a).0 in
    rw
      (
        keep-append is_alarm (handle_sample lib clock fails m a).1 (run_samples lib rest next).1,
        handle_sample-alarms lib clock fails m a,
      )
      (alarm_events-IsAlternating lib a.stats.attack_status (evaluate a.engine m) _ _
        (run_samples-IsAlternating lib rest next))

attacks-IsSignals : (signals : List Signal) → IsSignals (map attack_of signals)
attacks-IsSignals [] = tt
attacks-IsSignals (s ∷ ss) = (refl, attacks-IsSignals ss)

some_signal :
    (ss : List Signal) (k : Text)
    → has k (map key (map attack_of ss)) ≡ true
    → text_beq (status_of ss) under_attack ≡ true
unfolding has text_beq
some_signal [] k h = cc
some_signal (s ∷ ss) k h = rw (status_of-cons s ss) refl

a_signal :
    (ss : List Signal)
    → text_beq (status_of ss) under_attack ≡ true
    → (k : Text) × (has k (map key (map attack_of ss)) ≡ true)
unfolding has text_beq
a_signal [] h = cc
a_signal (s ∷ ss) h =
    (key (attack_of s), ground (arith, text_beq_iff (key (attack_of s)) (key (attack_of s))))

-- After a sample, saved or not, the status shown is under_attack exactly when some attack of the
-- history is active.
pub handle_sample-status :
    (lib : Lib) (clock : ℕ) (fails : Bool) (m : Metrics) (a : Sampler)
    → let r = (handle_sample lib clock fails m a).0 in
      ((k : Text) → any_active k r.history.attacks ≡ true → is_under_attack r ≡ true)
      × (is_under_attack r ≡ true → (k : Text) × (any_active k r.history.attacks ≡ true))
unfolding handle_sample
handle_sample-status lib clock fails m a = (
  λ k h. some_signal signals k (sym (active k) ∙ h),
  λ h. let found = a_signal signals h in (found.0, active found.0 ∙ found.1),
)
  where
    signals : List Signal
    signals = evaluate a.engine m

    active :
        (k : Text)
        → any_active k (handle_sample lib clock fails m a).0.history.attacks
          ≡ has k (map key (map attack_of (evaluate a.engine m)))
    active k =
        record_sample-active lib.attack_id clock fails
          (metric_of m (length a.blacklist) (evaluate a.engine m))
          (map attack_of (evaluate a.engine m)) a.history k
          (attacks-IsSignals (evaluate a.engine m))
