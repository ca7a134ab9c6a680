-- ===== src/Alerts/Ignored.antt =====
-- What Dispatch of internal/alerts/manager.go does not react to: the minimum severity and the
-- conditions of a rule.
use digitdojo_shield.Prelude.{◌≡◌, refl, List, [], ◌∷◌, map, Text, text_eq}
use digitdojo_shield.Alerts.Manager.{Provider, Rule, AlertEvent, Manager, Env}
use digitdojo_shield.Alerts.Dispatch.{deliver, deliver_to, deliver_all, fire, dispatch_rules}

module _ {W : Type 0} (env : Env W) (event : AlertEvent) where
  -- The rule with another minimum severity and other conditions.
  abbrev pub with_filter : Text → List (Text × Text) → Rule → Rule
  with_filter severity conditions r = record r {
    minimum_severity = severity;
    conditions = conditions;
  }

  module _ (severity : Text) (conditions : List (Text × Text)) where
    deliver-filter :
        (r : Rule) (p : Provider) (s : Manager W × W)
        → deliver env (with_filter severity conditions r) p event s ≡ deliver env r p event s
    unfolding deliver
    deliver-filter r p (m, w) = refl

    deliver_to-filter :
        (r : Rule) (pid : Text) (ps : List Provider) (s : Manager W × W)
        → deliver_to env (with_filter severity conditions r) event pid ps s
          ≡ deliver_to env r event pid ps s
    unfolding deliver_to
    deliver_to-filter r pid [] s = refl
    deliver_to-filter r pid (p ∷ ps) s = rw (deliver-filter r p s) (deliver_to-filter r pid ps _)

    deliver_all-filter :
        (r : Rule) (ps : List Provider) (ids : List Text) (s : Manager W × W)
        → deliver_all env (with_filter severity conditions r) event ps ids s
          ≡ deliver_all env r event ps ids s
    unfolding deliver_all
    deliver_all-filter r ps [] s = refl
    deliver_all-filter r ps (i ∷ ids) s =
        rw (deliver_to-filter r i ps s) (deliver_all-filter r ps ids _)

    fire-filter :
        (ps : List Provider) (r : Rule) (s : Manager W × W)
        → fire env event ps (with_filter severity conditions r) s ≡ fire env event ps r s
    unfolding fire
    fire-filter ps r (m, w) = rw (deliver_all-filter r ps r.provider_ids _) refl

    -- The loop of Dispatch does the same with the minimum severity and the conditions of all its
    -- rules replaced by any one minimum severity and list of conditions.
    dispatch_rules-filter :
        (ps : List Provider) (rs : List Rule) (s : Manager W × W)
        → dispatch_rules env event ps (map (with_filter severity conditions) rs) s
          ≡ dispatch_rules env event ps rs s
    unfolding dispatch_rules
    dispatch_rules-filter ps [] s = refl
    dispatch_rules-filter ps (r ∷ rs) s = rw (fire-filter ps r s) (dispatch_rules-filter ps rs _)
