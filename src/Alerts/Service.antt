-- ===== src/Alerts/Service.antt =====
-- Service of internal/alerts/alerts.go: the webhooks of the configuration, their validation and the
-- posts of a message. net/url and the requests are parameters.
use mathlib.Core.List.{append-nil}
use digitdojo_shield.Prelude.{
  ◌≡◌, refl, ap, ◌∙◌, ◌++◌, arith, All, Bool-cases, inl, inr, Bool, true, false, not, ◌&&◌, ◌||◌,
  List, [], ◌∷◌, Option, none, some, if◌then◌else◌, Text, text, text_beq,
}
use digitdojo_shield.Firewall.Backend.Names.{trim_space}

pub record Service : Type 0 where
  pub discord_webhook : Text
  pub slack_webhook : Text
  pub email : Text

pub data ServiceError : Type 0 where
  email_unsupported context_required : ServiceError
  bad_webhook send_failed : Text → ServiceError

-- New
unfoldable pub new_service : Text → Text → Text → Service
unfolding trim_space
new_service discord slack email = record {
  discord_webhook = trim_space discord;
  slack_webhook = trim_space slack;
  email = trim_space email;
}

-- What url.ParseRequestURI gives: the scheme and the host.
abbrev pub is_https : Option (Text × Text) → Bool
is_https none = false
is_https (some (scheme, host)) = text_beq scheme (text "https") && not (text_beq host [])

abbrev check_webhook :
    (Text → Option (Text × Text)) → Text → Text → Option ServiceError → Option ServiceError
check_webhook parse name webhook rest =
    if text_beq webhook [] || is_https (parse webhook) then rest else some (bad_webhook name)

-- Validate. Go leaves the order of the two webhooks open.
unfoldable pub validate_service : (Text → Option (Text × Text)) → Service → Option ServiceError
unfolding text_beq
validate_service parse s =
    if not (text_beq s.email [])
    then some email_unsupported
    else check_webhook parse (text "discord") s.discord_webhook
        (check_webhook parse (text "slack") s.slack_webhook none)

-- A post to a webhook with the key of its payload, and whether it succeeds.
pub record Post : Type 0 where
  pub webhook : Text
  pub key : Text
  pub message : Text

module _ (post : Post → Bool) (message : Text) where
  abbrev send_to :
      Text → Text → Text → Option ServiceError × List Post → Option ServiceError × List Post
  send_to name webhook key rest =
      let p : Post = record { webhook = webhook; key = key; message = message } in
      if text_beq webhook []
      then rest
      else if post p
      then (rest.0, p ∷ rest.1)
      else (some (send_failed name), p ∷ [])

  abbrev send_valid : Service → Option ServiceError → Option ServiceError × List Post
  send_valid s (some e) = (some e, [])
  send_valid s none =
      send_to (text "Discord") s.discord_webhook (text "content")
        (send_to (text "Slack") s.slack_webhook (text "text") (none, []))

  -- SendContext: the error and the posts that were made. Without a context nothing is sent.
  unfoldable pub send_context :
      (Text → Option (Text × Text)) → Bool → Service → Option ServiceError × List Post
  unfolding validate_service text_beq
  send_context parse has_context s =
      if not has_context
      then (some context_required, [])
      else send_valid s (validate_service parse s)

module _ (post : Post → Bool) (message : Text) (parse : Text → Option (Text × Text))
    (s : Service) where
  abbrev discord_post : Post
  discord_post = record { webhook = s.discord_webhook; key = text "content"; message = message }

  abbrev slack_post : Post
  slack_post = record { webhook = s.slack_webhook; key = text "text"; message = message }

  -- The posts that a service with these webhooks is to make.
  abbrev pub due_posts : List Post
  due_posts =
      (if text_beq s.discord_webhook [] then [] else discord_post ∷ [])
      ++ (if text_beq s.slack_webhook [] then [] else slack_post ∷ [])

  -- Posts go to valid webhooks, and with no error the posts that were made are those that are due,
  -- and all of them succeeded.
  abbrev pub IsSent : Option ServiceError × List Post → Type 0
  IsSent r =
      All (λ p. is_https (parse p.webhook) ≡ true) r.1
      × (r.0 ≡ none → (r.1 ≡ due_posts) × All (λ p. post p ≡ true) r.1)

  valid_webhooks :
      validate_service parse s ≡ none
      → ((text_beq s.discord_webhook [] || is_https (parse s.discord_webhook)) ≡ true)
        × ((text_beq s.slack_webhook [] || is_https (parse s.slack_webhook)) ≡ true)
  unfolding validate_service
  valid_webhooks h = ground arith

  send_to_lem :
      (name webhook key : Text) (rest : Option ServiceError × List Post)
      → (text_beq webhook [] || is_https (parse webhook)) ≡ true
      → All (λ p. is_https (parse p.webhook) ≡ true) rest.1
      → let p : Post = record { webhook = webhook; key = key; message = message } in
        let r = send_to post message name webhook key rest in
        All (λ p. is_https (parse p.webhook) ≡ true) r.1
        × (r.0 ≡ none
            → (rest.0 ≡ none)
              × (r.1 ≡ (if text_beq webhook [] then [] else p ∷ []) ++ rest.1)
              × (All (λ p. post p ≡ true) rest.1 → All (λ p. post p ≡ true) r.1))
  send_to_lem name webhook key rest v all = elim (Bool-cases (text_beq webhook [])) [
    | inl empty ↦ rw empty (all, λ h. (h, refl, λ a. a))
    | inr set ↦
        let https : is_https (parse webhook) ≡ true = ground arith in
        elim (Bool-cases (post (record { webhook = webhook; key = key; message = message }))) [
          | inl sent ↦ rw (set, sent) ((https, all), λ h. (h, refl, λ a. (sent, a)))
          | inr lost ↦ rw (set, lost) ((https, tt), λ h. cc)
        ]
  ]

  send_valid-IsSent :
      (e : Option ServiceError)
      → validate_service parse s ≡ e
      → IsSent (send_valid post message s e)
  send_valid-IsSent (some e) h = (tt, λ p. cc)
  send_valid-IsSent none h =
      let v = valid_webhooks h in
      let slack = send_to_lem (text "Slack") s.slack_webhook (text "text") (none, []) v.1 tt in
      let both = send_to_lem (text "Discord") s.discord_webhook (text "content") _ v.0 slack.0 in
      (
        both.0,
        λ e.
            let d = both.1 e in
            let k = slack.1 d.0 in
            (
              d.1
                  ∙ ap
                      (λ (ps : List Post).
                        (if text_beq s.discord_webhook [] then [] else discord_post ∷ []) ++ ps)
                      (k.1 ∙ append-nil _),
              d.2 (k.2 tt),
            ),
      )

  -- Whatever the transport does, SendContext posts to HTTPS webhooks with a host only; and where it
  -- returns no error, the posts it made are one to the Discord webhook, if that is set, and then one
  -- to the Slack webhook, if that is set, each with the message, and all of them succeeded.
  pub send_context-IsSent :
      (has_context : Bool) → IsSent (send_context post message parse has_context s)
  unfolding send_context
  send_context-IsSent false = (tt, λ p. cc)
  send_context-IsSent true = send_valid-IsSent (validate_service parse s) refl
