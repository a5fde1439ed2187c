-- ===== src/Api/Answers.antt =====
-- What becomes of an answer to an action.
use wiremap.Base.{
  ℕ, ◌≡◌, refl, inl, inr, ◌⊎◌, true, false, Option, none, some, [], ◌∷◌, Text, Bool-cases,
  same_text,
}
use wiremap.Route.{is_truthy, or_else}
use wiremap.Api.{Outcome, Response, api_error, is_ok, message_of, send_json, sent_data, value_of}

or_else-api_error :
    (o : Option Text) (status : ℕ) (text : Text)
    → is_truthy (or_else o (api_error status text)) ≡ true
unfolding api_error same_text
or_else-api_error none status text = refl
or_else-api_error (some []) status text = refl
or_else-api_error (some (c ∷ s)) status text = refl

-- An action whose answer is not ok throws a message that is not empty, whatever the body; an action
-- whose answer is ok never throws, not even where the body is no JSON.
pub send_json-cases :
    {A : Type 0} (r : Response A)
    → ((is_ok r ≡ true) × ((v : Option A) × (send_json r ≡ Outcome.returned v)))
      ⊎ ((is_ok r ≡ false) × ((m : Text) × (send_json r ≡ Outcome.thrown m) × (is_truthy m ≡ true)))
unfolding send_json
send_json-cases r = elim (Bool-cases (is_ok r)) [
  | inl e ↦ inl (e, (value_of (sent_data r), rw e refl))
  | inr e ↦ inr (
    e,
    (
      or_else (message_of (sent_data r)) (api_error r.status r.status_text),
      rw e refl,
      or_else-api_error (message_of (sent_data r)) r.status r.status_text,
    ),
  )
]
