-- ===== src/Llm/Hosted/Asked.antt =====
-- What a chat with both callbacks leaves.
use lynne_social.Prelude.{
  ℕ, suc, ◌≡◌, refl, Option, none, some, [], ◌∷◌, ◌++◌, Text, length, length-snoc, nat_eq,
  Option-cases, inl, inr,
}
use lynne_social.Json.{JsonLib}
use lynne_social.Llm.{Engine, Env, Job, chat, queue_chat, unless_empty, default_base_url, chat_body}
use lynne_social.Llm.Url.{Endpoint, parse_base_url}

module _ (J : JsonLib) where
  open J use {Json, dump}

  pub record HasBoth (job : Job J) : Type 0 where
    pub result_to : ℕ
    pub error_to : ℕ
    pub has_result : job.on_result ≡ some result_to
    pub has_error : job.on_error ≡ some error_to

  -- A chat adds a job, or one call of a client, or throws.
  pub data Asked (s t : Engine J) (r : Option (Unit {0})) : Type 0 where
    queues :
        (job : Job J)
        → HasBoth job
        → t.jobs ≡ s.jobs ++ (job ∷ [])
        → t.calls ≡ s.calls
        → r ≡ some tt
        → Asked s t r
    refuses : t.jobs ≡ s.jobs → length t.calls ≡ suc (length s.calls) → r ≡ some tt → Asked s t r
    throws : t.jobs ≡ s.jobs → t.calls ≡ s.calls → r ≡ none → Asked s t r

  queue-Asked :
      (env : Env J) (a b : ℕ) (url : Endpoint) (body : Option Text) (s : Engine J)
      → let r = queue_chat J env (some a) (some b) url body s in Asked s r.1 r.0
  queue-Asked env a b url none s = throws refl refl refl
  queue-Asked env a b url (some body) s =
      queues _ (record { result_to = a; error_to = b; has_result = refl; has_error = refl }) refl
        refl refl

  pub chat-Asked :
      (env : Env J) (messages tools : Json) (a b : ℕ) (s : Engine J)
      → let r = chat J env messages (some a) (some b) tools s in Asked s r.1 r.0
  unfolding chat
  chat-Asked env messages tools a b s =
      let base_url = unless_empty J s.config.base_url (default_base_url J) in
      elim (Option-cases (parse_base_url base_url)) [
        | inl e ↦ rw (e, chat) (throws refl refl refl)
        | inr (none, e) ↦ rw (e, chat) (refuses refl (length-snoc s.calls _) refl)
        | inr (some url, e) ↦
            rw (e, chat) (queue-Asked env a b url (dump (chat_body J s.config messages tools)) s)
      ]
